-- ===== src/Promotion/Following.antt =====
-- Reconfigure: what it leaves behind on every branch.
use cnpg_ha.Base.{ℕ, String, ◌≡◌, refl, ap, ◌∙◌, ◌⊎◌, inl, inr, ◌==◌, arith, Bool-cases}
use cnpg_ha.Base.Message.{Err}
use cnpg_ha.Base.Exec.{ok, err}
use cnpg_ha.Value
use cnpg_ha.Value.{Value, Items, nil, Fields, as_object, is_str}
use cnpg_ha.Platform.{Platform, Ref, Nested, cnpg_cluster, or_zero, or_error}
use cnpg_ha.Platform.Laws.{ObjectLaws, ServerLaws, Untouched}
use cnpg_ha.Promotion.{external_clusters_path, with_host, reconfigure}
use cnpg_ha.Promotion.Externals.{
  external_cluster_index-set, is_named-with_host, host-with_host, object_of_as_object, IsRehosted,
  with_host-IsRehosted,
}
use cnpg_ha.Promotion.Outcome.{Outcome-error, Outcome-ok, Outcome-any}
use cnpg_ha.Promotion.Repointing.{
  externals_of, IsFollower, reconfigure_of_IsFollower, RepointWrote, reconfigure-Outcome,
}

module _ (p : Platform) (server : p.Client → String) (ol : ObjectLaws p) (sl : ServerLaws p server)
    (cli : p.Client) (ref : Ref) (host : String) (w : p.World) where
  open p use {World, Object}

  RepointWrote-IsFollower :
      (v : World) → RepointWrote p server ol sl cli ref host w v → IsFollower p cli ref host v
  RepointWrote-IsFollower v (u, o, externals, idx, ext, g, at, s, sl', so, b, _, _) = (
    o,
    Value.set externals idx (Value.object (with_host host ext)),
    idx,
    with_host host ext,
    at,
    record {
      externals_read = rw sl';
      nonempty = rw (Value.length-set, s.nonempty);
      index_found = rw so (
          external_cluster_index-set externals _ idx _
            (is_named-with_host _ host (Value.at externals idx) ext s.object_at)
          ∙ s.index_found);
      object_at = ap as_object (Value.at-set_self externals idx _ ext s.object_at);
    },
    rw b,
    host-with_host host ext,
  )

  -- After Reconfigure has succeeded the cluster is a replica, and the external cluster that its
  -- spec selects has the host that was asked for.
  pub reconfigure-IsFollower :
      (reconfigure p cli ref host w).0 ≡ ok tt
      → IsFollower p cli ref host (reconfigure p cli ref host w).1
  reconfigure-IsFollower =
      Outcome-ok (IsFollower p cli ref host) (λ x. x) RepointWrote-IsFollower
        (reconfigure-Outcome p server ol sl cli ref host w)

  -- A second Reconfigure to the same host after a successful one succeeds and changes nothing.
  pub reconfigure_idem :
      (reconfigure p cli ref host w).0 ≡ ok tt
      → let v = (reconfigure p cli ref host w).1 in reconfigure p cli ref host v ≡ (ok tt, v)
  unfolding reconfigure
  reconfigure_idem h = elim (Bool-cases (host == "")) [
    | inl n ↦ absurd (ground arith)
    | inr n ↦
        reconfigure_of_IsFollower p cli ref host (reconfigure p cli ref host w).1 n
          (reconfigure-IsFollower h)
  ]

  -- A Reconfigure that fails has changed nothing.
  pub reconfigure_error_unchanged :
      (e : Err) → (reconfigure p cli ref host w).0 ≡ err e → (reconfigure p cli ref host w).1 ≡ w
  reconfigure_error_unchanged = Outcome-error (reconfigure-Outcome p server ol sl cli ref host w)

  -- However Reconfigure ends, every object but the cluster at the reference reads as before.
  pub reconfigure-Untouched :
      Untouched p server cnpg_cluster cli ref w (reconfigure p cli ref host w).1
  reconfigure-Untouched =
      Outcome-any (Untouched p server cnpg_cluster cli ref w) (λ k' c' r' a. refl)
        (λ v (u, o, externals, idx, ext, g, at, s, sl', so, b, _, un). un)
        (reconfigure-Outcome p server ol sl cli ref host w)

  -- The external clusters in a world, in spec order.
  abbrev pub externals_in : World → Items
  externals_in v = externals_of p (p.get cnpg_cluster cli ref v)

  -- One entry, which was an object, is that object with the new host, and the others are as before.
  pub record Rehosted (v : World) : Type 0 where
    pub idx : ℕ
    pub old : Fields
    pub new : Fields
    pub count_kept : Value.length (externals_in v) ≡ Value.length (externals_in w)
    pub others_kept :
        (j : ℕ) → (idx ≡ j → ⊥) → Value.at (externals_in v) j ≡ Value.at (externals_in w) j
    pub before : Value.at (externals_in w) idx ≡ Value.object old
    pub written : Value.at (externals_in v) idx ≡ Value.object new
    pub host_replaced : IsRehosted host old new

  or_zero_of_or_error :
      (n : Nested Items) (vs : Items) → or_error nil n ≡ ok vs → or_zero nil n ≡ vs
  or_zero_of_or_error n vs h = ground arith

  RepointWrote-Rehosted : (v : World) → RepointWrote p server ol sl cli ref host w v → Rehosted v
  RepointWrote-Rehosted v (u, o, externals, idx, ext, g, at, s, sl', so, b, _, _) =
      let before : externals_in w ≡ externals =
        ap (externals_of p) g
        ∙ or_zero_of_or_error (p.nested_slice u external_clusters_path) externals
            s.externals_read in
      let after : externals_in v ≡ Value.set externals idx (Value.object (with_host host ext)) =
        ap (externals_of p) at ∙ ap (or_zero nil) sl' in
      let entry = Value.object (with_host host ext) in
      record {
        idx = idx;
        old = ext;
        new = with_host host ext;
        count_kept = rw (after, before) (Value.length-set externals idx entry);
        others_kept = λ j n. rw (after, before) (Value.at-set_ne externals idx j entry n);
        before = rw before (object_of_as_object (Value.at externals idx) ext s.object_at);
        written = rw after (Value.at-set_self externals idx entry ext s.object_at);
        host_replaced = with_host-IsRehosted host ext;
      }

  -- However Reconfigure ends, the external clusters of the spec are those before it, or one of them
  -- has the new host: the others, its other fields and its other connection parameters are as before.
  pub externals-reconfigure :
      let v = (reconfigure p cli ref host w).1 in (externals_in v ≡ externals_in w) ⊎ Rehosted v
  externals-reconfigure =
      Outcome-any (λ v. (externals_in v ≡ externals_in w) ⊎ Rehosted v) (inl refl)
        (λ v r. inr (RepointWrote-Rehosted v r)) (reconfigure-Outcome p server ol sl cli ref host w)
