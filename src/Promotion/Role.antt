-- ===== src/Promotion/Role.antt =====
-- Promote: what it leaves behind on every branch.
use cnpg_ha.Base.{String, ◌≡◌, refl, ◌∙◌, inl, inr, Bool, true, false, arith}
use cnpg_ha.Base.Message.{Err, wrapf}
use cnpg_ha.Base.Exec.{ok, err, Result-cases}
use cnpg_ha.Health.{parse_cluster, probe}
use cnpg_ha.Platform.{Platform, Ref, cnpg_cluster, found, or_error}
use cnpg_ha.Platform.Laws.{ObjectLaws, ServerLaws, Untouched}
use cnpg_ha.Promotion.{replica_enabled_path, ref_args, promote}
use cnpg_ha.Promotion.Outcome.{
  Outcome, failed, settled, Outcome-error, Outcome-ok, Outcome-any, Outcome-map,
}
use cnpg_ha.Promotion.Stored.{store_Outcome}

module _ (p : Platform) where
  open p use {World, Client, Object}

  -- The probe finds the cluster, in the primary role or not.
  abbrev pub HasPrimary : Bool → Client → Ref → World → Type 0
  HasPrimary b cli ref w =
      ((probe p cli ref w).reachable ≡ true) × ((probe p cli ref w).primary ≡ b)

  -- An object whose spec.replica.enabled reads as an absent or false flag.
  abbrev pub IsWriter : Client → Ref → World → Type 0
  IsWriter cli ref w =
      (o : Object) × (p.get cnpg_cluster cli ref w ≡ ok o)
      × (or_error false (p.nested_bool o replica_enabled_path) ≡ ok false)

  IsWriter-HasPrimary :
      (cli : Client) (ref : Ref) (w : World) → IsWriter cli ref w → HasPrimary true cli ref w
  unfolding probe parse_cluster
  IsWriter-HasPrimary cli ref w (o, g, n) = ground arith

  pub promote_of_IsWriter :
      (cli : Client) (ref : Ref) (w : World) → IsWriter cli ref w → promote p cli ref w ≡ (ok tt, w)
  unfolding promote
  promote_of_IsWriter cli ref w (o, g, n) = rw (g, n)

module _ (p : Platform) (server : p.Client → String) (ol : ObjectLaws p) (sl : ServerLaws p server)
    (cli : p.Client) (ref : Ref) (w : p.World) where
  open p use {World, Object}

  -- The new world holds a writer with the annotations of the object that was read.
  abbrev PromoteWrote : World → Type 0
  PromoteWrote v =
      (u o : Object) × (p.get cnpg_cluster cli ref w ≡ ok u)
      × (p.get cnpg_cluster cli ref v ≡ ok o)
      × (p.nested_bool o replica_enabled_path ≡ found false)
      × (p.annotations o ≡ p.annotations u)
      × Untouched p server cnpg_cluster cli ref w v

  -- Promote on an object that was read, and is a replica.
  promote_replica :
      (u : Object)
      → p.get cnpg_cluster cli ref w ≡ ok u
      → or_error false (p.nested_bool u replica_enabled_path) ≡ ok true
      → Outcome (promote p cli ref) w (IsWriter p cli ref w) PromoteWrote
  unfolding promote
  promote_replica u g n = elim (Result-cases (p.set_nested_bool false replica_enabled_path u)) [
    | inl (u', s) ↦
        let kept = ol.set_bool_elsewhere false replica_enabled_path u u' s in
        Outcome-map (rw (g, n, s)) (λ x. absurd x)
          (λ v (o, at, same, un). (
            u,
            o,
            g,
            at,
            same.bool_eq replica_enabled_path ∙ ol.set_bool_read false replica_enabled_path u u' s,
            same.annotations_eq ∙ kept.annotations_kept,
            un,
          ))
          (store_Outcome p server sl cli w cnpg_cluster ref u' "promote cnpg cluster %s/%s: %w"
            (ref_args ref) (kept.key_kept ∙ sl.key-get cnpg_cluster cli ref w u g))
    | inr (e, s) ↦
        failed (wrapf "set spec.replica.enabled %s/%s: %w" (ref_args ref) e) (rw (g, n, s))
  ]

  promote-Outcome : Outcome (promote p cli ref) w (IsWriter p cli ref w) PromoteWrote
  unfolding promote
  promote-Outcome = elim (Result-cases (p.get cnpg_cluster cli ref w)) [
    | inl (u, g) ↦ elim (Result-cases (or_error false (p.nested_bool u replica_enabled_path))) [
      | inl (true, n) ↦ promote_replica u g n
      | inl (false, n) ↦ settled (rw (g, n)) (u, g, n)
      | inr (e, n) ↦
          failed (wrapf "read spec.replica.enabled %s/%s: %w" (ref_args ref) e) (rw (g, n))
    ]
    | inr (e, g) ↦ failed (wrapf "get cnpg cluster %s/%s: %w" (ref_args ref) e) (rw g)
  ]

  pub promote-IsWriter :
      (promote p cli ref w).0 ≡ ok tt → IsWriter p cli ref (promote p cli ref w).1
  promote-IsWriter =
      Outcome-ok (IsWriter p cli ref) (λ x. x) (λ v (u, o, g, at, n, _, _). (o, at, rw n))
        promote-Outcome

  -- After Promote has succeeded the probe finds the cluster, in the primary role.
  pub promote-HasPrimary :
      (promote p cli ref w).0 ≡ ok tt → HasPrimary p true cli ref (promote p cli ref w).1
  promote-HasPrimary h = IsWriter-HasPrimary p cli ref (promote p cli ref w).1 (promote-IsWriter h)

  -- A primary stays one, however Promote ends.
  pub promote_keeps_primary :
      HasPrimary p true cli ref w → HasPrimary p true cli ref (promote p cli ref w).1
  promote_keeps_primary h =
      Outcome-any (HasPrimary p true cli ref) h
        (λ v (u, o, g, at, n, _, _). IsWriter-HasPrimary p cli ref v (o, at, rw n)) promote-Outcome

  -- A second Promote after a successful one succeeds and changes nothing.
  pub promote_idem :
      (promote p cli ref w).0 ≡ ok tt
      → promote p cli ref (promote p cli ref w).1 ≡ (ok tt, (promote p cli ref w).1)
  promote_idem h = promote_of_IsWriter p cli ref (promote p cli ref w).1 (promote-IsWriter h)

  -- A Promote that fails has changed nothing.
  pub promote_error_unchanged :
      (e : Err) → (promote p cli ref w).0 ≡ err e → (promote p cli ref w).1 ≡ w
  promote_error_unchanged = Outcome-error promote-Outcome

  -- However Promote ends, every object but the cluster at the reference reads as before.
  pub promote-Untouched : Untouched p server cnpg_cluster cli ref w (promote p cli ref w).1
  promote-Untouched =
      Outcome-any (Untouched p server cnpg_cluster cli ref w) (λ k' c' r' a. refl)
        (λ v (u, o, g, at, _, _, un). un) promote-Outcome
