-- ===== src/Promotion/Fencing.antt =====
-- Fence: what it leaves behind on every branch.
use cnpg_ha.Base.{
  String, ◌≡◌, refl, inl, inr, Map, insert, value_at, value_at-insert_self, ◌==◌, eq_iff, arith,
  Bool-cases,
}
use cnpg_ha.Base.Message.{Err, wrapf}
use cnpg_ha.Base.Exec.{ok, err, Result-cases}
use cnpg_ha.Health.{probe}
use cnpg_ha.Platform.{Platform, Ref, cnpg_cluster}
use cnpg_ha.Platform.Laws.{ObjectLaws, ServerLaws, Untouched}
use cnpg_ha.Promotion.{annotation_fenced, fenced_all_instances, ref_args, fence}
use cnpg_ha.Promotion.Outcome.{
  Outcome, failed, settled, Outcome-error, Outcome-ok, Outcome-any, Outcome-map,
}
use cnpg_ha.Promotion.Annotations.{Annotated, annotate_Outcome}

module _ (p : Platform) where
  open p use {World, Client, Object}

  -- The cluster at the reference is there and carries the annotation that fences all instances.
  abbrev pub IsFenced : Client → Ref → World → Type 0
  IsFenced cli ref w =
      (o : Object) × (p.get cnpg_cluster cli ref w ≡ ok o)
      × (value_at annotation_fenced (p.annotations o) ≡ fenced_all_instances)

  -- Where the annotation stands already, Fence changes nothing.
  pub fence_of_IsFenced :
      (cli : Client) (ref : Ref) (w : World) → IsFenced cli ref w → fence p cli ref w ≡ (ok tt, w)
  unfolding fence
  fence_of_IsFenced cli ref w (o, g, f) = rw (g, f)

module _ (p : Platform) (server : p.Client → String) (ol : ObjectLaws p) (sl : ServerLaws p server)
    (cli : p.Client) (ref : Ref) (w : p.World) where
  open p use {World, Object}

  abbrev pub fenced : Object → Map String
  fenced u = insert annotation_fenced fenced_all_instances (p.annotations u)

  abbrev pub FenceWrote : World → Type 0
  FenceWrote v =
      (u : Object) × (p.get cnpg_cluster cli ref w ≡ ok u)
      × Annotated p server ol sl cli w cnpg_cluster ref (fenced u) u v

  pub fence-Outcome : Outcome (fence p cli ref) w (IsFenced p cli ref w) FenceWrote
  unfolding fence
  fence-Outcome = elim (Result-cases (p.get cnpg_cluster cli ref w)) [
    | inl (u, g) ↦
        elim (Bool-cases (value_at annotation_fenced (p.annotations u) == fenced_all_instances)) [
          | inl old ↦ settled (ground arith) (u, g, (eq_iff _ _).0 old)
          | inr new ↦
              Outcome-map (ground arith) (λ x. absurd x) (λ v a. (u, g, a))
                (annotate_Outcome p server ol sl cli w cnpg_cluster ref (fenced u) u
                  "fence cnpg cluster %s/%s: %w" (ref_args ref) g)
        ]
    | inr (e, g) ↦ failed (wrapf "get cnpg cluster %s/%s: %w" (ref_args ref) e) (ground arith)
  ]

  FenceWrote-IsFenced : (v : World) → FenceWrote v → IsFenced p cli ref v
  FenceWrote-IsFenced v (u, g, (o, at, ann, _, _, _)) = (o, at, rw ann (value_at-insert_self _ _ _))

  -- After Fence has succeeded the cluster at the reference carries the annotation that fences all
  -- of its instances.
  pub fence-IsFenced : (fence p cli ref w).0 ≡ ok tt → IsFenced p cli ref (fence p cli ref w).1
  fence-IsFenced = Outcome-ok (IsFenced p cli ref) (λ x. x) FenceWrote-IsFenced fence-Outcome

  -- A second Fence after a successful one succeeds and changes nothing.
  pub fence_idem :
      (fence p cli ref w).0 ≡ ok tt
      → fence p cli ref (fence p cli ref w).1 ≡ (ok tt, (fence p cli ref w).1)
  fence_idem h = fence_of_IsFenced p cli ref (fence p cli ref w).1 (fence-IsFenced h)

  -- Whatever Fence returns, the probe of the cluster reports what it reported before.
  pub probe-fence : probe p cli ref (fence p cli ref w).1 ≡ probe p cli ref w
  unfolding probe
  probe-fence =
      Outcome-any (λ v. probe p cli ref v ≡ probe p cli ref w) refl
        (λ v (u, g, (o, at, _, same, _, _)). rw (at, g, same)) fence-Outcome

  -- A Fence that fails has changed nothing.
  pub fence_error_unchanged : (e : Err) → (fence p cli ref w).0 ≡ err e → (fence p cli ref w).1 ≡ w
  fence_error_unchanged = Outcome-error fence-Outcome

  -- However Fence ends, every object but the cluster at the reference reads as before.
  pub fence-Untouched : Untouched p server cnpg_cluster cli ref w (fence p cli ref w).1
  fence-Untouched =
      Outcome-any (Untouched p server cnpg_cluster cli ref w) (λ k' c' r' a. refl)
        (λ v (u, g, (o, at, _, _, un, _)). un) fence-Outcome
