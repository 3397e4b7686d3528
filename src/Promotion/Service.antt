-- ===== src/Promotion/Service.antt =====
-- FlipCiliumService: what it leaves behind on every branch.
use cnpg_ha.Base.{
  String, ◌≡◌, refl, ◌∙◌, inl, inr, Bool, ◌&&◌, Map, insert, value_at, value_at-insert,
  value_at-insert_self, ◌==◌, eq_iff, eq_refl, arith, Bool-cases,
}
use cnpg_ha.Base.Message.{Err, wrapf}
use cnpg_ha.Base.Exec.{ok, err, Result-cases}
use cnpg_ha.Platform.{Platform, Ref, service}
use cnpg_ha.Platform.Laws.{ObjectLaws, ServerLaws, Untouched}
use cnpg_ha.Promotion.{
  annotation_cilium_global, annotation_cilium_affinity, ServiceRole, affinity_value, ref_args,
  rw_service, flip_cilium_service,
}
use cnpg_ha.Promotion.Outcome.{
  Outcome, failed, settled, Outcome-error, Outcome-ok, Outcome-any, Outcome-map,
}
use cnpg_ha.Promotion.Annotations.{Annotated, annotate_Outcome}

module _ (p : Platform) where
  open p use {World, Client, Object}

  -- The read-write Service is in the mesh with the affinity of the role.
  abbrev pub HasRole : Client → Ref → ServiceRole → World → Type 0
  HasRole cli ref role w =
      (o : Object) × (p.get service cli (rw_service ref) w ≡ ok o)
      × (value_at annotation_cilium_global (p.annotations o) ≡ "true")
      × (value_at annotation_cilium_affinity (p.annotations o) ≡ affinity_value role)

  pub flip_of_HasRole :
      (cli : Client) (ref : Ref) (role : ServiceRole) (w : World)
      → HasRole cli ref role w
      → flip_cilium_service p cli ref role w ≡ (ok tt, w)
  unfolding flip_cilium_service
  flip_of_HasRole cli ref role w (o, g, m, a) = rw (g, m, a, eq_refl)

module _ (p : Platform) (server : p.Client → String) (ol : ObjectLaws p) (sl : ServerLaws p server)
    (cli : p.Client) (ref : Ref) (w : p.World) (role : ServiceRole) where
  open p use {World, Object}

  abbrev flipped : Object → Map String
  flipped u =
      insert annotation_cilium_affinity (affinity_value role)
        (insert annotation_cilium_global "true" (p.annotations u))

  abbrev FlipWrote : World → Type 0
  FlipWrote v =
      (u : Object) × (p.get service cli (rw_service ref) w ≡ ok u)
      × Annotated p server ol sl cli w service (rw_service ref) (flipped u) u v

  abbrev flip_test : Object → Bool
  flip_test u =
      value_at annotation_cilium_global (p.annotations u) == "true"
      && value_at annotation_cilium_affinity (p.annotations u) == affinity_value role

  flip-Outcome : Outcome (flip_cilium_service p cli ref role) w (HasRole p cli ref role w) FlipWrote
  unfolding flip_cilium_service
  flip-Outcome = elim (Result-cases (p.get service cli (rw_service ref) w)) [
    | inl (u, g) ↦ elim (Bool-cases (flip_test u)) [
      | inl old ↦
          settled (ground arith)
            (u, g, (eq_iff _ _).0 (ground arith), (eq_iff _ _).0 (ground arith))
      | inr new ↦
          Outcome-map (ground arith) (λ x. absurd x) (λ v a. (u, g, a))
            (annotate_Outcome p server ol sl cli w service (rw_service ref) (flipped u) u
              "update service %s/%s: %w" (ref_args (rw_service ref)) g)
    ]
    | inr (e, g) ↦
        failed (wrapf "get service %s/%s: %w" (ref_args (rw_service ref)) e) (ground arith)
  ]

  FlipWrote-HasRole : (v : World) → FlipWrote v → HasRole p cli ref role v
  FlipWrote-HasRole v (u, g, (o, at, ann, _, _, _)) = (
    o,
    at,
    rw ann (value_at-insert _ _ _ _ ∙ value_at-insert_self _ _ _),
    rw ann (value_at-insert_self _ _ _),
  )

  -- After FlipCiliumService has succeeded the read-write Service is global and has the affinity of
  -- the role that was asked for.
  pub flip-HasRole :
      (flip_cilium_service p cli ref role w).0 ≡ ok tt
      → HasRole p cli ref role (flip_cilium_service p cli ref role w).1
  flip-HasRole = Outcome-ok (HasRole p cli ref role) (λ x. x) FlipWrote-HasRole flip-Outcome

  -- A second flip to the same role succeeds and changes nothing.
  pub flip_idem :
      (flip_cilium_service p cli ref role w).0 ≡ ok tt
      → let v = (flip_cilium_service p cli ref role w).1 in
        flip_cilium_service p cli ref role v ≡ (ok tt, v)
  flip_idem h =
      flip_of_HasRole p cli ref role (flip_cilium_service p cli ref role w).1 (flip-HasRole h)

  -- A flip that fails has changed nothing.
  pub flip_error_unchanged :
      (e : Err)
      → (flip_cilium_service p cli ref role w).0 ≡ err e
      → (flip_cilium_service p cli ref role w).1 ≡ w
  flip_error_unchanged = Outcome-error flip-Outcome

  -- However a flip ends, every object but the read-write Service reads as before.
  pub flip-Untouched :
      Untouched p server service cli (rw_service ref) w (flip_cilium_service p cli ref role w).1
  flip-Untouched =
      Outcome-any (Untouched p server service cli (rw_service ref) w) (λ k' c' r' a. refl)
        (λ v (u, g, (o, at, _, _, un, _)). un) flip-Outcome
