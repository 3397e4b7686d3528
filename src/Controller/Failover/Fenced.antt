-- ===== src/Controller/Failover/Fenced.antt =====
-- No promotion without a fence, however the sequence ends.
use cnpg_ha.Base.{
  String, ◌≡◌, ◌≢◌, ◌⊎◌, inl, inr, refl, sym, ap, subst, ◌∙◌, false, arith, Bool-cases,
}
use cnpg_ha.Base.Message.{Err, wrapf, end, is_not_found}
use cnpg_ha.Base.Moves.{Order, Moves, bind-Moves}
use cnpg_ha.Base.Exec.{Result, ok, err, Exec, wrap, proceed, ◌>>◌, Result-cases}
use cnpg_ha.Platform.{Platform, Ref, cnpg_cluster}
use cnpg_ha.Platform.Laws.{ObjectLaws, ServerLaws, Untouched}
use cnpg_ha.Promotion.{role_local, role_remote, fence, promote, flip_cilium_service}
use cnpg_ha.Promotion.Fencing.{fence-IsFenced, fence-Untouched}
use cnpg_ha.Promotion.Service.{flip-Untouched}
use cnpg_ha.Promotion.Role.{promote-Untouched}
use cnpg_ha.Controller.Failover.{tolerated, unless_not_found, promotion_steps}
use cnpg_ha.Controller.Failover.Steps.{FenceEnd, tolerated_ok}

-- A tolerated step that does not pass met an error that is no NotFound.
tolerated_err :
    (f : String) (r : Result (Unit {0})) (x : Err)
    → tolerated f r ≡ err x
    → (e : Err) × (r ≡ err e) × (is_not_found e ≡ false) × (x ≡ wrapf f end e)
tolerated_err f (ok y) x h = absurd (ground arith)
tolerated_err f (err e) x h = elim (Bool-cases (is_not_found e)) [
  | inl n ↦ absurd (ground arith)
  | inr n ↦ (e, refl, n, ground arith)
]

module _ (p : Platform) (server : p.Client → String) (ol : ObjectLaws p) (sl : ServerLaws p server)
    (old_cli : p.Client) (old_ref : Ref) (new_cli : p.Client) (new_ref : Ref)
    (apart : (server new_cli ≢ server old_cli) ⊎ (new_ref ≢ old_ref)) where
  open p use {World}

  -- The cluster of the old primary reads as before.
  abbrev SameOld : World → World → Type 0
  SameOld w v = p.get cnpg_cluster old_cli old_ref v ≡ p.get cnpg_cluster old_cli old_ref w

  instance abbrev same_old : Order SameOld
  same_old = record { stay = λ s. refl; chain = λ s t u a b. b ∙ a }

  abbrev flip_old : Exec World (Unit {0})
  flip_old =
      unless_not_found "flip old primary service to remote: %w"
        (flip_cilium_service p old_cli old_ref role_remote)

  abbrev promote_new : Exec World (Unit {0})
  promote_new = wrap "promote target: %w" end (promote p new_cli new_ref)

  abbrev flip_new : Exec World (Unit {0})
  flip_new =
      wrap "flip target service to local: %w" end (flip_cilium_service p new_cli new_ref role_local)

  abbrev rest : Exec World (Unit {0})
  rest = flip_old >> (promote_new >> flip_new)

  flip_old-Moves : Moves SameOld flip_old
  flip_old-Moves = record {
    at = λ w.
        flip-Untouched p server ol sl old_cli old_ref w role_remote cnpg_cluster old_cli old_ref
          (inl (λ e. cc));
  }

  promote_new-Moves : Moves SameOld promote_new
  promote_new-Moves = record {
    at = λ w.
        promote-Untouched p server ol sl new_cli new_ref w cnpg_cluster old_cli old_ref (inr apart);
  }

  flip_new-Moves : Moves SameOld flip_new
  flip_new-Moves = record {
    at = λ w.
        flip-Untouched p server ol sl new_cli new_ref w role_local cnpg_cluster old_cli old_ref
          (inl (λ e. cc));
  }

  rest-Moves : Moves SameOld rest
  rest-Moves =
      bind-Moves flip_old (λ _. promote_new >> flip_new) flip_old-Moves
        (λ _. bind-Moves promote_new (λ _. flip_new) promote_new-Moves (λ _. flip_new-Moves))

  module _ (w : World) where
    abbrev steps : Result (Unit {0}) × World
    steps = promotion_steps p old_cli old_ref new_cli new_ref w

    abbrev fenced : World
    fenced = (fence p old_cli old_ref w).1

    -- The sequence ends with the error of its fence, and every object but the cluster of the old
    -- primary reads as before.
    abbrev pub IsStopped : Type 0
    IsStopped =
        (e : Err) × ((fence p old_cli old_ref w).0 ≡ err e)
        × (is_not_found e ≡ false)
        × (steps.0 ≡ err (wrapf "fence old primary: %w" end e))
        × Untouched p server cnpg_cluster old_cli old_ref w steps.1

    abbrev Fenced : World → Type 0
    Fenced = FenceEnd p server ol sl old_cli old_ref new_cli new_ref w

    passed_by :
        (x : Unit {0})
        → tolerated "fence old primary: %w" (fence p old_cli old_ref w).0 ≡ ok x
        → steps ≡ rest fenced
    unfolding promotion_steps
    passed_by x h = ap (λ y. proceed y (λ _. rest) fenced) h

    stopped_by :
        (x : Err)
        → tolerated "fence old primary: %w" (fence p old_cli old_ref w).0 ≡ err x
        → steps ≡ (err x, fenced)
    unfolding promotion_steps
    stopped_by x h = ap (λ y. proceed y (λ _. rest) fenced) h

    fenced_by :
        tolerated "fence old primary: %w" (fence p old_cli old_ref w).0 ≡ ok tt
        → Fenced (rest fenced).1
    fenced_by h = elim (tolerated_ok "fence old primary: %w" (fence p old_cli old_ref w).0 h) [
      | inr missing ↦ inr missing
      | inl done ↦
          let (o, g, a) = fence-IsFenced p server ol sl old_cli old_ref w done in
          inl (o, rest-Moves.at fenced ∙ g, a)
    ]

    -- Where the cluster of the new site is not that of the old primary, a promotion leaves, however
    -- it ends, the cluster of the old primary fenced, or its fence met a NotFound. Otherwise it has
    -- ended with the error of the fence, and every object but that cluster reads as before: nothing
    -- is promoted.
    pub promotion_steps-Fenced : Fenced steps.1 ⊎ IsStopped
    promotion_steps-Fenced =
        elim (Result-cases (tolerated "fence old primary: %w" (fence p old_cli old_ref w).0)) [
          | inl (x, h) ↦ inl (subst (λ y. Fenced y.1) (sym (passed_by x h)) (fenced_by h))
          | inr (x, h) ↦
              let (e, f, n, same) = tolerated_err "fence old primary: %w" _ x h in
              inr (
                e,
                f,
                n,
                ap (λ y. y.0) (stopped_by x h) ∙ ap err same,
                subst (λ y. Untouched p server cnpg_cluster old_cli old_ref w y.1)
                    (sym (stopped_by x h)) (fence-Untouched p server ol sl old_cli old_ref w),
              )
        ]
