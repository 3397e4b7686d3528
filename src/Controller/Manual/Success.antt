-- ===== src/Controller/Manual/Success.antt =====
-- A manual promotion that succeeds.
use cnpg_ha.Base.{String, ◌≡◌, refl, arith, inl, inr, some, Bool-cases}
use cnpg_ha.Base.Message.{Err, wrapf, str, end, arg}
use cnpg_ha.Base.Exec.{Result, ok, err, Result-cases}
use cnpg_ha.Api.{ReplicaSite, Time}
use cnpg_ha.Platform.{Platform}
use cnpg_ha.Controller.Observation.{SiteObservation}
use cnpg_ha.Controller.Effect.{PromotionEffect}
use cnpg_ha.Controller.State.{
  Reconciler, State, set_failover_in_progress, set_status_condition, event, publish,
  clear_promote_annotation,
}
use cnpg_ha.Controller.Failover.{run_promotion}
use cnpg_ha.Metrics.{observe_failover_duration}
use cnpg_ha.Controller.Manual.{
  duration_since, announce_manually, conclude_manually, promote_manually, record_failover,
}

module _ (p : Platform) (r : Reconciler p) (target old : String)
    (target_obs : SiteObservation) where
  -- The effect and the status after a success.
  abbrev pub Concluded : State p → PromotionEffect → Type 0
  Concluded s effect =
      (s.ha.status.current_primary_site ≡ target)
      × (s.ha.status.last_failover_time ≡ some (p.now s.world))
      × (effect ≡ record { demoted = old; promoted = target_obs.name })

  abbrev Ends : PromotionEffect → Result PromotionEffect × State p → Type 0
  Ends effect x = x.0 ≡ ok effect → Concluded x.1 effect

  concluded :
      (start : Time) (effect : PromotionEffect) (s : State p)
      → Ends effect (conclude_manually p r target old target_obs start s)
  unfolding conclude_manually record_failover publish set_failover_in_progress set_status_condition
      event
  concluded start effect s =
      let measured =
        (publish p r
          (observe_failover_duration s.ha.namespace s.ha.name "manual"
            (duration_since p start (p.now s.world)))
          s).1 in
      elim (Result-cases (clear_promote_annotation p r measured).0) [
        | inr (e, h) ↦ rw h (λ g. absurd (ground arith))
        | inl (x, h) ↦ elim (Bool-cases r.has_recorder) [
          | inl b ↦ rw (h, b) (λ g. (refl, refl, ground arith))
          | inr b ↦ rw (h, b) (λ g. (refl, refl, ground arith))
        ]
      ]

  abbrev pub announced : State p → State p
  announced s = (announce_manually p r target s).1

  module _ (rep : ReplicaSite) (effect : PromotionEffect) (s : State p) where
    -- A manual promotion that succeeds has announced itself and run the whole promotion sequence
    -- without an error. It leaves the target as the current primary of the status, with the time of
    -- the failover, and its effect demotes the old primary and promotes the observed target.
    pub promoted_manually :
        (promote_manually p r target rep old target_obs s).0 ≡ ok effect
        → ((run_promotion p r old rep (announced s)).0 ≡ ok tt)
          × Concluded (promote_manually p r target rep old target_obs s).1 effect
    unfolding promote_manually announce_manually set_failover_in_progress set_status_condition event
    promoted_manually = elim (Result-cases (run_promotion p r old rep (announced s)).0) [
      | inr (e, h) ↦ rw h (λ g. absurd (ground arith))
      | inl (x, h) ↦ rw h (λ g. (refl, concluded _ effect _ g))
    ]

    -- A manual promotion whose sequence fails returns that error, wrapped.
    pub manual_error :
        (e : Err)
        → (run_promotion p r old rep (announced s)).0 ≡ err e
        → (promote_manually p r target rep old target_obs s).0
          ≡ err (wrapf "manual promotion to %q: %w" (arg (str target) end) e)
    unfolding promote_manually announce_manually set_failover_in_progress set_status_condition event
    manual_error e h = rw h refl
