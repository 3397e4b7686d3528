-- ===== src/Controller/Automatic/Success.antt =====
-- An automatic promotion that succeeds.
use cnpg_ha.Base.{List, ap, ◌∙◌, ◌+◌, ℕ, String, ◌≡◌, refl, arith, inl, inr, some, Bool-cases}
use cnpg_ha.Base.Exec.{Result, ok, Result-cases}
use cnpg_ha.Api.{Time}
use cnpg_ha.Platform.{Platform}
use cnpg_ha.Controller.Observation.{SiteObservation}
use cnpg_ha.Controller.Target.{Candidate}
use cnpg_ha.Controller.Effect.{PromotionEffect}
use cnpg_ha.Controller.State.{
  Reconciler, State, ha_key, set_failover_in_progress, set_status_condition, event, publish,
  reset_fail_count,
}
use cnpg_ha.Controller.Failover.{run_promotion}
use cnpg_ha.Controller.Manual.{record_failover, report_failure}
use cnpg_ha.Controller.Automatic.{
  announce_automatically, automatic_failure, conclude_automatically, promote_automatically,
  current_name, handle_automatic_failover,
}
use cnpg_ha.Controller.Automatic.Guards.{forgotten_self, counted, IsDue}
use cnpg_ha.Controller.Automatic.Machine.{ended, tried_seen, view_of}

module _ (p : Platform) (r : Reconciler p) (current : String) where
  -- The status, the counter and the effect after a success.
  abbrev pub Concluded : String → State p → PromotionEffect → Type 0
  Concluded target s effect =
      (s.ha.status.current_primary_site ≡ target)
      × (s.ha.status.last_failover_time ≡ some (p.now s.world))
      × (s.fail_count (ha_key s.ha) ≡ 0)
      × (effect ≡ record { demoted = current; promoted = target })

  abbrev Ends : String → PromotionEffect → Result PromotionEffect × State p → Type 0
  Ends target effect x = x.0 ≡ ok effect → Concluded target x.1 effect

  concluded :
      (target : String) (start : Time) (effect : PromotionEffect) (s : State p)
      → Ends target effect (conclude_automatically p r current target start s)
  unfolding conclude_automatically record_failover publish set_failover_in_progress
      set_status_condition event reset_fail_count
  concluded target start effect s = elim (Bool-cases r.has_recorder) [
    | inl b ↦ rw b (λ g. (refl, refl, forgotten_self (ha_key s.ha) s.fail_count, ground arith))
    | inr b ↦ rw b (λ g. (refl, refl, forgotten_self (ha_key s.ha) s.fail_count, ground arith))
  ]

  module _ (n : ℕ) (c : Candidate) (effect : PromotionEffect) (s : State p) where
    abbrev pub announced : State p
    announced = (announce_automatically p r current n c.site.name s).1

    -- An automatic promotion that succeeds has run the whole promotion sequence without an error. It
    -- leaves the target as the current primary of the status, with the time of the failover, and the
    -- failure counter at 0, and its effect demotes the failed primary and promotes the target.
    pub promoted_automatically :
        (promote_automatically p r current n (some c) s).0 ≡ ok effect
        → ((run_promotion p r current c.site announced).0 ≡ ok tt)
          × Concluded c.site.name (promote_automatically p r current n (some c) s).1 effect
    unfolding promote_automatically announce_automatically automatic_failure report_failure
        set_failover_in_progress set_status_condition event
    promoted_automatically = elim (Result-cases (run_promotion p r current c.site announced).0) [
      | inr (e, h) ↦ rw h (λ g. absurd (ground arith))
      | inl (x, h) ↦ rw h (λ g. (refl, concluded c.site.name _ effect _ g))
    ]

module _ (p : Platform) (r : Reconciler p) (primary_obs : SiteObservation)
    (replica_obs : List SiteObservation) (s : State p) (c : Candidate) where
  -- The promotion sequence that the failover runs, from its announcement on.
  abbrev pub sequence : Result (Unit {0}) × State p
  sequence =
      let failures = s.fail_count (ha_key s.ha) + 1 in
      let start = counted p r primary_obs replica_obs s in
      run_promotion p r (current_name s.ha) c.site
        (announce_automatically p r (current_name s.ha) failures c.site.name start).1

  -- The automatic failover promotes the candidate, and the sequence succeeds.
  abbrev pub IsPromoted : Type 0
  IsPromoted = IsDue p r primary_obs replica_obs s c × (sequence.0 ≡ ok tt)

  abbrev automatic : Result PromotionEffect × State p
  automatic = handle_automatic_failover p r primary_obs replica_obs s

  -- What the handler returns, and what it leaves of the primary, the failures and the last failover.
  pub auto_seen :
      IsPromoted
      → (automatic.0, view_of p automatic.1)
        ≡ ended
            (current_name s.ha)
            (record { target = c.site.name; outcome = ok tt; finished = p.now sequence.1.world })
            (ok tt)
            (view_of p s)
  auto_seen ((_, _, _, _, e), done) =
      ap (λ x. (x.0, view_of p x.1)) e
      ∙ tried_seen p r (current_name s.ha) _ c (counted p r primary_obs replica_obs s) (ok tt) done
