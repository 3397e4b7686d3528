-- ===== src/Controller/Automatic/Machine/Refinement.antt =====
-- Automatic failover implements its abstract machine.
use cnpg_ha.Base.{
  ℕ, ◌+◌, true, false, List, ltb, ◌==◌, if◌then◌else◌, ◌≡◌, refl, sym, ap, ◌∙◌, subst, inl, inr,
  Bool-cases,
}
use cnpg_ha.Base.Exec.{ok}
use cnpg_ha.Api.{failover_mode_automatic}
use cnpg_ha.Platform.{Platform}
use cnpg_ha.Controller.Observation.{SiteObservation}
use cnpg_ha.Controller.Target.{choose_target}
use cnpg_ha.Controller.Timing.{effective_failure_threshold}
use cnpg_ha.Controller.Effect.{no_effect}
use cnpg_ha.Controller.State.{
  Reconciler, State, ha_key, bumped, event, bump_fail_count, reset_fail_count,
}
use cnpg_ha.Controller.Automatic.{
  current_name, is_suspended, promote_automatically, count_failure, handle_automatic_failover,
}
use cnpg_ha.Controller.Automatic.Guards.{counted, bumped_self, forgotten_self}
use cnpg_ha.Controller.Automatic.Machine.{
  Finding, View, turn, tried, view_of, seen, trial_of, promote_seen,
}

module _ (p : Platform) (r : Reconciler p) (primary_obs : SiteObservation)
    (replica_obs : List SiteObservation) (s : State p) where
  abbrev counted_view : View
  counted_view = record (view_of p s) { failures = s.fail_count (ha_key s.ha) + 1 }

  counted_lem : view_of p (counted p r primary_obs replica_obs s) ≡ counted_view
  counted_lem =
      ap (λ n. record (view_of p s) { failures = n }) (bumped_self (ha_key s.ha) s.fail_count)

  -- What the reconcile finds: the mode, the guards, the threshold, and the trial that it would make
  -- of the target that chooseTarget picks.
  abbrev pub finding : Finding
  finding = record {
    automatic = s.ha.spec.failover.mode == failover_mode_automatic;
    suspended = is_suspended p r s.ha (p.now s.world) primary_obs replica_obs;
    threshold = effective_failure_threshold s.ha.spec.failover;
    current = current_name s.ha;
    trial =
        trial_of p r (current_name s.ha) (s.fail_count (ha_key s.ha) + 1)
          (counted p r primary_obs replica_obs s)
          (choose_target s.ha replica_obs (current_name s.ha));
  }

  abbrev failures : ℕ
  failures = bumped (ha_key s.ha) s.fail_count (ha_key s.ha)

  abbrev after : State p
  after = counted p r primary_obs replica_obs s

  pending_seen :
      ltb failures finding.threshold ≡ true
      → seen p r (count_failure p r (current_name s.ha) replica_obs s)
        ≡ (ok no_effect, view_of p after)
  unfolding count_failure bump_fail_count event
  pending_seen h = elim (Bool-cases r.has_recorder) [
    | inl b ↦ rw (h, b) refl
    | inr b ↦ rw (h, b) refl
  ]

  due_seen :
      ltb failures finding.threshold ≡ false
      → seen p r (count_failure p r (current_name s.ha) replica_obs s)
        ≡ seen p r (
            promote_automatically p r
              (current_name s.ha)
              failures
              (choose_target s.ha replica_obs (current_name s.ha))
              after)
  unfolding count_failure bump_fail_count
  due_seen h = rw h refl

  count_seen : seen p r (count_failure p r (current_name s.ha) replica_obs s) ≡ (
      if ltb (s.fail_count (ha_key s.ha) + 1) finding.threshold
      then (ok no_effect, counted_view)
      else tried finding.current finding.trial counted_view)
  count_seen =
      let one = bumped_self (ha_key s.ha) s.fail_count in
      let target = choose_target s.ha replica_obs (current_name s.ha) in
      elim (Bool-cases (ltb failures finding.threshold)) [
        | inl h ↦ rw (sym one, h) (pending_seen h)
        | inr h ↦ rw (subst (λ n. ltb n finding.threshold ≡ false) one h) (
            due_seen h
            ∙ ap (λ n. seen p r (promote_automatically p r (current_name s.ha) n target after)) one
            ∙ promote_seen p r (current_name s.ha) _ after target
            ∙ ap (tried finding.current finding.trial) counted_lem)
      ]

  -- The handler implements the machine: what it returns, and the primary, the failures and the last
  -- failover that it leaves, are those of the machine's turn from what it finds.
  pub automatic_refines :
      let (x, s') = handle_automatic_failover p r primary_obs replica_obs s in
      (x, view_of p s') ≡ turn finding (view_of p s)
  unfolding handle_automatic_failover reset_fail_count
  automatic_refines = elim (Bool-cases (s.ha.spec.failover.mode == failover_mode_automatic)) [
    | inr m ↦ rw m refl
    | inl m ↦ elim (Bool-cases (is_suspended p r s.ha (p.now s.world) primary_obs replica_obs)) [
      | inl g ↦ rw (m, g, forgotten_self (ha_key s.ha) s.fail_count) refl
      | inr g ↦ rw (m, g) count_seen
    ]
  ]
