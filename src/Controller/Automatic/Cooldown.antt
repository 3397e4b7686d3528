-- ===== src/Controller/Automatic/Cooldown.antt =====
-- The stabilization cooldown after an automatic failover.
use cnpg_ha.Base.{
  ◌+◌, ◌<◌, true, some, List, [], ◌∷◌, ◌++◌, length, All, ltb, ◌==◌, ◌≡◌, refl, ap, subst, inl, inr,
  arith, Bool-cases,
}
use cnpg_ha.Api.{Time, failover_mode_automatic}
use cnpg_ha.Platform.{Platform, Ref}
use cnpg_ha.Controller.Observation.{SiteObservation}
use cnpg_ha.Controller.Primary.{detect_split_brain, is_split}
use cnpg_ha.Controller.Target.{Candidate}
use cnpg_ha.Controller.Timing.{stabilization_cooldown}
use cnpg_ha.Controller.State.{Reconciler, State, ha_key, reset_fail_count, forgotten}
use cnpg_ha.Controller.Automatic.{is_suspended, handle_automatic_failover}
use cnpg_ha.Controller.Automatic.Guards.{IsIdle, idle_or_IsDue, forgotten_self}
use cnpg_ha.Controller.Automatic.Patience.{Sight, see, AllIdle, IsBelow, automatic_patient}
use cnpg_ha.Controller.Automatic.Success.{sequence, IsPromoted, auto_seen}

module _ (p : Platform) (r : Reconciler p) where
  -- The sight is of the HACluster with the key, within the cooldown from the time of the failover
  -- that its status has.
  abbrev pub IsSettling : Ref → Time → Sight p r → Type 0
  IsSettling key time x =
      (ha_key x.ha ≡ key)
      × (x.ha.status.last_failover_time ≡ some time)
      × (p.now x.world < time + stabilization_cooldown x.ha.spec.failover)

  module _ (key : Ref) (time : Time) (x : Sight p r) (s : State p)
      (settling : IsSettling key time x) where
    abbrev seen_state : State p
    seen_state = see p r x s

    within : ltb (p.now x.world) (time + stabilization_cooldown x.ha.spec.failover) ≡ true
    within = let (_, _, soon) = settling in ground arith

    suspended_lem : is_suspended p r x.ha (p.now x.world) x.primary_obs x.replica_obs ≡ true
    suspended_lem = elim (Bool-cases (is_split (detect_split_brain x.primary_obs x.replica_obs))) [
      | inl h ↦ rw h refl
      | inr h ↦ rw (h, settling.1, within) refl
    ]

    idle_lem : IsIdle p r x.primary_obs x.replica_obs seen_state
    idle_lem = elim (idle_or_IsDue p r x.primary_obs x.replica_obs seen_state) [
      | inl idle ↦ idle
      | inr (c, (_, free, _, _, _)) ↦ absurd (ground (arith, suspended_lem, free))
    ]

    -- The counter stays at 0.
    none_counted :
        s.fail_count key ≡ 0
        → (handle_automatic_failover p r x.primary_obs x.replica_obs seen_state).1.fail_count key
          ≡ 0
    unfolding handle_automatic_failover reset_fail_count
    none_counted h = elim (Bool-cases (x.ha.spec.failover.mode == failover_mode_automatic)) [
      | inr m ↦ rw m h
      | inl m ↦
          rw (m, suspended_lem)
            (subst (λ k. forgotten (ha_key x.ha) s.fail_count k ≡ 0) settling.0
              (forgotten_self (ha_key x.ha) s.fail_count))
    ]

  -- The cooldown, then fewer failures than the threshold.
  settled_then :
      (key : Ref) (time : Time) (xs ys : List (Sight p r)) (s : State p)
      → s.fail_count key ≡ 0
      → All (IsSettling key time) xs
      → All (IsBelow p r key (length ys)) ys
      → AllIdle p r (xs ++ ys) s
  settled_then key time [] ys s none settling below =
      let e : length ys ≡ s.fail_count key + length ys = omega (arith, none) in
      automatic_patient p r key ys s (subst (λ n. All (IsBelow p r key n) ys) e below)
  settled_then key time (x ∷ xs) ys s none (now_settling, settling) below = (
    idle_lem key time x s now_settling,
    settled_then key time xs ys _ (none_counted key time x s now_settling none) settling below,
  )

module _ (p : Platform) (r : Reconciler p) (primary_obs : SiteObservation)
    (replica_obs : List SiteObservation) (s : State p) (c : Candidate) where
  -- After an automatic failover that succeeds, automatic failover does nothing at any site as long
  -- as the reconciles of that HACluster, with the time of that failover in its status, are within
  -- the cooldown from it, nor in the reconciles after these until they reach the failure threshold,
  -- whatever it observes.
  pub automatic_settles :
      IsPromoted p r primary_obs replica_obs s c
      → (xs ys : List (Sight p r))
      → let t = (handle_automatic_failover p r primary_obs replica_obs s).1 in
        let finished = p.now (sequence p r primary_obs replica_obs s c).1.world in
        All (IsSettling p r (ha_key t.ha) finished) xs
        → All (IsBelow p r (ha_key t.ha) (length ys)) ys
        → AllIdle p r (xs ++ ys) t
  automatic_settles done xs ys settling below =
      settled_then p r _ _ xs ys _
        (ap (λ x. x.1.failures) (auto_seen p r primary_obs replica_obs s c done)) settling below
