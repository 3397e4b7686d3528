-- ===== src/Controller/Automatic/Patience.antt =====
-- The failure counter over several reconciles.
use cnpg_ha.Base.{ℕ, ◌+◌, ◌≤◌, ◌<◌, List, [], ◌∷◌, length, All, ◌≡◌, inl, inr, subst, arith}
use cnpg_ha.Api.{HaCluster}
use cnpg_ha.Platform.{Platform, Ref}
use cnpg_ha.Controller.Observation.{SiteObservation}
use cnpg_ha.Controller.Timing.{effective_failure_threshold}
use cnpg_ha.Controller.State.{Reconciler, State, ha_key}
use cnpg_ha.Controller.Automatic.{handle_automatic_failover}
use cnpg_ha.Controller.Automatic.Guards.{IsIdle, idle_or_IsDue}

module _ (p : Platform) (r : Reconciler p) where
  -- What one reconcile starts from: the world, the HACluster and the observations.
  pub record Sight : Type 0 where
    pub world : p.World
    pub ha : HaCluster
    pub primary_obs : SiteObservation
    pub replica_obs : List SiteObservation

  abbrev pub see : Sight → State p → State p
  see x s = record s { world = x.world; ha = x.ha }

  -- Automatic failover is idle at every sight, one after the other.
  abbrev pub AllIdle : List Sight → State p → Type 0
  AllIdle [] s = Unit {0}
  AllIdle (x ∷ xs) s =
      IsIdle p r x.primary_obs x.replica_obs (see x s)
      × AllIdle xs (handle_automatic_failover p r x.primary_obs x.replica_obs (see x s)).1

  -- The sight is of the HACluster with the key, and its threshold is greater.
  abbrev pub IsBelow : Ref → ℕ → Sight → Type 0
  IsBelow key n x = (ha_key x.ha ≡ key) × (n < effective_failure_threshold x.ha.spec.failover)

  patient_within :
      (key : Ref) (n : ℕ) (xs : List Sight) (s : State p)
      → s.fail_count key + length xs ≤ n
      → All (IsBelow key n) xs
      → AllIdle xs s
  patient_within key n [] s h below = tt
  patient_within key n (x ∷ xs) s h ((at, b), below) =
      elim (idle_or_IsDue p r x.primary_obs x.replica_obs (see x s)) [
        | inl (res, same, cached, kept, count) ↦
            let next = (handle_automatic_failover p r x.primary_obs x.replica_obs (see x s)).1 in
            let grown : next.fail_count key ≤ s.fail_count key + 1 =
              subst (λ k. next.fail_count k ≤ s.fail_count k + 1) at count in
            (
              (res, same, cached, kept, count),
              patient_within key n xs next (omega (arith, grown, h)) below,
            )
        | inr (c, (_, _, due, _, _)) ↦
            let reached : effective_failure_threshold x.ha.spec.failover ≤ s.fail_count key + 1 =
              subst (λ k. effective_failure_threshold x.ha.spec.failover ≤ s.fail_count k + 1) at
                due in
            absurd (omega (arith, reached, b, h))
      ]

  -- As long as the failures that were counted before, and the reconciles since, are together fewer
  -- than the failure threshold, automatic failover does nothing at any site, whatever it observes.
  pub automatic_patient :
      (key : Ref) (xs : List Sight) (s : State p)
      → All (IsBelow key (s.fail_count key + length xs)) xs
      → AllIdle xs s
  automatic_patient key xs s below = patient_within key _ xs s (omega arith) below
