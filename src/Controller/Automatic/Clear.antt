-- ===== src/Controller/Automatic/Clear.antt =====
-- The guards of automatic failover, in terms of what is observed.
use cnpg_ha.Base.{
  ◌+◌, ◌≤◌, String, false, Option, none, some, List, [], ◌∷◌, ◌≡◌, subst, length, ◌⊎◌, inl, inr,
  arith,
}
use cnpg_ha.Api.{Time}
use cnpg_ha.Platform.{Platform}
use cnpg_ha.Controller.Observation.{SiteObservation, find_among, find_observation}
use cnpg_ha.Controller.Primary.{detect_split_brain, is_split}
use cnpg_ha.Controller.Primary.Verdicts.{writers, verdicts}
use cnpg_ha.Controller.Target.{Candidate}
use cnpg_ha.Controller.Timing.{stabilization_cooldown}
use cnpg_ha.Controller.State.{Reconciler, State}
use cnpg_ha.Controller.Automatic.{current_name, is_healthy, is_settling, is_suspended}
use cnpg_ha.Controller.Automatic.Guards.{IsIdle, IsDue, idle_or_IsDue}

-- The time is past the cooldown from the last failover, where there was one.
abbrev pub IsSettled : Option Time → Time → Time → Type 0
IsSettled none now cooldown = Unit {0}
IsSettled (some last) now cooldown = last + cooldown ≤ now

-- The site is not observed, or is one that does not answer, is no primary or is not ready.
abbrev pub IsUnhealthy : Option SiteObservation → Type 0
IsUnhealthy none = Unit {0}
IsUnhealthy (some o) = (o.reachable ≡ false) ⊎ (o.primary ≡ false) ⊎ (o.ready ≡ false)

settled_lem :
    (last : Option Time) (now c : Time) → is_settling last now c ≡ false → IsSettled last now c
settled_lem none now c h = tt
settled_lem (some last) now c h = ground arith

unhealthy_lem : (o : Option SiteObservation) → is_healthy o ≡ false → IsUnhealthy o
unhealthy_lem none h = tt
unhealthy_lem (some o) h = ground arith

module _ (p : Platform) (r : Reconciler p) (primary_obs : SiteObservation)
    (replica_obs : List SiteObservation) (s : State p) where
  -- Nothing stands against a failover: one site at most accepts writes, no cooldown is on, and the
  -- current primary, the first site observed under its name, is not healthy.
  pub record IsClear : Type 0 where
    pub single : writers (primary_obs ∷ replica_obs) ≤ 1
    pub settled :
        IsSettled s.ha.status.last_failover_time
          (p.now s.world)
          (stabilization_cooldown s.ha.spec.failover)
    pub unhealthy : IsUnhealthy (find_among (current_name s.ha) (primary_obs ∷ replica_obs))

  split_lem : (names : List String) → is_split names ≡ false → length names ≤ 1
  split_lem [] h = omega arith
  split_lem (a ∷ []) h = omega arith
  split_lem (a ∷ (b ∷ names)) h = absurd (ground arith)

  single_lem :
      is_split (detect_split_brain primary_obs replica_obs) ≡ false
      → writers (primary_obs ∷ replica_obs) ≤ 1
  single_lem h = elim (verdicts primary_obs replica_obs) [
    | inl (n, _, _) ↦ omega (arith, n)
    | inr (inl (n, _, _, _)) ↦ omega (arith, n)
    | inr (inr (n, _, e, l)) ↦
        omega (arith, l, split_lem (detect_split_brain primary_obs replica_obs) h)
  ]

  observation_lem :
      find_observation (current_name s.ha) primary_obs replica_obs
      ≡ find_among (current_name s.ha) (primary_obs ∷ replica_obs)
  unfolding find_observation find_among
  observation_lem = ground arith

  IsClear-of : is_suspended p r s.ha (p.now s.world) primary_obs replica_obs ≡ false → IsClear
  IsClear-of h =
      let split : is_split (detect_split_brain primary_obs replica_obs) ≡ false = ground arith in
      let settling : is_settling s.ha.status.last_failover_time (p.now s.world)
            (stabilization_cooldown s.ha.spec.failover)
          ≡ false =
        ground arith in
      let healthy : is_healthy (find_observation (current_name s.ha) primary_obs replica_obs)
          ≡ false =
        ground arith in
      record {
        single = single_lem split;
        settled = settled_lem s.ha.status.last_failover_time (p.now s.world) _ settling;
        unhealthy = subst IsUnhealthy observation_lem (unhealthy_lem _ healthy);
      }

  -- Automatic failover is idle: it promotes nothing and leaves the sites, the clients and the
  -- HACluster as they are. Or the mode is Automatic, one site at most accepts writes, no cooldown
  -- from the last failover is on, the current primary is not observed as reachable, primary and
  -- ready, the failures reach the threshold, and it goes on to promote the target that chooseTarget
  -- picks.
  pub automatic_guarded :
      IsIdle p r primary_obs replica_obs s
      ⊎ ((target : Candidate) × IsDue p r primary_obs replica_obs s target × IsClear)
  automatic_guarded = elim (idle_or_IsDue p r primary_obs replica_obs s) [
    | inl idle ↦ inl idle
    | inr (c, due) ↦ let (_, free, _, _, _) = due in inr (c, due, IsClear-of free)
  ]
