-- ===== src/Controller/Automatic/Guards.antt =====
-- When automatic failover acts, and what it leaves alone when it does not.
use cnpg_ha.Base.{
  ap, ◌∙◌, ℕ, ◌+◌, ◌≤◌, ◌<◌, String, true, false, none, some, List, ◌≡◌, refl, sym, ◌⊎◌, inl, inr,
  arith, Bool-cases, Option-cases, text-cases, eq_iff, subst, ltb, eq_refl, ◌==◌,
}
use cnpg_ha.Base.Message.{Text}
use cnpg_ha.Base.Exec.{Result, ok, pure, ◌>>◌}
use cnpg_ha.Api.{failover_mode_automatic}
use cnpg_ha.Platform.{Platform, Ref}
use cnpg_ha.Controller.Observation.{SiteObservation}
use cnpg_ha.Controller.Target.{Candidate, choose_target}
use cnpg_ha.Controller.Timing.{effective_failure_threshold}
use cnpg_ha.Controller.Effect.{PromotionEffect, no_effect}
use cnpg_ha.Controller.State.{
  Reconciler, EventType, State, ha_key, event, bumped, forgotten, FailCount, same_ref,
  bump_fail_count, reset_fail_count,
}
use cnpg_ha.Controller.Automatic.{
  current_name, is_suspended, promote_automatically, count_failure, handle_automatic_failover,
}

same_ref_self : (key : Ref) → same_ref key key ≡ true
same_ref_self key = rw (eq_refl key.namespace, eq_refl key.name) refl

pub bumped_self : (key : Ref) (count : FailCount) → bumped key count key ≡ count key + 1
unfolding bumped
bumped_self key count = rw (same_ref_self key) refl

pub forgotten_self : (key : Ref) (count : FailCount) → forgotten key count key ≡ 0
unfolding forgotten
forgotten_self key count = rw (same_ref_self key) refl

module _ (p : Platform) (r : Reconciler p) (primary_obs : SiteObservation)
    (replica_obs : List SiteObservation) (s : State p) where
  abbrev run : Result PromotionEffect × State p
  run = handle_automatic_failover p r primary_obs replica_obs s

  abbrev count_now : ℕ
  count_now = s.fail_count (ha_key s.ha)

  -- Nothing was promoted, the world, the cache and the HACluster are as before, and the counter
  -- grew by one at most.
  abbrev pub Idle : Result PromotionEffect × State p → Type 0
  Idle (x, s') =
      (x ≡ ok no_effect)
      × (s'.world ≡ s.world)
      × (s'.cache ≡ s.cache)
      × (s'.ha ≡ s.ha)
      × (s'.fail_count (ha_key s.ha) ≤ count_now + 1)

  abbrev pub IsIdle : Type 0
  IsIdle = Idle run

  -- The state with this failure counted.
  abbrev pub counted : State p
  counted = record s { fail_count = bumped (ha_key s.ha) s.fail_count }

  -- The mode is Automatic, no guard suspends the failover, this failure reaches the threshold, the
  -- target is the one that chooseTarget picks, and the handler goes on to promote it.
  abbrev pub IsDue : Candidate → Type 0
  IsDue target =
      (s.ha.spec.failover.mode ≡ failover_mode_automatic)
      × (is_suspended p r s.ha (p.now s.world) primary_obs replica_obs ≡ false)
      × (effective_failure_threshold s.ha.spec.failover ≤ count_now + 1)
      × (choose_target s.ha replica_obs (current_name s.ha) ≡ some target)
      × (run ≡ promote_automatically p r (current_name s.ha) (count_now + 1) (some target) counted)

  other_mode : (s.ha.spec.failover.mode == failover_mode_automatic) ≡ false → IsIdle
  unfolding handle_automatic_failover
  other_mode h = ground arith

  suspended :
      (s.ha.spec.failover.mode == failover_mode_automatic) ≡ true
      → is_suspended p r s.ha (p.now s.world) primary_obs replica_obs ≡ true
      → IsIdle
  unfolding handle_automatic_failover reset_fail_count forgotten
  suspended h g =
      rw (h, g) (refl, refl, refl, refl, omega (arith, forgotten_self (ha_key s.ha) s.fail_count))

  abbrev failures : ℕ
  failures = bumped (ha_key s.ha) s.fail_count (ha_key s.ha)

  failures_lem : failures ≡ count_now + 1
  failures_lem = bumped_self (ha_key s.ha) s.fail_count

  -- The failure is counted, and at most one event is published.
  counted-Idle :
      (kind : EventType) (reason : String) (message : Text)
      → Idle ((event p r kind reason message >> pure no_effect) counted)
  unfolding event
  counted-Idle kind reason message = elim (Bool-cases r.has_recorder) [
    | inl h ↦ rw h (refl, refl, refl, refl, omega (arith, failures_lem))
    | inr h ↦ rw h (refl, refl, refl, refl, omega (arith, failures_lem))
  ]

  below :
      ltb failures (effective_failure_threshold s.ha.spec.failover) ≡ true
      → Idle (count_failure p r (current_name s.ha) replica_obs s)
  unfolding count_failure bump_fail_count
  below h = rw h (counted-Idle _ _ _)

  none_left :
      ltb failures (effective_failure_threshold s.ha.spec.failover) ≡ false
      → choose_target s.ha replica_obs (current_name s.ha) ≡ none
      → Idle (count_failure p r (current_name s.ha) replica_obs s)
  unfolding count_failure bump_fail_count promote_automatically
  none_left h n = rw (h, n) (counted-Idle _ _ _)

  due :
      (c : Candidate)
      → ltb failures (effective_failure_threshold s.ha.spec.failover) ≡ false
      → choose_target s.ha replica_obs (current_name s.ha) ≡ some c
      → count_failure p r (current_name s.ha) replica_obs s
        ≡ promote_automatically p r (current_name s.ha) (count_now + 1) (some c) counted
  unfolding count_failure bump_fail_count
  due c h e =
      rw (h, e)
        (ap (λ n. promote_automatically p r (current_name s.ha) n (some c) counted) failures_lem)

  failed_lem :
      (s.ha.spec.failover.mode == failover_mode_automatic) ≡ true
      → is_suspended p r s.ha (p.now s.world) primary_obs replica_obs ≡ false
      → run ≡ count_failure p r (current_name s.ha) replica_obs s
  unfolding handle_automatic_failover
  failed_lem h g = rw (h, g) refl

  below_count :
      ltb failures (effective_failure_threshold s.ha.spec.failover) ≡ true
      → (count_failure p r (current_name s.ha) replica_obs s).1.fail_count (ha_key s.ha) ≡ failures
  unfolding count_failure bump_fail_count event
  below_count h = elim (Bool-cases r.has_recorder) [
    | inl b ↦ rw (h, b) refl
    | inr b ↦ rw (h, b) refl
  ]

  -- A failure below the threshold is counted.
  pub count_below :
      s.ha.spec.failover.mode ≡ failover_mode_automatic
      → is_suspended p r s.ha (p.now s.world) primary_obs replica_obs ≡ false
      → count_now + 1 < effective_failure_threshold s.ha.spec.failover
      → run.1.fail_count (ha_key s.ha) ≡ count_now + 1
  count_below m g t =
      ap (λ x. x.1.fail_count (ha_key s.ha)) (failed_lem ((eq_iff _ _).1 m) g)
      ∙ below_count (ground (arith, failures_lem))
      ∙ failures_lem

  -- The failover is due where the failures reach the threshold and there is a target.
  pub IsDue-at :
      (c : Candidate)
      → s.ha.spec.failover.mode ≡ failover_mode_automatic
      → is_suspended p r s.ha (p.now s.world) primary_obs replica_obs ≡ false
      → effective_failure_threshold s.ha.spec.failover ≤ count_now + 1
      → choose_target s.ha replica_obs (current_name s.ha) ≡ some c
      → IsDue c
  IsDue-at c m g t e =
      (m, g, t, e, failed_lem ((eq_iff _ _).1 m) g ∙ due c (ground (arith, failures_lem)) e)

  unsuspended :
      s.ha.spec.failover.mode ≡ failover_mode_automatic
      → is_suspended p r s.ha (p.now s.world) primary_obs replica_obs ≡ false
      → IsIdle ⊎ ((target : Candidate) × IsDue target)
  unsuspended m g =
      let idle : Idle (count_failure p r (current_name s.ha) replica_obs s)
          → IsIdle ⊎ ((target : Candidate) × IsDue target) =
        λ i. inl (subst Idle (sym (failed_lem ((eq_iff _ _).1 m) g)) i) in
      elim (Bool-cases (ltb failures (effective_failure_threshold s.ha.spec.failover))) [
        | inl b ↦ idle (below b)
        | inr b ↦ elim (Option-cases (choose_target s.ha replica_obs (current_name s.ha))) [
          | inl n ↦ idle (none_left b n)
          | inr (c, e) ↦ inr (c, IsDue-at c m g (ground (arith, failures_lem)) e)
        ]
      ]

  -- Automatic failover is idle, or it is due.
  pub idle_or_IsDue : IsIdle ⊎ ((target : Candidate) × IsDue target)
  idle_or_IsDue = elim (text-cases s.ha.spec.failover.mode failover_mode_automatic) [
    | inr m ↦ inl (other_mode m)
    | inl m ↦ elim (Bool-cases (is_suspended p r s.ha (p.now s.world) primary_obs replica_obs)) [
      | inl g ↦ inl (suspended ((eq_iff _ _).1 m) g)
      | inr g ↦ unsuspended m g
    ]
  ]
