-- ===== src/Controller/Automatic.antt =====
-- handleAutomaticFailover: the failover after sustained failures of the current primary.
pub mod Guards
pub mod Patience
pub mod Success
pub mod Machine
pub mod Progress
pub mod Cooldown
pub mod Clear
use cnpg_ha.Base.{
  ℕ, ◌+◌, String, Bool, true, false, not, ◌&&◌, Option, none, some, List, ltb, ◌==◌, if◌then◌else◌,
}
use cnpg_ha.Base.Message.{Err, sprintf, wrapf, str, nat, error, end, arg}
use cnpg_ha.Base.Exec.{Exec, pure, gets, catch, ◌>>=◌, ◌>>◌}
use cnpg_ha.Api.{HaCluster, Time, failover_mode_automatic}
use cnpg_ha.Metrics.{observe_failover_duration, inc_failover}
use cnpg_ha.Platform.{Platform}
use cnpg_ha.Controller.Observation.{SiteObservation, find_observation}
use cnpg_ha.Controller.Primary.{detect_split_brain, is_split}
use cnpg_ha.Controller.Target.{Candidate, choose_target}
use cnpg_ha.Controller.Timing.{effective_failure_threshold, stabilization_cooldown}
use cnpg_ha.Controller.Effect.{PromotionEffect, no_effect}
use cnpg_ha.Controller.State.{
  Reconciler, State, normal, warning, ha_key, event, publish, bump_fail_count, reset_fail_count,
  set_failover_in_progress,
}
use cnpg_ha.Controller.Failover.{run_promotion}
use cnpg_ha.Controller.Manual.{duration_since, record_failover, report_failure}

-- status.currentPrimarySite, or the declared primary where it is not set.
abbrev pub current_name : HaCluster → String
current_name ha =
    if ha.status.current_primary_site == ""
    then ha.spec.primary.name
    else ha.status.current_primary_site

abbrev pub is_healthy : Option SiteObservation → Bool
is_healthy none = false
is_healthy (some cur) = cur.reachable && (cur.primary && cur.ready)

-- now - lastFailover < cooldown, where the difference may be negative.
abbrev pub is_settling : Option Time → Time → ℕ → Bool
is_settling none now cooldown = false
is_settling (some last) now cooldown = ltb now (last + cooldown)

module _ (p : Platform) (r : Reconciler p) where
  -- From the announcement of the promotion on, with the failures n.
  unfoldable pub announce_automatically : String → ℕ → String → Exec (State p) (Unit {0})
  announce_automatically cur_name n target = do
    ha ← gets (λ s. s.ha)
    event p r normal "FailoverStarted" (
        sprintf "promoting site %q to primary (automatic, primary %q unhealthy %d/%d)" (
          arg (str target) (
            arg (str cur_name)
              (arg (nat n) (arg (nat (effective_failure_threshold ha.spec.failover)) end)))))
    set_failover_in_progress p r true target

  unfoldable pub automatic_failure : String → Err → Exec (State p) (Unit {0})
  unfolding report_failure
  automatic_failure target e =
      report_failure p r
        (sprintf "automatic promotion of %q failed: %v" (arg (str target) (arg (error e) end)))
        (wrapf "automatic failover to %q: %w" (arg (str target) end) e)

  -- From the success of the promotion on.
  unfoldable pub conclude_automatically : String → String → Time → Exec (State p) PromotionEffect
  unfolding record_failover
  conclude_automatically cur_name target start = do
    ha ← gets (λ s. s.ha)
    now ← gets (λ s. p.now s.world)
    publish p r
        (observe_failover_duration ha.namespace ha.name "automatic" (duration_since p start now))
    record_failover p r target
    event p r normal "FailoverCompleted"
        (sprintf "site %q is now primary (automatic)" (arg (str target) end))
    publish p r (inc_failover ha.namespace ha.name "automatic")
    reset_fail_count p r (ha_key ha)
    pure (record { demoted = cur_name; promoted = target })

  unfoldable pub promote_automatically :
      String → ℕ → Option Candidate → Exec (State p) PromotionEffect
  unfolding announce_automatically automatic_failure conclude_automatically
  promote_automatically cur_name n none = do
    event p r warning "AutoFailoverNoCandidate" (
        sprintf "primary %q down but no healthy replica to promote — staying unavailable"
          (arg (str cur_name) end))
    pure no_effect
  promote_automatically cur_name n (some target) = do
    announce_automatically cur_name n target.site.name
    start ← gets (λ s. p.now s.world)
    catch (run_promotion p r cur_name target.site) (automatic_failure target.site.name)
    conclude_automatically cur_name target.site.name start

  -- The counter of an unhealthy primary, against the threshold.
  unfoldable pub count_failure : String → List SiteObservation → Exec (State p) PromotionEffect
  unfolding promote_automatically
  count_failure cur_name replica_obs = do
    ha ← gets (λ s. s.ha)
    n ← bump_fail_count p r (ha_key ha)
    if ltb n (effective_failure_threshold ha.spec.failover)
        then (do
          event p r warning "PrimaryUnhealthy" (
              sprintf "primary %q unhealthy (%d/%d) — automatic failover pending" (
                arg (str cur_name)
                  (arg (nat n) (arg (nat (effective_failure_threshold ha.spec.failover)) end))))
          pure no_effect)
        else promote_automatically cur_name n (choose_target ha replica_obs cur_name)

  -- The guards that suspend automatic failover and reset the counter.
  abbrev pub is_suspended : HaCluster → Time → SiteObservation → List SiteObservation → Bool
  is_suspended ha now primary_obs replica_obs =
      if is_split (detect_split_brain primary_obs replica_obs)
      then true
      else if is_settling ha.status.last_failover_time now (stabilization_cooldown ha.spec.failover)
      then true
      else is_healthy (find_observation (current_name ha) primary_obs replica_obs)

  unfoldable pub handle_automatic_failover :
      SiteObservation → List SiteObservation → Exec (State p) PromotionEffect
  unfolding count_failure
  handle_automatic_failover primary_obs replica_obs = do
    ha ← gets (λ s. s.ha)
    now ← gets (λ s. p.now s.world)
    if not (ha.spec.failover.mode == failover_mode_automatic)
        then pure no_effect
        else if is_suspended ha now primary_obs replica_obs
        then (do reset_fail_count p r (ha_key ha); pure no_effect)
        else count_failure (current_name ha) replica_obs
