-- ===== src/Controller/Manual.antt =====
-- handlePromoteAnnotation: the manual failover that the promote annotation asks for.
pub mod Requests
pub mod Success
use cnpg_ha.Base.{
  ℕ, zero, suc, String, true, false, not, ◌||◌, Option, none, some, List, [], ◌∷◌, lookup, ◌==◌,
  if◌then◌else◌,
}
use cnpg_ha.Base.Int.{sub_ℕ}
use cnpg_ha.Base.Message.{Text, lit, Err, sprintf, wrapf, str, flag, message, error, end, arg}
use cnpg_ha.Base.Exec.{Result, ok, err, Exec, pure, fail, gets, wrap, catch, ◌>>=◌, ◌>>◌}
use cnpg_ha.Api.{ReplicaSite, Time, Float64, failover_mode_manual}
use cnpg_ha.Metrics.{observe_failover_duration, inc_failover}
use cnpg_ha.Platform.{Platform}
use cnpg_ha.Controller.Observation.{SiteObservation, unobserved, find_replica}
use cnpg_ha.Controller.Primary.{current_primary_for_promotion}
use cnpg_ha.Controller.Effect.{PromotionEffect, no_effect}
use cnpg_ha.Controller.State.{
  Reconciler, State, normal, warning, annotation_promote, event, publish, with_status,
  set_failover_in_progress, clear_promote_annotation,
}
use cnpg_ha.Controller.Failover.{run_promotion}

-- replicaObs[i]; Reconcile makes one observation for each replica, so the index is in range.
abbrev pub obs_at : List SiteObservation → ℕ → SiteObservation
obs_at [] i = unobserved "" (lit "")
obs_at (o ∷ os) zero = o
obs_at (o ∷ os) (suc i) = obs_at os i

-- time.Since(start).Seconds(), of two readings of the clock.
abbrev pub duration_since : (p : Platform) → Time → Time → Float64
duration_since p start now = p.duration_seconds (sub_ℕ now start)

module _ (p : Platform) (r : Reconciler p) where
  -- The status and the condition after a promotion.
  unfoldable pub record_failover : String → Exec (State p) (Unit {0})
  record_failover target s = set_failover_in_progress p r false "" (
      with_status p r
        (record s.ha.status {
          current_primary_site = target;
          last_failover_time = some (p.now s.world);
        })
        s)

  -- What both kinds of failover do when the promotion fails.
  unfoldable pub report_failure : Text → Err → Exec (State p) (Unit {0})
  report_failure msg e = do
    event p r warning "FailoverFailed" msg
    set_failover_in_progress p r false ""
    fail e

  unfoldable pub reject : Text → Exec (State p) PromotionEffect
  reject msg = do
    event p r warning "PromoteRejected" msg
    clear_promote_annotation p r
    pure no_effect

  -- From the success of the promotion on.
  unfoldable pub conclude_manually :
      String → String → SiteObservation → Time → Exec (State p) PromotionEffect
  unfolding record_failover
  conclude_manually target old_primary_name target_obs start = do
    ha ← gets (λ s. s.ha)
    now ← gets (λ s. p.now s.world)
    publish p r
        (observe_failover_duration ha.namespace ha.name "manual" (duration_since p start now))
    wrap "clear promote annotation: %w" end (clear_promote_annotation p r)
    record_failover target
    event p r normal "FailoverCompleted" (sprintf "site %q is now primary" (arg (str target) end))
    ha' ← gets (λ s. s.ha)
    publish p r (inc_failover ha'.namespace ha'.name "manual")
    pure (record { demoted = old_primary_name; promoted = target_obs.name })

  -- From the announcement of the promotion on.
  unfoldable pub announce_manually : String → Exec (State p) (Unit {0})
  announce_manually target = do
    event p r normal "FailoverStarted"
        (sprintf "promoting site %q to primary (manual)" (arg (str target) end))
    set_failover_in_progress p r true target

  unfoldable pub manual_failure : String → Err → Exec (State p) (Unit {0})
  unfolding report_failure
  manual_failure target e =
      report_failure (sprintf "promotion of %q failed: %v" (arg (str target) (arg (error e) end)))
        (wrapf "manual promotion to %q: %w" (arg (str target) end) e)

  unfoldable pub promote_manually :
      String → ReplicaSite → String → SiteObservation → Exec (State p) PromotionEffect
  unfolding announce_manually manual_failure conclude_manually
  promote_manually target rep old_primary_name target_obs = do
    announce_manually target
    start ← gets (λ s. p.now s.world)
    catch (run_promotion p r old_primary_name rep) (manual_failure target)
    conclude_manually target old_primary_name target_obs start

  -- From the choice of the primary to demote on.
  unfoldable pub promote_from :
      String → ReplicaSite → SiteObservation → Result String → Exec (State p) PromotionEffect
  unfolding reject promote_manually
  promote_from target rep target_obs (err e) = reject (
      sprintf "annotation %s=%q rejected: %v"
        (arg (str annotation_promote) (arg (str target) (arg (error e) end))))
  promote_from target rep target_obs (ok old_primary_name) =
      promote_manually target rep old_primary_name target_obs

  unfoldable pub promote_replica :
      String
      → SiteObservation
      → List SiteObservation
      → Option (ReplicaSite × ℕ)
      → Exec (State p) PromotionEffect
  unfolding promote_from
  promote_replica target primary_obs replica_obs none = reject (
      sprintf "annotation %s=%q rejected: no replica with that name"
        (arg (str annotation_promote) (arg (str target) end)))
  promote_replica target primary_obs replica_obs (some (rep, idx)) = do
    let target_obs = obs_at replica_obs idx
    ha ← gets (λ s. s.ha)
    if not target_obs.reachable || (not target_obs.ready || target_obs.primary)
        then reject (
            sprintf
              "annotation %s=%q rejected: target not a healthy replica (reachable=%v ready=%v primary=%v reason=%q)"
              (arg (str annotation_promote) (
                arg (str target) (
                  arg (flag target_obs.reachable) (
                    arg (flag target_obs.ready)
                      (arg (flag target_obs.primary) (arg (message target_obs.reason) end)))))))
        else promote_from target rep target_obs
            (current_primary_for_promotion ha primary_obs replica_obs)

  unfoldable pub handle_annotation :
      SiteObservation → List SiteObservation → Option String → Exec (State p) PromotionEffect
  unfolding promote_replica
  handle_annotation primary_obs replica_obs none = pure no_effect
  handle_annotation primary_obs replica_obs (some target) = do
    ha ← gets (λ s. s.ha)
    if not (ha.spec.failover.mode == failover_mode_manual)
        then reject (
            sprintf "annotation %s rejected: spec.failover.mode is %q, must be Manual"
              (arg (str annotation_promote) (arg (str ha.spec.failover.mode) end)))
        else promote_replica target primary_obs replica_obs (find_replica ha target)

  unfoldable pub handle_promote_annotation :
      SiteObservation → List SiteObservation → Exec (State p) PromotionEffect
  unfolding handle_annotation
  handle_promote_annotation primary_obs replica_obs s =
      handle_annotation primary_obs replica_obs (lookup annotation_promote s.ha.annotations) s
