-- ===== src/Controller/Reconcile.antt =====
-- Reconcile: one run of the control loop.
pub mod Report
pub mod Writing
pub mod Described
pub mod Promoted
use cnpg_ha.Base.{ℕ, String, List, ◌==◌, if◌then◌else◌}
use cnpg_ha.Base.Message.{wrapf, end, is_not_found}
use cnpg_ha.Base.Exec.{Result, ok, err, Exec, pure, fail, gets, attempt, modify, ◌>>=◌, ◌>>◌}
use cnpg_ha.Api.{HaCluster, FailoverSpec, failover_mode_automatic}
use cnpg_ha.Metrics.{Call}
use cnpg_ha.Platform.{Platform, Ref}
use cnpg_ha.Remote.{Cache}
use cnpg_ha.Controller.Observation.{SiteObservation}
use cnpg_ha.Controller.Primary.{decide_current_primary, detect_split_brain, is_split}
use cnpg_ha.Controller.Timing.{requeue_period, effective_health_interval}
use cnpg_ha.Controller.Effect.{
  PromotionEffect, no_effect, did_promote, Observations, apply_promotion_effect,
}
use cnpg_ha.Controller.State.{FailCount, Event, Reconciler, State, with_status, publish}
use cnpg_ha.Controller.Observe.{observe_primary, observe_replicas}
use cnpg_ha.Controller.Manual.{handle_promote_annotation}
use cnpg_ha.Controller.Automatic.{handle_automatic_failover}
use cnpg_ha.Controller.Topology.{reconcile_replica_topology}
use cnpg_ha.Controller.Status.{build_site_statuses, set_conditions, publish_metrics}

-- A name, or the prior one where it is empty.
abbrev pub or_prior : String → String → String
or_prior name prior = if name == "" then prior else name

unfoldable pub requeue_after : FailoverSpec → ℕ
unfolding effective_health_interval
requeue_after f =
    if f.mode == failover_mode_automatic then effective_health_interval f else requeue_period

-- The effect and the error after automatic failover: an effect of its own replaces the manual
-- one, and so does its error.
abbrev pub merged : PromotionEffect → Result PromotionEffect → PromotionEffect × Result (Unit {0})
merged manual (err e) = (manual, err e)
merged manual (ok auto) = if did_promote auto then (auto, ok tt) else (manual, ok tt)

module _ (p : Platform) (r : Reconciler p) where
  -- Steps 3 and 3bis: the manual failover, then the automatic one unless the first failed.
  unfoldable pub failover_after :
      SiteObservation
      → List SiteObservation
      → Result PromotionEffect
      → Exec (State p) (PromotionEffect × Result (Unit {0}))
  unfolding did_promote
  failover_after primary_obs replica_obs (err e) = pure (no_effect, err e)
  failover_after primary_obs replica_obs (ok manual) = do
    auto ← attempt (handle_automatic_failover p r primary_obs replica_obs)
    pure (merged manual auto)

  unfoldable pub failover :
      SiteObservation → List SiteObservation → Exec (State p) (PromotionEffect × Result (Unit {0}))
  unfolding failover_after
  failover primary_obs replica_obs = do
    manual ← attempt (handle_promote_annotation p r primary_obs replica_obs)
    failover_after primary_obs replica_obs manual

  -- Step 5 in memory.
  unfoldable pub refresh_status : String → String → Observations → Exec (State p) (Unit {0})
  refresh_status prior current (primary_obs, replica_obs) = modify (λ s.
      with_status p r
        (record s.ha.status {
          observed_generation = s.ha.generation;
          current_primary_site = or_prior current prior;
          sites = build_site_statuses p (p.now s.world) primary_obs replica_obs;
        })
        s)

  -- r.Status().Update, which leaves in `ha` what the server returned.
  unfoldable pub status_updated : Result HaCluster → Exec (State p) (Unit {0})
  status_updated (err e) s = (err (wrapf "update status: %w" end e), s)
  status_updated (ok ha) s = (ok tt, record s { ha = ha })

  unfoldable pub update_status : Exec (State p) (Unit {0})
  unfolding status_updated
  update_status s =
      let (x, w) = p.update_status s.ha s.world in status_updated x (record s { world = w })

  -- Steps 4 and 5: what the reconcile reports of the observations.
  unfoldable pub report : String → Observations → Exec (State p) (Unit {0})
  unfolding refresh_status update_status decide_current_primary detect_split_brain
  report prior (primary_obs, replica_obs) = do
    let (current, available) = decide_current_primary primary_obs replica_obs
    let split_brain = detect_split_brain primary_obs replica_obs
    refresh_status prior current (primary_obs, replica_obs)
    set_conditions p r available split_brain primary_obs replica_obs
    ha ← gets (λ s. s.ha)
    publish p r (publish_metrics p ha current (is_split split_brain) primary_obs replica_obs)
    update_status

  -- Step 6, unless a promotion failed.
  unfoldable pub converge_topology : String → Observations → Result (Unit {0}) → Exec (State p) ℕ
  unfolding requeue_after
  converge_topology prior obs (err e) = fail e
  converge_topology prior (primary_obs, replica_obs) (ok x) = do
    let (current, available) = decide_current_primary primary_obs replica_obs
    reconcile_replica_topology p r (or_prior current prior) primary_obs replica_obs
    gets (λ s. requeue_after s.ha.spec.failover)

  -- From the observations on.
  unfoldable pub act : SiteObservation → List SiteObservation → Exec (State p) ℕ
  unfolding failover report converge_topology apply_promotion_effect
  act primary_obs replica_obs = do
    prior ← gets (λ s. s.ha.status.current_primary_site)
    (effect, outcome) ← failover primary_obs replica_obs
    let obs = apply_promotion_effect effect (primary_obs, replica_obs)
    report prior obs
    converge_topology prior obs outcome

  -- From the HACluster on; it returns the duration after which to requeue.
  unfoldable pub reconcile_ha : Exec (State p) ℕ
  unfolding act observe_primary observe_replicas
  reconcile_ha = do
    ha ← gets (λ s. s.ha)
    primary_obs ← observe_primary p r
    replica_obs ← observe_replicas p r ha.spec.replicas
    act primary_obs replica_obs

  -- What lasts from one reconcile to the next.
  pub record Memory : Type 0 where
    pub world : p.World
    pub cache : Cache p
    pub fail_count : FailCount
    pub events : List Event
    pub metrics : List Call

  abbrev pub with_ha : HaCluster → Memory → State p
  with_ha ha m = record {
    world = m.world;
    cache = m.cache;
    fail_count = m.fail_count;
    ha = ha;
    events = m.events;
    metrics = m.metrics;
  }

  abbrev pub memory_of : State p → Memory
  memory_of s = record {
    world = s.world;
    cache = s.cache;
    fail_count = s.fail_count;
    events = s.events;
    metrics = s.metrics;
  }

  -- The reconcile of what Get returned; an HACluster that is not found is none, and no requeue.
  unfoldable pub reconcile_got : Result HaCluster → Exec Memory ℕ
  unfolding reconcile_ha
  reconcile_got (err e) m = if is_not_found e then (ok 0, m) else (err e, m)
  reconcile_got (ok ha) m = let (x, s) = reconcile_ha (with_ha ha m) in (x, memory_of s)

  unfoldable pub reconcile : Ref → Exec Memory ℕ
  unfolding reconcile_got
  reconcile req m = reconcile_got (p.get_ha req m.world) m
