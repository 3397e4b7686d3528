-- ===== src/Controller/Frame/Whole.antt =====
-- The automatic failover and the whole reconcile within a frame.
use cnpg_ha.Base.{ℕ, String, Bool, none, some, Option, List, Bool-cases, inl, inr, ◌==◌}
use cnpg_ha.Base.Exec.{Result, ok, err, Result-cases}
use cnpg_ha.Base.Moves.{Order, Moves, moves_rules, bind_at}
use cnpg_ha.Api.{Time, failover_mode_automatic}
use cnpg_ha.Platform.{Platform}
use cnpg_ha.Controller.Observation.{SiteObservation}
use cnpg_ha.Controller.Target.{Candidate}
use cnpg_ha.Controller.Effect.{Observations}
use cnpg_ha.Controller.State.{
  Reconciler, State, ha_key, event, publish, set_status_condition, set_failover_in_progress,
  bump_fail_count, reset_fail_count,
}
use cnpg_ha.Controller.Frame.{ClientFrame, PromotionFrame, Frame, WholeFrame, event-Moves}
use cnpg_ha.Controller.Frame.Sites.{reconcile_replica_topology-Moves, observe_replicas-Moves}
use cnpg_ha.Controller.Frame.Handlers.{
  handler_rules, record_failover-Moves, report_failure-Moves, publish-Moves,
  set_status_condition-Moves, handle_promote_annotation-Moves,
}
use cnpg_ha.Controller.Manual.{record_failover}
use cnpg_ha.Controller.Automatic.{
  announce_automatically, automatic_failure, conclude_automatically, promote_automatically,
  count_failure, handle_automatic_failover, current_name, is_suspended,
}
use cnpg_ha.Controller.Status.{set_conditions}
use cnpg_ha.Controller.Reconcile.{
  failover_after, failover, refresh_status, status_updated, update_status, report,
  converge_topology, act, reconcile_ha,
}

module _ (p : Platform) (r : Reconciler p) (R : State p → State p → Type 0) ⦃f : Frame p r R⦄ where
  instance abbrev promotions : PromotionFrame p r R
  promotions = f.promotions

  instance abbrev clients : ClientFrame p r R
  clients = f.promotions.clients

  instance abbrev order : Order R
  order = f.promotions.clients.order

  -- The counter is that of the HACluster that the state holds, whose key the status does not change.
  conclude_automatically-Moves :
      (cur_name target : String) (start : Time)
      → Moves R (conclude_automatically p r cur_name target start)
  unfolding conclude_automatically event publish reset_fail_count record_failover
      set_failover_in_progress set_status_condition
  conclude_automatically-Moves cur_name target start = record {
    at = λ s.
        let recorded =
          order.chain _ _ _ (f.published _ s) ((record_failover-Moves p r R target).at _) in
        elim (Bool-cases r.has_recorder) [
          | inl h ↦ rw h (
              order.chain _ _ _ recorded (
                order.chain _ _ _ (f.promotions.clients.evented _ _)
                  (order.chain _ _ _ (f.published _ _) (f.healed _))))
          | inr h ↦
              rw h (order.chain _ _ _ recorded (order.chain _ _ _ (f.published _ _) (f.healed _)))
        ];
  }

  promote_automatically-Moves :
      (cur_name : String) (n : ℕ) (o : Option Candidate)
      → Moves R (promote_automatically p r cur_name n o)
  unfolding promote_automatically announce_automatically automatic_failure
  promote_automatically-Moves cur_name n none = search handler_rules depth 12
  promote_automatically-Moves cur_name n (some target) =
      search (handler_rules, conclude_automatically-Moves, report_failure-Moves) depth 20

  bump_fail_count-Moves : (s : State p) → R s (bump_fail_count p r (ha_key s.ha) s).1
  unfolding bump_fail_count
  bump_fail_count-Moves s = f.failed_once s

  count_failure-Moves :
      (cur_name : String) (replica_obs : List SiteObservation)
      → Moves R (count_failure p r cur_name replica_obs)
  unfolding count_failure
  count_failure-Moves cur_name replica_obs = record {
    at = λ s.
        bind_at {R = R} (bump_fail_count p r (ha_key s.ha)) _ s (bump_fail_count-Moves s)
          (λ n. search (moves_rules, event-Moves, promote_automatically-Moves) depth 12);
  }

  handle_automatic_failover-Moves :
      (primary_obs : SiteObservation) (replica_obs : List SiteObservation)
      → Moves R (handle_automatic_failover p r primary_obs replica_obs)
  unfolding handle_automatic_failover reset_fail_count
  handle_automatic_failover-Moves primary_obs replica_obs = record {
    at = λ s. elim (Bool-cases (s.ha.spec.failover.mode == failover_mode_automatic)) [
      | inr m ↦ rw m (order.stay s)
      | inl m ↦ elim (Bool-cases (is_suspended p r s.ha (p.now s.world) primary_obs replica_obs)) [
        | inl g ↦ rw (m, g) (f.healed s)
        | inr g ↦ rw (m, g) ((count_failure-Moves (current_name s.ha) replica_obs).at s)
      ]
    ];
  }

  failover_after-Moves :
      (primary_obs : SiteObservation) (replica_obs : List SiteObservation) (m : Result _)
      → Moves R (failover_after p r primary_obs replica_obs m)
  unfolding failover_after
  failover_after-Moves primary_obs replica_obs (err e) = search moves_rules
  failover_after-Moves primary_obs replica_obs (ok manual) =
      search (moves_rules, handle_automatic_failover-Moves)

  pub failover-Moves :
      (primary_obs : SiteObservation) (replica_obs : List SiteObservation)
      → Moves R (failover p r primary_obs replica_obs)
  unfolding failover
  failover-Moves primary_obs replica_obs =
      search (moves_rules, handle_promote_annotation-Moves, failover_after-Moves)

  refresh_status-Moves :
      (prior current : String) (obs : Observations) → Moves R (refresh_status p r prior current obs)
  unfolding refresh_status
  refresh_status-Moves prior current obs = record { at = λ s. f.stated _ s }

  update_status-Moves : Moves R (update_status p r)
  unfolding update_status status_updated
  update_status-Moves = record {
    at = λ s. elim (Result-cases (p.update_status s.ha s.world).0) [
      | inl (ha, e) ↦ rw e (f.status_stored s ha e)
      | inr (x, e) ↦ rw e (f.status_refused s x e)
    ];
  }

  set_conditions-Moves :
      (available : Bool) (split_brain : List String) (primary_obs : SiteObservation)
      (replica_obs : List SiteObservation)
      → Moves R (set_conditions p r available split_brain primary_obs replica_obs)
  unfolding set_conditions
  set_conditions-Moves available split_brain primary_obs replica_obs =
      search (moves_rules, set_status_condition-Moves) depth 12

  pub report-Moves : (prior : String) (obs : Observations) → Moves R (report p r prior obs)
  unfolding report
  report-Moves prior (primary_obs, replica_obs) =
      search
        (
          moves_rules, refresh_status-Moves, set_conditions-Moves, publish-Moves,
          update_status-Moves,
        )
        depth 12

module _ (p : Platform) (r : Reconciler p) (R : State p → State p → Type 0)
    ⦃f : WholeFrame p r R⦄ where
  instance abbrev handlers : Frame p r R
  handlers = f.handlers

  instance abbrev whole_clients : ClientFrame p r R
  whole_clients = f.handlers.promotions.clients

  instance abbrev whole_order : Order R
  whole_order = f.handlers.promotions.clients.order

  converge_topology-Moves :
      (prior : String) (obs : Observations) (x : Result (Unit {0}))
      → Moves R (converge_topology p r prior obs x)
  unfolding converge_topology
  converge_topology-Moves prior obs (err e) = search moves_rules
  converge_topology-Moves prior (primary_obs, replica_obs) (ok x) =
      search (moves_rules, reconcile_replica_topology-Moves, f.passes) depth 12

  act-Moves :
      (primary_obs : SiteObservation) (replica_obs : List SiteObservation)
      → Moves R (act p r primary_obs replica_obs)
  unfolding act
  act-Moves primary_obs replica_obs =
      search (moves_rules, failover-Moves, report-Moves, converge_topology-Moves) depth 12

  pub reconcile_ha-Moves : Moves R (reconcile_ha p r)
  unfolding reconcile_ha
  reconcile_ha-Moves = search (moves_rules, observe_replicas-Moves, act-Moves) depth 12
