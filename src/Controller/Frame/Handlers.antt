-- ===== src/Controller/Frame/Handlers.antt =====
-- The manual failover within a frame, and what both failovers share.
use cnpg_ha.Base.{ℕ, String, Bool, false, lookup, none, some, Option, List, inl, inr}
use cnpg_ha.Base.Message.{Text, Err}
use cnpg_ha.Base.Exec.{Result, ok, err, Result-cases}
use cnpg_ha.Base.Moves.{Order, Moves, moves_rules}
use cnpg_ha.Api.{ReplicaSite, Time, Condition}
use cnpg_ha.Metrics.{Call}
use cnpg_ha.Platform.{Platform}
use cnpg_ha.Controller.Observation.{SiteObservation}
use cnpg_ha.Controller.State.{
  Reconciler, State, annotation_promote, publish, set_status_condition, set_failover_in_progress,
  patched, clear_present, clear_promote_annotation,
}
use cnpg_ha.Controller.Frame.{ClientFrame, PromotionFrame, Frame, event-Moves}
use cnpg_ha.Controller.Frame.Sites.{run_promotion-Moves}
use cnpg_ha.Controller.Manual.{
  record_failover, report_failure, reject, conclude_manually, announce_manually, manual_failure,
  promote_manually, promote_from, promote_replica, handle_annotation, handle_promote_annotation,
}

module _ (p : Platform) (r : Reconciler p) (R : State p → State p → Type 0) ⦃f : Frame p r R⦄ where
  instance abbrev promotions : PromotionFrame p r R
  promotions = f.promotions

  instance abbrev clients : ClientFrame p r R
  clients = f.promotions.clients

  instance abbrev order : Order R
  order = f.promotions.clients.order

  pub publish-Moves : (calls : List Call) → Moves R (publish p r calls)
  unfolding publish
  publish-Moves calls = record { at = f.published calls }

  pub set_status_condition-Moves : (c : Condition) → Moves R (set_status_condition p r c)
  unfolding set_status_condition
  set_status_condition-Moves c = record { at = λ s. f.stated _ s }

  pub set_failover_in_progress-Moves :
      (in_progress : Bool) (target : String)
      → Moves R (set_failover_in_progress p r in_progress target)
  unfolding set_failover_in_progress
  set_failover_in_progress-Moves in_progress target = record {
    at = λ s. (set_status_condition-Moves _).at s;
  }

  clear_present-Moves : (o : Option String) → Moves R (clear_present p r o)
  unfolding clear_present patched
  clear_present-Moves none = search moves_rules
  clear_present-Moves (some target) = record {
    at = λ s. elim (Result-cases (p.remove_annotation annotation_promote s.ha s.world).0) [
      | inl (ha, e) ↦ rw e (f.annotated s ha e)
      | inr (x, e) ↦ rw e (f.annotation_refused s x e)
    ];
  }

  pub clear_promote_annotation-Moves : Moves R (clear_promote_annotation p r)
  unfolding clear_promote_annotation
  clear_promote_annotation-Moves = record {
    at = λ s. (clear_present-Moves (lookup annotation_promote s.ha.annotations)).at s;
  }

  pub record_failover-Moves : (target : String) → Moves R (record_failover p r target)
  unfolding record_failover
  record_failover-Moves target = record {
    at = λ s. order.chain _ _ _ (f.stated _ s) ((set_failover_in_progress-Moves false "").at _);
  }

  pub ruleset handler_rules = (
    moves_rules, event-Moves, publish-Moves, set_failover_in_progress-Moves,
    clear_promote_annotation-Moves, record_failover-Moves, run_promotion-Moves,
  )

  pub report_failure-Moves : (msg : Text) (e : Err) → Moves R (report_failure p r msg e)
  unfolding report_failure
  report_failure-Moves msg e = search handler_rules depth 12

  reject-Moves : (msg : Text) → Moves R (reject p r msg)
  unfolding reject
  reject-Moves msg = search handler_rules depth 12

  conclude_manually-Moves :
      (target old_name : String) (target_obs : SiteObservation) (start : Time)
      → Moves R (conclude_manually p r target old_name target_obs start)
  unfolding conclude_manually
  conclude_manually-Moves target old_name target_obs start = search handler_rules depth 20

  promote_manually-Moves :
      (target : String) (rep : ReplicaSite) (old_name : String) (target_obs : SiteObservation)
      → Moves R (promote_manually p r target rep old_name target_obs)
  unfolding promote_manually announce_manually manual_failure
  promote_manually-Moves target rep old_name target_obs =
      search (handler_rules, conclude_manually-Moves, report_failure-Moves) depth 20

  promote_from-Moves :
      (target : String) (rep : ReplicaSite) (target_obs : SiteObservation) (x : Result String)
      → Moves R (promote_from p r target rep target_obs x)
  unfolding promote_from
  promote_from-Moves target rep target_obs (err e) = reject-Moves _
  promote_from-Moves target rep target_obs (ok old_name) =
      promote_manually-Moves target rep old_name target_obs

  promote_replica-Moves :
      (target : String) (primary_obs : SiteObservation) (replica_obs : List SiteObservation)
      (o : Option (ReplicaSite × ℕ))
      → Moves R (promote_replica p r target primary_obs replica_obs o)
  unfolding promote_replica
  promote_replica-Moves target primary_obs replica_obs none = reject-Moves _
  promote_replica-Moves target primary_obs replica_obs (some (rep, idx)) =
      search (moves_rules, reject-Moves, promote_from-Moves) depth 12

  handle_annotation-Moves :
      (primary_obs : SiteObservation) (replica_obs : List SiteObservation) (o : Option String)
      → Moves R (handle_annotation p r primary_obs replica_obs o)
  unfolding handle_annotation
  handle_annotation-Moves primary_obs replica_obs none = search moves_rules
  handle_annotation-Moves primary_obs replica_obs (some target) =
      search (moves_rules, reject-Moves, promote_replica-Moves) depth 12

  pub handle_promote_annotation-Moves :
      (primary_obs : SiteObservation) (replica_obs : List SiteObservation)
      → Moves R (handle_promote_annotation p r primary_obs replica_obs)
  unfolding handle_promote_annotation
  handle_promote_annotation-Moves primary_obs replica_obs = record {
    at = λ s.
        (handle_annotation-Moves primary_obs replica_obs
            (lookup annotation_promote s.ha.annotations)).at
          s;
  }
