-- ===== src/Examples/Runs.antt =====
-- The handlers of failovers and the report of a reconcile.
use cnpg_ha.Base.{String, some, none, [], ◌∷◌, ◌≡◌, ◌⊎◌, refl, lookup, value_at, arith}
use cnpg_ha.Base.Message.{Err, wrapf, arg, str, api, not_found, end}
use cnpg_ha.Base.Exec.{ok, err}
use cnpg_ha.Api.{HaCluster}
use cnpg_ha.Controller.Observation.{find_replica}
use cnpg_ha.Promotion.{fence, promote, flip_cilium_service}
use cnpg_ha.Remote.{
  get_or_create, load_kubeconfig, kubeconfig_in, kubeconfig_of, client_from_kubeconfig,
}
use cnpg_ha.Controller.Target.{Candidate}
use cnpg_ha.Controller.Timing.{effective_failure_threshold}
use cnpg_ha.Controller.Effect.{PromotionEffect, no_effect, Observations}
use cnpg_ha.Controller.State.{
  State, annotation_promote, ha_key, event, set_failover_in_progress, remote_client, publish,
  clear_promote_annotation,
}
use cnpg_ha.Controller.Failover.{run_promotion, promotion_steps}
use cnpg_ha.Controller.Automatic.Guards.{IsIdle, IsDue}
use cnpg_ha.Controller.Automatic.Clear.{IsClear, automatic_guarded}
use cnpg_ha.Controller.Automatic.Patience.{Sight, AllIdle, automatic_patient}
use cnpg_ha.Controller.Manual.{handle_promote_annotation, promote_manually}
use cnpg_ha.Controller.Manual.Requests.{Answer, request_answered}
use cnpg_ha.Controller.Manual.Success.{announced, Concluded, promoted_manually}
use cnpg_ha.Controller.Primary.{decide_current_primary, current_primary_for_promotion}
use cnpg_ha.Controller.Status.{build_site_statuses}
use cnpg_ha.Controller.Reconcile.{or_prior, failover, report, act}
use cnpg_ha.Controller.Reconcile.Described.{DescribesAll, report_sent}
use cnpg_ha.Sim.Conditions.{sim-ConditionLaws}
use cnpg_ha.Controller.Reconcile.Report.{Reports, SentAs, reported, failed_reported}
use cnpg_ha.Sim.{sim}
use cnpg_ha.Examples.Sites.{
  replicas, world, reconciler, state_of, manual_ha, automatic_ha, hub_up, hub_down, east_up,
  east_site,
}

automatic_guarded_example :
    IsIdle sim reconciler hub_down replicas (state_of automatic_ha)
    ⊎ ((target : Candidate) × IsDue sim reconciler hub_down replicas (state_of automatic_ha) target
        × IsClear sim reconciler hub_down replicas (state_of automatic_ha))
automatic_guarded_example =
    automatic_guarded sim reconciler hub_down replicas (state_of automatic_ha)

abbrev sight : Sight sim reconciler
sight = record { world = world; ha = automatic_ha; primary_obs = hub_down; replica_obs = replicas }

automatic_patient_example : AllIdle sim reconciler (sight ∷ sight ∷ []) (state_of automatic_ha)
unfolding effective_failure_threshold
automatic_patient_example =
    automatic_patient sim reconciler (ha_key automatic_ha) (sight ∷ sight ∷ [])
      (state_of automatic_ha) ((refl, omega arith), ((refl, omega arith), tt))

request_answered_example :
    ((lookup annotation_promote manual_ha.annotations ≡ none)
      × (handle_promote_annotation sim reconciler hub_up replicas (state_of manual_ha)
          ≡ (ok no_effect, state_of manual_ha)))
    ⊎ ((target : String) × (lookup annotation_promote manual_ha.annotations ≡ some target)
        × Answer sim reconciler hub_up replicas
            (state_of manual_ha)
            target
            (handle_promote_annotation sim reconciler hub_up replicas (state_of manual_ha)))
request_answered_example = request_answered sim reconciler hub_up replicas (state_of manual_ha)

abbrev effect : PromotionEffect
effect = record { demoted = "hub"; promoted = "east" }

promoted_manually_example :
    ((run_promotion sim reconciler "hub" east_site
        (announced sim reconciler "east" "hub" east_up (state_of manual_ha))).0
      ≡ ok tt)
    × Concluded sim reconciler "east" "hub" east_up
        (promote_manually sim reconciler "east" east_site "hub" east_up (state_of manual_ha)).1
        effect
unfolding promote_manually event set_failover_in_progress run_promotion remote_client get_or_create
    load_kubeconfig kubeconfig_of lookup client_from_kubeconfig promotion_steps fence value_at
    flip_cilium_service promote publish clear_promote_annotation
promoted_manually_example =
    promoted_manually sim reconciler "east" "hub" east_up east_site effect (state_of manual_ha) refl

abbrev seen : Observations
seen = (hub_down, replicas)

report_sent_example :
    (sent : HaCluster) × Reports sim reconciler manual_ha
      (or_prior (decide_current_primary hub_down replicas).0 "hub")
      (build_site_statuses sim 1000 hub_down replicas)
      sent
    × DescribesAll sim 1000 seen sent
    × SentAs sim reconciler sent (report sim reconciler "hub" seen (state_of manual_ha)) world
report_sent_example = report_sent sim sim-ConditionLaws reconciler "hub" seen (state_of manual_ha)

-- The Secret with the kubeconfig of the target is gone.
abbrev locked_out : State sim
locked_out = record (state_of manual_ha) { world = record world { secrets = λ c r. none } }

abbrev failure : Err
failure = wrapf "manual promotion to %q: %w" (arg (str "east") end) (
    wrapf "load remote client for %q: %w" (arg (str "east") end) (
      wrapf "get kubeconfig secret %s/%s: %w" (arg (str "ha") (arg (str "east-kube") end))
        (api not_found)))

abbrev after_failure : State sim
after_failure = (failover sim reconciler hub_up replicas locked_out).1

failed_result : (failover sim reconciler hub_up replicas locked_out).0 ≡ ok (no_effect, err failure)
unfolding failover handle_promote_annotation find_replica current_primary_for_promotion
    promote_manually event set_failover_in_progress run_promotion remote_client get_or_create
    load_kubeconfig kubeconfig_in lookup
failed_result = refl

failed :
    failover sim reconciler hub_up replicas locked_out
    ≡ (ok (no_effect, err failure), after_failure)
failed = λ i. (failed_result i, after_failure)

failed_reported_example :
    let end_of =
      reported sim reconciler hub_up replicas locked_out no_effect
        (err failure)
        after_failure
        failed in
    ((act sim reconciler hub_up replicas locked_out).1 ≡ end_of.1)
    × (((end_of.0 ≡ ok tt) × ((act sim reconciler hub_up replicas locked_out).0 ≡ err failure))
        ⊎ ((e' : Err) × (end_of.0 ≡ err e')
            × ((act sim reconciler hub_up replicas locked_out).0 ≡ err e')))
failed_reported_example =
    failed_reported sim reconciler hub_up replicas locked_out no_effect (err failure) after_failure
      failed failure refl
