-- ===== src/Examples/Promotions.antt =====
-- An automatic failover that succeeds, and the reconciles after it.
use cnpg_ha.Base.{◌+◌, ◌*◌, none, value_at, inl, some, [], ◌∷◌, ◌≡◌, refl, lookup, arith}
use cnpg_ha.Base.Exec.{ok}
use cnpg_ha.Api.{HaCluster}
use cnpg_ha.Remote.{load_kubeconfig, kubeconfig_of, client_from_kubeconfig, get_or_create}
use cnpg_ha.Controller.Observation.{find_observation, find_among}
use cnpg_ha.Controller.Primary.{detect_split_brain, candidates_among}
use cnpg_ha.Controller.Target.{choose_target, round, more_advanced}
use cnpg_ha.Controller.Timing.{
  second, effective_failure_threshold, stabilization_cooldown, effective_health_interval,
}
use cnpg_ha.Controller.Automatic.{
  handle_automatic_failover, announce_automatically, promote_automatically,
}
use cnpg_ha.Controller.Reconcile.{failover, report}
use cnpg_ha.Controller.Reconcile.Report.{SentAs}
use cnpg_ha.Controller.Reconcile.Promoted.{promoted_reported}
use cnpg_ha.Controller.Automatic.Success.{sequence}
use cnpg_ha.Controller.Automatic.Cooldown.{automatic_settles, IsSettling}
use cnpg_ha.Controller.Automatic.Guards.{IsDue, IsDue-at}
use cnpg_ha.Controller.State.{
  State, ha_key, annotation_promote, event, bump_fail_count, publish, reset_fail_count,
  set_failover_in_progress, remote_client,
}
use cnpg_ha.Controller.Failover.{run_promotion, promotion_steps}
use cnpg_ha.Promotion.{fence, flip_cilium_service, promote}
use cnpg_ha.Controller.Effect.Mirror.{IsUnique, IsOnly}
use cnpg_ha.Controller.Effect.{apply_promotion_effect}
use cnpg_ha.Controller.Automatic.Patience.{Sight, AllIdle, IsBelow}
use cnpg_ha.Sim.{sim}
use cnpg_ha.Examples.Sites.{
  world, reconciler, state_of, automatic_ha, hub_down, east_up, west_up, replicas, west_candidate,
}

-- The third failure in a row, without a request.
abbrev third : State sim
third = record (state_of (record automatic_ha { annotations = [] })) { fail_count = λ k. 2 }

third-IsDue : IsDue sim reconciler hub_down replicas third west_candidate
unfolding effective_failure_threshold detect_split_brain find_observation choose_target round
    more_advanced
third-IsDue =
    IsDue-at sim reconciler hub_down replicas third west_candidate refl refl (omega arith) refl

third_done : (sequence sim reconciler hub_down replicas third west_candidate).0 ≡ ok tt
unfolding event set_failover_in_progress run_promotion remote_client get_or_create load_kubeconfig
    kubeconfig_of lookup client_from_kubeconfig promotion_steps fence value_at flip_cilium_service
    promote announce_automatically
third_done = refl

third_unasked : lookup annotation_promote third.ha.annotations ≡ none
unfolding lookup
third_unasked = refl

third-IsUnique : IsUnique (hub_down ∷ replicas)
unfolding find_among
third-IsUnique = (refl, (refl, (refl, tt)))

third-IsOnly : IsOnly "hub" (hub_down ∷ replicas)
unfolding candidates_among
third-IsOnly = inl refl

west_found : find_among "west" (hub_down ∷ replicas) ≡ some west_up
unfolding find_among
west_found = refl

promoted_reported_example :
    let (x, after) = failover sim reconciler hub_down replicas third in
    let obs =
      apply_promotion_effect (record { demoted = "hub"; promoted = "west" }) (hub_down, replicas) in
    (x ≡ ok (record { demoted = "hub"; promoted = "west" }, ok tt))
    × ((sent : HaCluster) × (sent.status.current_primary_site ≡ "west")
        × (sent.status.last_failover_time
            ≡ some
                (sim.now (sequence sim reconciler hub_down replicas third west_candidate).1.world))
        × SentAs sim reconciler sent (report sim reconciler "hub" obs after) after.world)
promoted_reported_example =
    promoted_reported sim reconciler hub_down replicas third west_candidate third_unasked
      (third-IsDue, third_done) third-IsUnique third-IsOnly refl west_found

-- What the third failure leaves: the HACluster with "west" as its primary.
abbrev promoted : State sim
promoted = (handle_automatic_failover sim reconciler hub_down replicas third).1

promoted_key : ha_key promoted.ha ≡ ha_key automatic_ha
unfolding handle_automatic_failover detect_split_brain find_observation effective_failure_threshold
    choose_target round more_advanced promote_automatically event bump_fail_count
    set_failover_in_progress run_promotion remote_client get_or_create load_kubeconfig kubeconfig_of
    lookup client_from_kubeconfig promotion_steps fence value_at flip_cilium_service promote publish
    reset_fail_count
promoted_key = refl

third_end : sim.now (sequence sim reconciler hub_down replicas third west_candidate).1.world ≡ 1000
unfolding event set_failover_in_progress run_promotion remote_client get_or_create load_kubeconfig
    kubeconfig_of lookup client_from_kubeconfig promotion_steps fence value_at flip_cilium_service
    promote announce_automatically
third_end = refl

-- The HACluster with the status of that failover.
abbrev settling_ha : HaCluster
settling_ha = record automatic_ha {
  status = record automatic_ha.status {
    current_primary_site = "west";
    last_failover_time = some 1000;
  };
}

-- Within half a minute, and after it.
abbrev soon : Sight sim reconciler
soon = record {
  world = record world { clock = 1000 + 29 * second };
  ha = settling_ha;
  primary_obs = hub_down;
  replica_obs = east_up ∷ hub_down ∷ [];
}

abbrev settled : Sight sim reconciler
settled = record soon { world = record world { clock = 1000 + 31 * second } }

soon-IsSettling :
    IsSettling sim reconciler
      (ha_key promoted.ha)
      (sim.now (sequence sim reconciler hub_down replicas third west_candidate).1.world)
      soon
unfolding stabilization_cooldown effective_health_interval
soon-IsSettling = rw (promoted_key, third_end) (refl, refl, omega arith)

settled-IsBelow : IsBelow sim reconciler (ha_key promoted.ha) 2 settled
unfolding effective_failure_threshold
settled-IsBelow = rw promoted_key (refl, omega arith)

automatic_settles_example : AllIdle sim reconciler (soon ∷ settled ∷ settled ∷ []) promoted
automatic_settles_example =
    automatic_settles sim reconciler hub_down replicas third west_candidate
      (third-IsDue, third_done) (soon ∷ []) (settled ∷ settled ∷ []) (soon-IsSettling, tt)
      (settled-IsBelow, (settled-IsBelow, tt))
