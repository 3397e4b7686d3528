-- ===== src/Examples/Operator.antt =====
-- The operator over time, and whole runs of its parts.
use cnpg_ha.Base.{String, [], ◌∷◌, ◌≡◌, refl, lookup, arith}
use cnpg_ha.Platform.{Ref}
use cnpg_ha.Remote.{
  load_kubeconfig, kubeconfig_in, kubeconfig_of, client_from_kubeconfig, get_or_create,
}
use cnpg_ha.Remote.Freshness.{IsLabelled}
use cnpg_ha.Controller.Reconcile.{Memory, reconcile}
use cnpg_ha.Controller.History.{set_up, begun, turned, outside, reconciled}
use cnpg_ha.Controller.History.Currency.{History-current}
use cnpg_ha.Controller.History.Isolation.{Isolated, reconcile-Isolated}
use cnpg_ha.Controller.Observation.{find_observation}
use cnpg_ha.Controller.Primary.{detect_split_brain}
use cnpg_ha.Controller.Observe.{observe_replicas}
use cnpg_ha.Controller.Observe.Coverage.{Covers, observe_replicas-Covers}
use cnpg_ha.Controller.Target.{choose_target, round, more_advanced}
use cnpg_ha.Controller.Timing.{effective_failure_threshold}
use cnpg_ha.Controller.Automatic.{handle_automatic_failover}
use cnpg_ha.Controller.State.{State, ha_key}
use cnpg_ha.Controller.Automatic.Machine.{turn, view_of}
use cnpg_ha.Controller.Automatic.Machine.Refinement.{finding, automatic_refines}
use cnpg_ha.Controller.Automatic.Patience.{Sight}
use cnpg_ha.Controller.Automatic.Progress.{IsFailing, Acts, automatic-Acts}
use cnpg_ha.Sim.{sim, SimWorld}
use cnpg_ha.Sim.Hub.{sim-SecretLaws, sim-HubLaws}
use cnpg_ha.Examples.Sites.{
  world, reconciler, east_secret_ref, state_of, automatic_ha, manual_ha, hub_down, east_site,
  west_site, replicas, west_candidate,
}

abbrev orders : Ref
orders = record { namespace = "ha"; name = "orders" }

reconcile-Isolated_example :
    Isolated sim reconciler orders
      (set_up sim reconciler world)
      (reconcile sim reconciler orders (set_up sim reconciler world)).1
reconcile-Isolated_example =
    reconcile-Isolated sim reconciler sim-HubLaws orders (set_up sim reconciler world)

-- The one kubeconfig of the hub.
abbrev kubeconfig_at : String → String → String
kubeconfig_at key rv = "east"

IsLabelled-world : IsLabelled sim kubeconfig_at "hub" world
unfolding load_kubeconfig kubeconfig_in kubeconfig_of lookup
IsLabelled-world namespace secret_ref kubeconfig rv h = ground arith

-- An hour later.
abbrev later : SimWorld
later = record world { clock = 4600 }

IsLabelled-later : IsLabelled sim kubeconfig_at "hub" later
unfolding load_kubeconfig kubeconfig_in kubeconfig_of lookup
IsLabelled-later namespace secret_ref kubeconfig rv h = ground arith

-- After one reconcile, and the hour.
abbrev reconciled_once : Memory sim reconciler
reconciled_once = record (reconcile sim reconciler orders (set_up sim reconciler world)).1 {
  world = later;
}

History-current_example :
    (get_or_create sim "hub" "ha" east_secret_ref later reconciled_once.cache).0
    ≡ client_from_kubeconfig sim "east" "ha" "east-kube"
unfolding load_kubeconfig kubeconfig_in kubeconfig_of lookup
History-current_example =
    History-current sim kubeconfig_at reconciler sim-SecretLaws world reconciled_once "ha"
      east_secret_ref "east" "7" IsLabelled-world
      (turned (turned begun (reconciled (set_up sim reconciler world) orders))
        (outside _ later IsLabelled-later))
      refl

abbrev at_threshold : State sim
at_threshold = record (state_of automatic_ha) { fail_count = λ k. 2 }

automatic_refines_example :
    let (x, s) = handle_automatic_failover sim reconciler hub_down replicas at_threshold in
    (x, view_of sim s)
    ≡ turn (finding sim reconciler hub_down replicas at_threshold) (view_of sim at_threshold)
automatic_refines_example = automatic_refines sim reconciler hub_down replicas at_threshold

abbrev failing : Sight sim reconciler
failing = record {
  world = world;
  ha = automatic_ha;
  primary_obs = hub_down;
  replica_obs = replicas;
}

failing-IsFailing : IsFailing sim reconciler (ha_key automatic_ha) 3 failing
unfolding effective_failure_threshold detect_split_brain find_observation choose_target round
    more_advanced
failing-IsFailing = (refl, refl, refl, omega arith, (west_candidate, refl))

automatic-Acts_example :
    Acts sim reconciler (failing ∷ failing ∷ failing ∷ []) (state_of automatic_ha)
automatic-Acts_example =
    automatic-Acts sim reconciler (ha_key automatic_ha) 3 failing (failing ∷ failing ∷ [])
      (state_of automatic_ha) (failing-IsFailing, (failing-IsFailing, (failing-IsFailing, tt)))
      (omega arith)

observe_replicas-Covers_example :
    Covers sim reconciler
      (east_site ∷ west_site ∷ [])
      (state_of manual_ha)
      (observe_replicas sim reconciler (east_site ∷ west_site ∷ []) (state_of manual_ha))
observe_replicas-Covers_example =
    observe_replicas-Covers sim reconciler (east_site ∷ west_site ∷ []) (state_of manual_ha)
