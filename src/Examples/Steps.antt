-- ===== src/Examples/Steps.antt =====
-- The steps of a promotion and the convergence of the topology.
use cnpg_ha.Value
use cnpg_ha.Base.{
  value_at, lookup, String, true, ◌≡◌, ◌≢◌, ◌⊎◌, inl, refl, sym, [], ◌∷◌, arith, eq_iff, ◌==◌,
}
use cnpg_ha.Base.Exec.{ok}
use cnpg_ha.Health.{probe, parse_cluster}
use cnpg_ha.Promotion.{
  role_local, role_remote, fence, promote, flip_cilium_service, reconfigure, external_cluster_index,
  index_from, is_named, connection_parameters,
}
use cnpg_ha.Promotion.Service.{HasRole, flip-HasRole}
use cnpg_ha.Promotion.Role.{HasPrimary}
use cnpg_ha.Promotion.Repointing.{IsFollower}
use cnpg_ha.Promotion.Following.{
  reconfigure-IsFollower, reconfigure_idem, externals_in, Rehosted, externals-reconfigure,
}
use cnpg_ha.Controller.Failover.{promotion_steps, site_client_and_ref, run_promotion}
use cnpg_ha.Controller.Failover.Fenced.{IsStopped, promotion_steps-Fenced}
use cnpg_ha.Controller.Failover.Steps.{FenceEnd}
use cnpg_ha.Controller.Observation.{replication_endpoint_for}
use cnpg_ha.Controller.State.{remote_client}
use cnpg_ha.Remote.{get_or_create, load_kubeconfig, kubeconfig_of, client_from_kubeconfig}
use cnpg_ha.Controller.Failover.Retry.{promotion_steps_idem}
use cnpg_ha.Controller.Topology.{reconcile_replica_topology}
use cnpg_ha.Controller.Failover.Outcome.{run_promotion_done}
use cnpg_ha.Controller.Reconcile.{reconcile_ha}
use cnpg_ha.Controller.Reconcile.Writing.{reconcile_keeps_writers}
use cnpg_ha.Sim.Hub.{sim-HubWriteLaws}
use cnpg_ha.Controller.Topology.Pass.{Settled, topology-Settled}
use cnpg_ha.Controller.Topology.Writers.{topology_keeps_writers}
use cnpg_ha.Sim.{SimWorld, sim}
use cnpg_ha.Sim.Laws.{sim-ObjectLaws, sim-ServerLaws}
use cnpg_ha.Examples.Sites.{
  main_ref, world, reconciler, state_of, manual_ha, hub_up, east_up, west_up, east_site,
}

abbrev same : String → String
same c = c

flip-HasRole_example :
    HasRole sim "hub" main_ref role_remote
      (flip_cilium_service sim "hub" main_ref role_remote world).1
unfolding flip_cilium_service value_at lookup
flip-HasRole_example =
    flip-HasRole sim same sim-ObjectLaws sim-ServerLaws "hub" main_ref world role_remote refl

reconfigure-IsFollower_example :
    IsFollower sim "east" main_ref "hub.example"
      (reconfigure sim "east" main_ref "hub.example" world).1
unfolding reconfigure external_cluster_index index_from is_named connection_parameters Value.lookup
reconfigure-IsFollower_example =
    reconfigure-IsFollower sim same sim-ObjectLaws sim-ServerLaws "east" main_ref "hub.example"
      world refl

reconfigure_idem_example :
    let v = (reconfigure sim "east" main_ref "hub.example" world).1 in
    reconfigure sim "east" main_ref "hub.example" v ≡ (ok tt, v)
unfolding reconfigure external_cluster_index index_from is_named connection_parameters Value.lookup
reconfigure_idem_example =
    reconfigure_idem sim same sim-ObjectLaws sim-ServerLaws "east" main_ref "hub.example" world refl

externals-reconfigure_example :
    let v = (reconfigure sim "east" main_ref "hub.example" world).1 in
    (externals_in sim same sim-ObjectLaws sim-ServerLaws "east" main_ref "hub.example" world v
      ≡ externals_in sim same sim-ObjectLaws sim-ServerLaws "east" main_ref "hub.example" world
          world)
    ⊎ Rehosted sim same sim-ObjectLaws sim-ServerLaws "east" main_ref "hub.example" world v
externals-reconfigure_example =
    externals-reconfigure sim same sim-ObjectLaws sim-ServerLaws "east" main_ref "hub.example" world

-- The hub's server refuses the update, so nothing is promoted.
abbrev refusing : SimWorld
refusing = record world { refuses = λ c. c == "hub" }

abbrev old_server : String
old_server = "hub"

hub_not_east : old_server ≢ "east"
hub_not_east e = ground (arith, (eq_iff "hub" "east").1 e)

promotion_steps-Fenced_example :
    FenceEnd sim same sim-ObjectLaws sim-ServerLaws "hub" main_ref "east" main_ref refusing
      (promotion_steps sim "hub" main_ref "east" main_ref refusing).1
    ⊎ IsStopped sim same sim-ObjectLaws sim-ServerLaws "hub" main_ref "east" main_ref
        (inl (λ e. hub_not_east (sym e)))
        refusing
promotion_steps-Fenced_example =
    promotion_steps-Fenced sim same sim-ObjectLaws sim-ServerLaws "hub" main_ref "east" main_ref
      (inl (λ e. hub_not_east (sym e))) refusing

topology_keeps_writers_example :
    HasPrimary sim true "hub" main_ref
      (reconcile_replica_topology sim reconciler "east" hub_up
        (east_up ∷ west_up ∷ [])
        (state_of manual_ha)).1.world
unfolding probe parse_cluster
topology_keeps_writers_example =
    topology_keeps_writers sim same sim-ObjectLaws sim-ServerLaws "hub" main_ref reconciler "east"
      hub_up (east_up ∷ west_up ∷ []) (state_of manual_ha) refl (refl, refl)

promotion_steps_idem_example :
    let v = (promotion_steps sim "hub" main_ref "east" main_ref world).1 in
    promotion_steps sim "hub" main_ref "east" main_ref v ≡ (ok tt, v)
unfolding promotion_steps fence promote flip_cilium_service value_at lookup
promotion_steps_idem_example =
    promotion_steps_idem sim same sim-ObjectLaws sim-ServerLaws "hub" main_ref "east" main_ref world
      hub_not_east refl refl refl

-- The hub was the primary and east is now.
run_promotion_done_example :
    let after = (run_promotion sim reconciler "hub" east_site (state_of manual_ha)).1.world in
    FenceEnd sim same sim-ObjectLaws sim-ServerLaws "hub" main_ref "east" main_ref world after
    × HasPrimary sim true "east" main_ref after
    × HasRole sim "east" main_ref role_local after
unfolding run_promotion remote_client get_or_create load_kubeconfig kubeconfig_of lookup
    client_from_kubeconfig promotion_steps fence promote flip_cilium_service value_at
run_promotion_done_example =
    run_promotion_done sim reconciler "hub" east_site (state_of manual_ha) "hub" main_ref "east"
      same sim-ObjectLaws sim-ServerLaws refl refl (inl hub_not_east) refl

topology-Settled_example :
    let pass =
      reconcile_replica_topology sim reconciler "hub" hub_up (east_up ∷ []) (state_of manual_ha) in
    Settled sim reconciler same sim-ObjectLaws sim-ServerLaws "hub" "hub.example" "Manual"
      (hub_up ∷ east_up ∷ [])
      (state_of manual_ha)
      pass.1.world
unfolding reconcile_replica_topology replication_endpoint_for site_client_and_ref remote_client
    get_or_create load_kubeconfig kubeconfig_of lookup client_from_kubeconfig probe parse_cluster
    reconfigure external_cluster_index index_from is_named Value.lookup connection_parameters
topology-Settled_example =
    topology-Settled sim reconciler same sim-ObjectLaws sim-ServerLaws "hub" hub_up (east_up ∷ [])
      (state_of manual_ha) refl refl refl

reconcile_keeps_writers_example :
    HasPrimary sim true "hub" main_ref (reconcile_ha sim reconciler (state_of manual_ha)).1.world
unfolding probe parse_cluster
reconcile_keeps_writers_example =
    reconcile_keeps_writers sim same sim-ObjectLaws sim-ServerLaws sim-HubWriteLaws "hub" main_ref
      reconciler (state_of manual_ha) refl (refl, refl)
