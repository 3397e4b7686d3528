-- ===== src/Controller/Frame/Sites.antt =====
-- The promotion, the topology and the observations within a frame of the sites.
use cnpg_ha.Base.{ℕ, String, ◌==◌, none, some, Option, List, [], ◌∷◌}
use cnpg_ha.Base.Exec.{Exec}
use cnpg_ha.Base.Moves.{Order, Moves, moves_rules, branch, bind-Moves, pure-Moves}
use cnpg_ha.Api.{ReplicaSite, RejoinPolicy}
use cnpg_ha.Health.{SiteHealth}
use cnpg_ha.Platform.{Platform, Ref}
use cnpg_ha.Promotion.Writes.{HasSteps}
use cnpg_ha.Controller.Observation.{SiteObservation, find_replica}
use cnpg_ha.Promotion.{ServiceRole, fence, promote, reconfigure, flip_cilium_service}
use cnpg_ha.Controller.State.{Reconciler, State, on_world}
use cnpg_ha.Controller.Failover.{
  Place, promotion_steps, unless_not_found, replica_place, site_client_and_ref, run_with,
  run_promotion,
}
use cnpg_ha.Controller.Frame.{
  ClientFrame, PassFrame, PromotionFrame, WorldOf, remote_client-Moves, event-Moves,
}
use cnpg_ha.Controller.Observe.{observe_replica, observe_replicas}
use cnpg_ha.Controller.Topology.{
  converge, converge_at, converge_site, converge_all, reconcile_replica_topology,
}

unless_not_found-Moves :
    {S : Type 0} {Q : S → S → Type 0} (f : String) (m : Exec S (Unit {0}))
    → Moves Q m
    → Moves Q (unless_not_found f m)
unless_not_found-Moves f m mm = record { at = mm.at }

module _ (p : Platform) (Q : p.World → p.World → Type 0) ⦃u : HasSteps p Q⦄ where
  open p use {Client}

  instance abbrev steps_order : Order Q
  steps_order = u.order

  fence_step-Moves : (cli : Client) (ref : Ref) → Moves Q (fence p cli ref)
  fence_step-Moves cli ref = record { at = u.fenced cli ref }

  promote_step-Moves : (cli : Client) (ref : Ref) → Moves Q (promote p cli ref)
  promote_step-Moves cli ref = record { at = u.promoted cli ref }

  flip_step-Moves :
      (cli : Client) (ref : Ref) (role : ServiceRole) → Moves Q (flip_cilium_service p cli ref role)
  flip_step-Moves cli ref role = record { at = u.flipped cli ref role }

  promotion_steps-Moves :
      (old_cli : Client) (old_ref : Ref) (new_cli : Client) (new_ref : Ref)
      → Moves Q (promotion_steps p old_cli old_ref new_cli new_ref)
  unfolding promotion_steps
  promotion_steps-Moves old_cli old_ref new_cli new_ref =
      search
        (moves_rules, unless_not_found-Moves, fence_step-Moves, promote_step-Moves, flip_step-Moves)
        depth 12

module _ (p : Platform) (r : Reconciler p) (R : State p → State p → Type 0)
    ⦃f : ClientFrame p r R⦄ where
  instance abbrev client_order : Order R
  client_order = f.order

  replica_place-Moves : (o : Option (ReplicaSite × ℕ)) → Moves R (replica_place p r o)
  unfolding replica_place
  replica_place-Moves none = search moves_rules
  replica_place-Moves (some (rep, i)) = record {
    at = λ s. (remote_client-Moves p r R s.ha.namespace rep.kubeconfig_secret_ref).at s;
  }

  pub site_client_and_ref-Moves : (name : String) → Moves R (site_client_and_ref p r name)
  unfolding site_client_and_ref
  site_client_and_ref-Moves name = record {
    at = λ s.
        branch R s (name == s.ha.spec.primary.name) _ _ (f.order.stay s)
          ((replica_place-Moves (find_replica s.ha name)).at s);
  }

  observe_replica-Moves : (rep : ReplicaSite) → Moves R (observe_replica p r rep)
  unfolding observe_replica
  observe_replica-Moves rep = record {
    at = λ s. (remote_client-Moves p r R s.ha.namespace rep.kubeconfig_secret_ref).at s;
  }

  pub observe_replicas-Moves : (reps : List ReplicaSite) → Moves R (observe_replicas p r reps)
  unfolding observe_replicas
  observe_replicas-Moves [] = search moves_rules
  observe_replicas-Moves (rep ∷ reps) =
      bind-Moves _ _ (observe_replica-Moves rep)
        (λ o. bind-Moves _ _ (observe_replicas-Moves reps) (λ os. pure-Moves (o ∷ os)))

module _ (p : Platform) (r : Reconciler p) (R : State p → State p → Type 0)
    (effective_primary endpoint : String) (rejoin : RejoinPolicy)
    ⦃f : PassFrame p r endpoint R⦄ where
  open p use {Client}

  instance abbrev pass_clients : ClientFrame p r R
  pass_clients = f.clients

  instance abbrev pass_order : Order R
  pass_order = f.clients.order

  fence_at-Moves : (cli : Client) (ref : Ref) → Moves R (on_world p r (fence p cli ref))
  fence_at-Moves cli ref = record { at = f.fenced cli ref }

  reconfigure_at-Moves :
      (cli : Client) (ref : Ref) → Moves R (on_world p r (reconfigure p cli ref endpoint))
  reconfigure_at-Moves cli ref = record { at = f.repointed cli ref }

  converge-Moves :
      (name : String) (cli : Client) (ref : Ref) (fresh : SiteHealth)
      → Moves R (converge p r effective_primary endpoint rejoin name cli ref fresh)
  unfolding converge
  converge-Moves name cli ref fresh =
      search (moves_rules, fence_at-Moves, reconfigure_at-Moves, event-Moves) depth 12

  converge_at-Moves :
      (name : String) (place : Place p r)
      → Moves R (converge_at p r effective_primary endpoint rejoin name place)
  unfolding converge_at
  converge_at-Moves name none = search moves_rules
  converge_at-Moves name (some (cli, ref)) = search (moves_rules, converge-Moves)

  pub converge_site-Moves :
      (obs : SiteObservation) → Moves R (converge_site p r effective_primary endpoint rejoin obs)
  unfolding converge_site
  converge_site-Moves obs = search (moves_rules, site_client_and_ref-Moves, converge_at-Moves)

  pub converge_all-Moves :
      (sites : List SiteObservation)
      → Moves R (converge_all p r effective_primary endpoint rejoin sites)
  unfolding converge_all
  converge_all-Moves [] = search moves_rules
  converge_all-Moves (obs ∷ rest) =
      bind-Moves _ _ (converge_site-Moves obs) (λ x. converge_all-Moves rest)

module _ (p : Platform) (r : Reconciler p) (R : State p → State p → Type 0)
    ⦃f : PromotionFrame p r R⦄ where
  open p use {Client}

  instance abbrev promotion_clients : ClientFrame p r R
  promotion_clients = f.clients

  instance abbrev promotion_order : Order R
  promotion_order = f.clients.order

  steps_at-Moves :
      (old_cli : Client) (old_ref : Ref) (new_cli : Client) (new_ref : Ref)
      → Moves R (on_world p r (promotion_steps p old_cli old_ref new_cli new_ref))
  steps_at-Moves old_cli old_ref new_cli new_ref = record {
    at = λ s.
        (promotion_steps-Moves p (WorldOf p r R) ⦃u = f.steps⦄ old_cli old_ref new_cli new_ref).at
          s.world s;
  }

  run_with-Moves :
      (old_name : String) (target : ReplicaSite) (place : Place p r)
      → Moves R (run_with p r old_name target place)
  unfolding run_with
  run_with-Moves old_name target none = search moves_rules
  run_with-Moves old_name target (some (old_cli, old_ref)) =
      search (moves_rules, remote_client-Moves, steps_at-Moves) depth 12

  pub run_promotion-Moves :
      (old_name : String) (target : ReplicaSite) → Moves R (run_promotion p r old_name target)
  unfolding run_promotion
  run_promotion-Moves old_name target =
      search (moves_rules, site_client_and_ref-Moves, run_with-Moves) depth 12

module _ (p : Platform) (r : Reconciler p) (R : State p → State p → Type 0) ⦃o : Order R⦄ where
  pub reconcile_replica_topology-Moves :
      (passes : (endpoint : String) → PassFrame p r endpoint R) (effective_primary : String)
      (primary_obs : SiteObservation) (replica_obs : List SiteObservation)
      → Moves R (reconcile_replica_topology p r effective_primary primary_obs replica_obs)
  unfolding reconcile_replica_topology
  reconcile_replica_topology-Moves passes effective_primary primary_obs replica_obs =
      search (moves_rules, converge_all-Moves, passes) depth 12
