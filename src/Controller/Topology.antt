-- ===== src/Controller/Topology.antt =====
-- reconcileReplicaTopology: every site but the primary follows it, or is fenced.
pub mod Writers
pub mod Rounds
pub mod Pass
use cnpg_ha.Base.{String, not, none, some, List, [], ◌∷◌, ◌==◌, if◌then◌else◌}
use cnpg_ha.Base.Message.{sprintf, str, end, arg}
use cnpg_ha.Base.Exec.{Exec, pure, gets, wrap, ◌>>=◌, ◌>>◌}
use cnpg_ha.Api.{RejoinPolicy, FailoverSpec, rejoin_policy_manual, rejoin_policy_auto_replica}
use cnpg_ha.Health.{SiteHealth, probe}
use cnpg_ha.Platform.{Platform, Ref}
use cnpg_ha.Promotion.{fence, reconfigure}
use cnpg_ha.Controller.Observation.{SiteObservation, replication_endpoint_for}
use cnpg_ha.Controller.State.{Reconciler, State, warning, on_world, event}
use cnpg_ha.Controller.Failover.{Place, site_client_and_ref}

abbrev pub rejoin_policy_of : FailoverSpec → RejoinPolicy
rejoin_policy_of f = if f.rejoin_policy == "" then rejoin_policy_manual else f.rejoin_policy

module _ (p : Platform) (r : Reconciler p) (effective_primary endpoint : String)
    (rejoin : RejoinPolicy) where
  open p use {Client}

  -- The site by what a fresh probe finds there.
  unfoldable pub converge : String → Client → Ref → SiteHealth → Exec (State p) (Unit {0})
  converge name cli ref fresh =
      if not fresh.reachable
      then pure tt
      else if not fresh.primary
      then wrap "repoint replica %q to %q: %w" (arg (str name) (arg (str effective_primary) end))
          (on_world p r (reconfigure p cli ref endpoint))
      else if rejoin == rejoin_policy_auto_replica
      then (do
        wrap "auto-rejoin %q as replica: %w" (arg (str name) end)
            (on_world p r (reconfigure p cli ref endpoint))
        event p r warning "RejoinReconfigured" (
            sprintf "returning primary %q rebuilt as replica of %q (data discarded)"
              (arg (str name) (arg (str effective_primary) end))))
      else (do
        wrap "fence returning primary %q: %w" (arg (str name) end) (on_world p r (fence p cli ref))
        event p r warning "RejoinFenced" (
            sprintf
              "returning primary %q fenced (rejoinPolicy=Manual); resolve split-brain manually"
              (arg (str name) end)))

  unfoldable pub converge_at : String → Place p r → Exec (State p) (Unit {0})
  unfolding converge
  converge_at name none = pure tt
  converge_at name (some (cli, ref)) = do
    fresh ← gets (λ s. probe p cli ref s.world)
    converge name cli ref fresh

  -- One round of the loop.
  unfoldable pub converge_site : SiteObservation → Exec (State p) (Unit {0})
  unfolding converge_at
  converge_site obs =
      if obs.name == effective_primary
      then pure tt
      else do place ← site_client_and_ref p r obs.name; converge_at obs.name place

  unfoldable pub converge_all : List SiteObservation → Exec (State p) (Unit {0})
  unfolding converge_site
  converge_all [] = pure tt
  converge_all (obs ∷ rest) = do converge_site obs; converge_all rest

module _ (p : Platform) (r : Reconciler p) where
  unfoldable pub reconcile_replica_topology :
      String → SiteObservation → List SiteObservation → Exec (State p) (Unit {0})
  unfolding converge_all
  reconcile_replica_topology effective_primary primary_obs replica_obs = do
    ha ← gets (λ s. s.ha)
    let endpoint = replication_endpoint_for ha effective_primary
    if effective_primary == ""
        then pure tt
        else if endpoint == ""
        then pure tt
        else converge_all p r effective_primary endpoint (rejoin_policy_of ha.spec.failover)
            (primary_obs ∷ replica_obs)
