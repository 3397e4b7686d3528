-- ===== src/Controller/Observe/Coverage.antt =====
-- The observations of a reconcile, one for each site of the spec.
use cnpg_ha.Base.{
  String, List, [], ◌∷◌, map, Option, none, some, ◌≡◌, refl, inl, inr, not, ◌||◌, Bool-cases,
}
use mathlib.Core.Path.{ap₂}
use cnpg_ha.Base.Exec.{Result, ok, err}
use cnpg_ha.Api.{ClusterRef, PostgresProbe, ReplicaSite}
use cnpg_ha.Platform.{Platform}
use cnpg_ha.Postgres.{Config, ProbeResult}
use cnpg_ha.Controller.Observation.{SiteObservation, site_obs_from_health}
use cnpg_ha.Controller.State.{Reconciler, State, remote_client}
use cnpg_ha.Controller.Observe.{
  probed, probed_with, postgres_probe_config, probe_postgres, observed_at, observe_replica,
  observe_replicas,
}

module _ (p : Platform) (r : Reconciler p) where
  probed_name : (obs : SiteObservation) (x : Result ProbeResult) → (probed obs x).name ≡ obs.name
  unfolding probed
  probed_name obs (err e) = refl
  probed_name obs (ok got) = refl

  probed_with_name :
      (obs : SiteObservation) (w : p.World) (x : Result Config)
      → (probed_with p r obs w x).name ≡ obs.name
  unfolding probed_with
  probed_with_name obs w (err e) = refl
  probed_with_name obs w (ok cfg) = probed_name obs _

  probe_postgres_name :
      (obs : SiteObservation) (cli : p.Client) (ref : ClusterRef) (endpoint : String)
      (spec : Option PostgresProbe) (w : p.World)
      → (probe_postgres p r obs cli ref endpoint spec w).name ≡ obs.name
  unfolding probe_postgres
  probe_postgres_name obs cli ref endpoint none w = refl
  probe_postgres_name obs cli ref endpoint (some spec) w =
      elim (Bool-cases (not obs.reachable || not obs.ready)) [
        | inl h ↦ rw h refl
        | inr h ↦
            rw h
              (probed_with_name obs w (postgres_probe_config p cli ref.namespace endpoint spec w))
      ]

  observed_name :
      (rep : ReplicaSite) (w : p.World) (x : Result p.Client)
      → (observed_at p r rep w x).name ≡ rep.name
  unfolding observed_at site_obs_from_health
  observed_name rep w (err e) = refl
  observed_name rep w (ok cli) = probe_postgres_name _ cli rep.cluster_ref _ rep.postgres_probe w

  -- Every site of the list is observed, in its order, and the world and the HACluster are as before.
  pub record Covers (reps : List ReplicaSite) (s : State p)
      (run : Result (List SiteObservation) × State p) : Type 0 where
    pub observed : List SiteObservation
    pub succeeds : run.0 ≡ ok observed
    pub in_order : map (λ o. o.name) observed ≡ map (λ rep. rep.name) reps
    pub world_kept : run.1.world ≡ s.world
    pub ha_kept : run.1.ha ≡ s.ha

  -- Observing the replicas does not fail, whatever fails at a site: it makes one observation for each
  -- replica of the spec, in the order of the spec, and leaves the world and the HACluster as they are.
  pub observe_replicas-Covers :
      (reps : List ReplicaSite) (s : State p) → Covers reps s (observe_replicas p r reps s)
  unfolding observe_replicas observe_replica remote_client
  observe_replicas-Covers [] s = record {
    observed = [];
    succeeds = refl;
    in_order = refl;
    world_kept = refl;
    ha_kept = refl;
  }
  observe_replicas-Covers (rep ∷ reps) s =
      let (x, t) = remote_client p r s.ha.namespace rep.kubeconfig_secret_ref s in
      let rest = observe_replicas-Covers reps t in
      record {
        observed = observed_at p r rep t.world x ∷ rest.observed;
        succeeds = rw rest.succeeds refl;
        in_order = ap₂ (λ n l. n ∷ l) (observed_name rep t.world x) rest.in_order;
        world_kept = rw rest.succeeds rest.world_kept;
        ha_kept = rw rest.succeeds rest.ha_kept;
      }
