-- ===== src/Controller/Observe.antt =====
-- observePrimary, observeReplica and the optional SQL probe: one observation for each site.
pub mod Coverage
use cnpg_ha.Base.{
  String, true, not, ◌||◌, Option, none, some, List, [], ◌∷◌, lookup, ◌==◌, if◌then◌else◌,
}
use cnpg_ha.Base.Message.{sprintf, errorf, wrapf, str, error, end, arg}
use cnpg_ha.Base.Exec.{Result, ok, err, Exec, pure, gets, ◌>>=◌}
use cnpg_ha.Api.{ClusterRef, SecretKeySelector, PostgresProbe, ReplicaSite}
use cnpg_ha.Health.{probe}
use cnpg_ha.Platform.{Platform, Secret}
use cnpg_ha.Postgres.{Config, ProbeResult}
use cnpg_ha.Postgres.Probe.{sql_probe}
use cnpg_ha.Controller.Observation.{
  SiteObservation, unobserved, site_obs_from_health, append_reason,
}
use cnpg_ha.Controller.State.{Reconciler, State, remote_client}
use cnpg_ha.Controller.Failover.{ref_of}

unfoldable pub key_value : String → SecretKeySelector → Option String → Result String
key_value namespace sel none = err (
    errorf "secret %s/%s has no key %q"
      (arg (str namespace) (arg (str sel.name) (arg (str sel.key) end))))
key_value namespace sel (some v) = ok v

unfoldable pub value_in : String → SecretKeySelector → Result Secret → Result String
unfolding key_value
value_in namespace sel (err e) =
    err (wrapf "get secret %s/%s: %w" (arg (str namespace) (arg (str sel.name) end)) e)
value_in namespace sel (ok secret) = key_value namespace sel (lookup sel.key secret.content)

-- The endpoint to probe: the probe's own, or that of the replication.
abbrev pub probe_endpoint : PostgresProbe → String → String
probe_endpoint spec replication_endpoint =
    if spec.endpoint == "" then replication_endpoint else spec.endpoint

-- The last two reads of postgresProbeConfig.
unfoldable pub config_of : PostgresProbe → String → Result String → Result String → Result Config
config_of spec endpoint (err e) _ = err (wrapf "read user secret: %w" end e)
config_of spec endpoint (ok user) (err e) = err (wrapf "read password secret: %w" end e)
config_of spec endpoint (ok user) (ok password) = ok (record {
  host = endpoint;
  port = spec.port;
  database = spec.database;
  user = user;
  password = password;
  ssl_mode = spec.ssl_mode;
})

-- An observation after the probe, by what the probe returned.
unfoldable pub probed : SiteObservation → Result ProbeResult → SiteObservation
unfolding append_reason
probed obs (err e) = record obs {
  reason = append_reason obs.reason (sprintf "postgres probe failed: %v" (arg (error e) end));
}
probed obs (ok got) = record obs {
  lsn_known = true;
  lsn = got.lsn;
  lsn_value = got.lsn_value;
  lag_seconds = got.lag_seconds;
}

module _ (p : Platform) where
  open p use {World, Client}

  unfoldable pub secret_value : Client → String → SecretKeySelector → World → Result String
  unfolding value_in
  secret_value cli namespace sel w =
      if sel.name == "" || sel.key == ""
      then err (errorf "secret name and key are required" end)
      else value_in namespace sel
          (p.get_secret cli (record { namespace = namespace; name = sel.name }) w)

  unfoldable pub postgres_probe_config :
      Client → String → String → PostgresProbe → World → Result Config
  unfolding config_of secret_value
  postgres_probe_config cli namespace replication_endpoint spec w =
      let endpoint = probe_endpoint spec replication_endpoint in
      if endpoint == ""
      then err (errorf "endpoint is empty" end)
      else config_of spec endpoint (secret_value cli namespace spec.user_secret_ref w)
          (secret_value cli namespace spec.password_secret_ref w)

-- The reconciler's prober, or else postgres.SQLProber.
unfoldable pub prober_of :
    (p : Platform)
    → Option (Config → p.World → Result ProbeResult)
    → Config
    → p.World
    → Result ProbeResult
unfolding sql_probe
prober_of p none = sql_probe p
prober_of p (some prober) = prober

module _ (p : Platform) (r : Reconciler p) where
  open p use {World, Client}

  unfoldable pub probed_with : SiteObservation → World → Result Config → SiteObservation
  unfolding probed prober_of
  probed_with obs w (err e) = record obs {
    reason = append_reason obs.reason (sprintf "postgres probe skipped: %v" (arg (error e) end));
  }
  probed_with obs w (ok cfg) = probed obs (prober_of p r.prober cfg w)

  -- r.probePostgres, which changes *obs.
  unfoldable pub probe_postgres :
      SiteObservation
      → Client
      → ClusterRef
      → String
      → Option PostgresProbe
      → World
      → SiteObservation
  unfolding probed_with postgres_probe_config
  probe_postgres obs cli ref replication_endpoint none w = obs
  probe_postgres obs cli ref replication_endpoint (some spec) w =
      if not obs.reachable || not obs.ready
      then obs
      else probed_with obs w (postgres_probe_config p cli ref.namespace replication_endpoint spec w)

  unfoldable pub observe_primary : Exec (State p) SiteObservation
  unfolding site_obs_from_health probe_postgres
  observe_primary = gets (λ s.
      let site = s.ha.spec.primary in
      probe_postgres
        (site_obs_from_health site.name (probe p r.client (ref_of site.cluster_ref) s.world))
        r.client site.cluster_ref site.replication_endpoint site.postgres_probe s.world)

  -- A replica, by what its cached client returned.
  unfoldable pub observed_at : ReplicaSite → p.World → Result Client → SiteObservation
  unfolding site_obs_from_health probe_postgres
  observed_at rep w (err e) =
      unobserved rep.name (sprintf "kubeconfig load failed: %v" (arg (error e) end))
  observed_at rep w (ok cli) =
      probe_postgres (site_obs_from_health rep.name (probe p cli (ref_of rep.cluster_ref) w)) cli
        rep.cluster_ref rep.replication_endpoint rep.postgres_probe w

  unfoldable pub observe_replica : ReplicaSite → Exec (State p) SiteObservation
  unfolding observed_at
  observe_replica rep s =
      let (x, s') = remote_client p r s.ha.namespace rep.kubeconfig_secret_ref s in
      (ok (observed_at rep s'.world x), s')

  -- The loop of Reconcile over the replicas.
  unfoldable pub observe_replicas : List ReplicaSite → Exec (State p) (List SiteObservation)
  unfolding observe_replica
  observe_replicas [] = pure []
  observe_replicas (rep ∷ reps) = do
    o ← observe_replica rep
    os ← observe_replicas reps
    pure (o ∷ os)
