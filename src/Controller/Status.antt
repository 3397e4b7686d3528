-- ===== src/Controller/Status.antt =====
-- What a reconcile reports: site statuses, conditions and metrics.
pub mod Lag
pub mod Sites
pub mod Conditions
pub mod Gauges
pub mod Health
use cnpg_ha.Base.{
  ℕ, ◌+◌, ◌-◌, ◌%◌, ◌^◌, String, Bool, true, false, not, ◌&&◌, ◌||◌, Option, none, some, List, [],
  ◌∷◌, ◌++◌, length, leb, ltb, ◌==◌, if◌then◌else◌,
}
use cnpg_ha.Base.Int.{ℤ}
use cnpg_ha.Base.Message.{lit, sprintf, str, names, end, arg}
use cnpg_ha.Base.Exec.{Exec, gets, ◌>>=◌, ◌>>◌}
use cnpg_ha.Api.{
  HaCluster, SiteStatus, SiteRole, role_primary, role_replica, role_unknown, Condition, Time,
  Float64,
}
use cnpg_ha.Metrics
use cnpg_ha.Metrics.{Call, float_zero}
use cnpg_ha.Platform.{Platform}
use cnpg_ha.Controller.Observation.{SiteObservation}
use cnpg_ha.Controller.State.{
  Reconciler, State, condition_available, condition_degraded, condition_split_brain,
  set_status_condition,
}

unfoldable pub role_of : SiteObservation → SiteRole
role_of obs =
    if obs.reachable then (if obs.primary then role_primary else role_replica) else role_unknown

-- The names of the sites that `collect` puts on the two lists.
unfoldable pub unreachable_names : List SiteObservation → List String
unreachable_names [] = []
unreachable_names (s ∷ ss) =
    let rest = unreachable_names ss in if not s.reachable then s.name ∷ rest else rest

unfoldable pub unready_names : List SiteObservation → List String
unready_names [] = []
unready_names (s ∷ ss) =
    let rest = unready_names ss in
    if not s.reachable then rest else if not s.ready then s.name ∷ rest else rest

abbrev pub is_empty_list : List String → Bool
is_empty_list [] = true
is_empty_list (_ ∷ _) = false

unfoldable pub available_condition : Bool → HaCluster → Time → Condition
available_condition available ha now = record {
  kind = condition_available;
  status = if available then "True" else "False";
  reason = if available then "PrimaryReady" else "PrimaryNotReady";
  message =
      if available
      then sprintf "primary site %q is CNPG-primary and ready"
          (arg (str ha.status.current_primary_site) end)
      else lit "no healthy CNPG-primary observed";
  last_transition_time = now;
  observed_generation = ha.generation;
}

unfoldable pub split_brain_condition : List String → HaCluster → Time → Condition
split_brain_condition split_brain ha now =
    let several = ltb 1 (length split_brain) in
    record {
      kind = condition_split_brain;
      status = if several then "True" else "False";
      reason = if several then "MultiplePrimariesObserved" else "NoConflict";
      message =
          if several
          then sprintf "multiple sites observed as CNPG-primary and ready: %v — writes may diverge"
              (arg (names split_brain) end)
          else lit "at most one site observed as CNPG-primary and ready";
      last_transition_time = now;
      observed_generation = ha.generation;
    }

unfoldable pub degraded_condition : List SiteObservation → HaCluster → Time → Condition
unfolding unreachable_names unready_names
degraded_condition sites ha now =
    let unreachable = unreachable_names sites in
    let unready = unready_names sites in
    record {
      kind = condition_degraded;
      status = if is_empty_list unreachable && is_empty_list unready then "False" else "True";
      reason =
          if not (is_empty_list unreachable)
          then "SitesUnreachable"
          else if not (is_empty_list unready)
          then "SitesNotReady"
          else "AllSitesHealthy";
      message =
          if not (is_empty_list unreachable)
          then sprintf "unreachable sites: %v (unready: %v)"
              (arg (names unreachable) (arg (names unready) end))
          else if not (is_empty_list unready)
          then sprintf "sites reachable but not ready: %v" (arg (names unready) end)
          else lit "all sites reachable and ready";
      last_transition_time = now;
      observed_generation = ha.generation;
    }

-- The LSN of the current primary, where it is known: the first loop of publishMetrics.
unfoldable pub primary_lsn : String → List SiteObservation → Option ℕ
primary_lsn current_primary [] = none
primary_lsn current_primary (o ∷ os) =
    let rest = primary_lsn current_primary os in
    if o.name == current_primary && o.lsn_known then some o.lsn_value else rest

-- The difference of two uint64, which wraps.
abbrev pub minus_uint64 : ℕ → ℕ → ℕ
minus_uint64 a b = (a + 2 ^ 64 - b) % 2 ^ 64

-- The WAL bytes by which a site is behind the current primary; none where one of the two LSNs is
-- not known.
unfoldable pub bytes_behind : String → Option ℕ → SiteObservation → Option ℕ
bytes_behind current_primary none obs = none
bytes_behind current_primary (some lsn) obs =
    if not obs.lsn_known
    then none
    else if obs.name == current_primary || leb lsn obs.lsn_value
    then some 0
    else some (minus_uint64 lsn obs.lsn_value)

module _ (p : Platform) where
  unfoldable pub lag_milliseconds : Option Float64 → Option ℤ
  lag_milliseconds none = none
  lag_milliseconds (some seconds) = some (p.to_millis seconds)

  unfoldable pub to_site_status : Time → SiteObservation → SiteStatus
  unfolding role_of lag_milliseconds
  to_site_status now obs = record {
    name = obs.name;
    role = role_of obs;
    reachable = obs.reachable;
    ready = obs.ready;
    phase = obs.phase;
    message = obs.reason;
    last_observed_time = some now;
    current_lsn = obs.lsn;
    replication_lag_milliseconds = lag_milliseconds obs.lag_seconds;
  }

  -- The loop of buildSiteStatuses.
  unfoldable pub statuses_of : Time → List SiteObservation → List SiteStatus
  unfolding to_site_status
  statuses_of now [] = []
  statuses_of now (o ∷ os) = to_site_status now o ∷ statuses_of now os

  unfoldable pub build_site_statuses :
      Time → SiteObservation → List SiteObservation → List SiteStatus
  unfolding statuses_of
  build_site_statuses now primary replicas = to_site_status now primary ∷ statuses_of now replicas

  module _ (ha : HaCluster) where
    abbrev lag_calls : String → Option Float64 → List Call
    lag_calls site none = Metrics.clear_replica_lag ha.namespace ha.name site
    lag_calls site (some seconds) = Metrics.set_replica_lag ha.namespace ha.name site seconds

    abbrev behind_calls : String → Option ℕ → List Call
    behind_calls site none = Metrics.clear_replica_lag_bytes ha.namespace ha.name site
    behind_calls site (some bytes) =
        Metrics.set_replica_lag_bytes ha.namespace ha.name site
          (if leb bytes 0 then float_zero else p.of_ℕ bytes)

    -- One round of the second loop of publishMetrics.
    unfoldable pub site_calls : String → Option ℕ → SiteObservation → List Call
    unfolding bytes_behind
    site_calls current_primary lsn obs =
        Metrics.set_site ha.namespace ha.name obs.name (obs.name == current_primary) obs.reachable
          obs.ready
        ++ (lag_calls obs.name obs.lag_seconds
            ++ (behind_calls obs.name (bytes_behind current_primary lsn obs)
                ++ ((if obs.lsn_known
                      then Metrics.set_site_current_lsn_bytes ha.namespace ha.name obs.name
                          (p.of_ℕ obs.lsn_value)
                      else Metrics.clear_site_current_lsn_bytes ha.namespace ha.name obs.name)
                    ++ (if obs.lsn_known && not (obs.lsn == "")
                        then Metrics.set_site_lsn_info ha.namespace ha.name obs.name obs.lsn
                        else Metrics.clear_site_lsn_info ha.namespace ha.name obs.name))))

    unfoldable pub sites_calls : String → Option ℕ → List SiteObservation → List Call
    unfolding site_calls
    sites_calls current_primary lsn [] = []
    sites_calls current_primary lsn (o ∷ os) =
        site_calls current_primary lsn o ++ sites_calls current_primary lsn os

    unfoldable pub publish_metrics :
        String → Bool → SiteObservation → List SiteObservation → List Call
    unfolding primary_lsn sites_calls
    publish_metrics current_primary split_brain primary_obs replica_obs =
        let all = primary_obs ∷ replica_obs in
        sites_calls current_primary (primary_lsn current_primary all) all
        ++ Metrics.set_split_brain ha.namespace ha.name split_brain

module _ (p : Platform) (r : Reconciler p) where
  unfoldable pub set_conditions :
      Bool → List String → SiteObservation → List SiteObservation → Exec (State p) (Unit {0})
  unfolding available_condition split_brain_condition degraded_condition
  set_conditions available split_brain primary replicas = do
    now ← gets (λ s. p.now s.world)
    ha ← gets (λ s. s.ha)
    set_status_condition p r (available_condition available ha now)
    set_status_condition p r (split_brain_condition split_brain ha now)
    set_status_condition p r (degraded_condition (primary ∷ replicas) ha now)
