-- ===== src/Controller/Observation.antt =====
-- siteObservation and the lookups by site name.
use cnpg_ha.Base.{
  ℕ, suc, String, Bool, false, Option, none, some, List, [], ◌∷◌, ◌==◌, if◌then◌else◌,
}
use cnpg_ha.Base.Int.{ℤ, pos}
use cnpg_ha.Base.Message.{Text, joined, is_empty}
use cnpg_ha.Api.{Float64, ReplicaSite, HaCluster}
use cnpg_ha.Health.{SiteHealth}

pub record SiteObservation : Type 0 where
  pub name : String
  pub reachable : Bool
  pub primary : Bool
  pub ready : Bool
  pub phase : String
  pub reason : Text
  pub timeline_id : ℤ
  pub lsn_known : Bool
  pub lsn : String
  pub lsn_value : ℕ
  pub lag_seconds : Option Float64

-- The struct literal that gives the name and the reason only.
abbrev pub unobserved : String → Text → SiteObservation
unobserved name reason = record {
  name = name;
  reachable = false;
  primary = false;
  ready = false;
  phase = "";
  reason = reason;
  timeline_id = pos 0;
  lsn_known = false;
  lsn = "";
  lsn_value = 0;
  lag_seconds = none;
}

unfoldable pub site_obs_from_health : String → SiteHealth → SiteObservation
site_obs_from_health name h = record {
  name = name;
  reachable = h.reachable;
  primary = h.primary;
  ready = h.ready;
  phase = h.phase;
  reason = h.reason;
  timeline_id = h.timeline_id;
  lsn_known = h.lsn_known;
  lsn = h.lsn;
  lsn_value = h.lsn_value;
  lag_seconds = h.lag_seconds;
}

-- The loop over the replicas of findObservation.
unfoldable pub find_among : String → List SiteObservation → Option SiteObservation
find_among name [] = none
find_among name (r ∷ rs) = let rest = find_among name rs in if r.name == name then some r else rest

unfoldable pub find_observation :
    String → SiteObservation → List SiteObservation → Option SiteObservation
unfolding find_among
find_observation name primary replicas =
    if primary.name == name then some primary else find_among name replicas

-- The loop of findReplica, from index i on.
unfoldable pub find_replica_from : String → List ReplicaSite → ℕ → Option (ReplicaSite × ℕ)
find_replica_from name [] i = none
find_replica_from name (rep ∷ reps) i =
    let rest = find_replica_from name reps (suc i) in
    if rep.name == name then some (rep, i) else rest

unfoldable pub find_replica : HaCluster → String → Option (ReplicaSite × ℕ)
unfolding find_replica_from
find_replica ha name = find_replica_from name ha.spec.replicas 0

unfoldable pub endpoint_of : Option (ReplicaSite × ℕ) → String
endpoint_of none = ""
endpoint_of (some (rep, i)) = rep.replication_endpoint

-- The loop of replicationEndpointFor finds the replica that findReplica finds.
unfoldable pub replication_endpoint_for : HaCluster → String → String
unfolding endpoint_of find_replica
replication_endpoint_for ha name =
    if name == ha.spec.primary.name
    then ha.spec.primary.replication_endpoint
    else endpoint_of (find_replica ha name)

unfoldable pub append_reason : Text → Text → Text
unfolding is_empty
append_reason existing extra = if is_empty existing then extra else joined "; " existing extra
