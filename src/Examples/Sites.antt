-- ===== src/Examples/Sites.antt =====
-- The data of the tests.
use cnpg_ha.Base.{String, true, ◌&&◌, Option, none, some, List, [], ◌∷◌, ◌==◌, if◌then◌else◌}
use cnpg_ha.Base.Int.{pos}
use cnpg_ha.Base.Message.{lit}
use cnpg_ha.Api.{
  ReplicaSite, HaCluster, SecretKeySelector, failover_mode_automatic, failover_mode_manual,
  promotion_policy_most_advanced_lsn, FailoverMode, PromotionPolicy,
}
use cnpg_ha.Value.{Items, nil, cons, Fields, field, flag, int, str, slice, object}
use cnpg_ha.Platform.{Ref, Kind, cnpg_cluster, service, Secret}
use cnpg_ha.Sim.{Body, SimWorld, sim, path_eq, ref_eq}
use cnpg_ha.Controller.Target.{Candidate}
use cnpg_ha.Controller.Observation.{SiteObservation, unobserved}
use cnpg_ha.Controller.State.{Reconciler, State}

abbrev pub main_ref : Ref
main_ref = record { namespace = "db"; name = "pg" }

abbrev pub hub_cluster : Body
hub_cluster = record {
  labels = [];
  at_path = λ q. if path_eq q ("status" ∷ "readyInstances" ∷ []) then some (int (pos 3)) else none;
}

abbrev pub east_externals : Items
east_externals =
    cons
      (object (
        field "name" (str "hub") (
          field "connectionParameters" (object (field "host" (str "old.example") Fields.end))
            Fields.end)))
      nil

abbrev pub east_cluster : Body
east_cluster = record {
  labels = [];
  at_path = λ q.
      if path_eq q ("spec" ∷ "replica" ∷ "enabled" ∷ [])
      then some (flag true)
      else if path_eq q ("spec" ∷ "replica" ∷ "source" ∷ [])
      then some (str "hub")
      else if path_eq q ("spec" ∷ "externalClusters" ∷ [])
      then some (slice east_externals)
      else if path_eq q ("status" ∷ "readyInstances" ∷ [])
      then some (int (pos 1))
      else none;
}

abbrev pub plain_service : Body
plain_service = record { labels = ("team", "db") ∷ []; at_path = λ q. none }

abbrev pub bodies_of : Kind → String → Ref → Option Body
bodies_of cnpg_cluster c r =
    if ref_eq r main_ref
    then (if c == "hub" then some hub_cluster else if c == "east" then some east_cluster else none)
    else none
bodies_of service c r =
    if ref_eq r (record { namespace = "db"; name = "pg-rw" }) then some plain_service else none

abbrev pub east_secret_ref : SecretKeySelector
east_secret_ref = record { name = "east-kube"; key = "kubeconfig" }

abbrev pub east_secret : Secret
east_secret = record { content = ("kubeconfig", "east") ∷ []; resource_version = "7" }

abbrev pub east_site : ReplicaSite
east_site = record {
  name = "east";
  kubeconfig_secret_ref = east_secret_ref;
  cluster_ref = record { namespace = "db"; name = "pg" };
  replication_endpoint = "east.example";
  postgres_probe = none;
}

abbrev pub west_site : ReplicaSite
west_site = record east_site { name = "west"; replication_endpoint = "west.example" }

abbrev pub cluster_of : FailoverMode → PromotionPolicy → HaCluster
cluster_of mode policy = record {
  namespace = "ha";
  name = "orders";
  generation = pos 1;
  annotations = ("ha.cnpg.io/promote", "east") ∷ [];
  spec = record {
    primary = record {
      name = "hub";
      cluster_ref = record { namespace = "db"; name = "pg" };
      replication_endpoint = "hub.example";
      postgres_probe = none;
    };
    replicas = east_site ∷ west_site ∷ [];
    failover = record {
      mode = mode;
      health_check_interval_seconds = pos 10;
      failure_threshold = pos 3;
      promotion_policy = policy;
      rejoin_policy = "";
    };
  };
  status = record {
    current_primary_site = "hub";
    last_failover_time = none;
    observed_generation = pos 1;
    sites = [];
    conditions = [];
  };
}

abbrev pub manual_ha : HaCluster
manual_ha = cluster_of failover_mode_manual promotion_policy_most_advanced_lsn

abbrev pub automatic_ha : HaCluster
automatic_ha = cluster_of failover_mode_automatic promotion_policy_most_advanced_lsn

abbrev pub world : SimWorld
world = record {
  bodies = bodies_of;
  refuses = λ c. c == "down";
  secrets = λ c r.
      if c == "hub" && ref_eq r (record { namespace = "ha"; name = "east-kube" })
      then some east_secret
      else none;
  clusters = λ r. some manual_ha;
  rows = λ c. none;
  clock = 1000;
}

abbrev pub reconciler : Reconciler sim
reconciler = record { client = "hub"; has_recorder = true; prober = none }

abbrev pub state_of : HaCluster → State sim
state_of ha = record {
  world = world;
  cache = [];
  fail_count = λ k. 0;
  ha = ha;
  events = [];
  metrics = [];
}

-- Observations: a healthy primary, a failed one, and two replicas, the second further ahead.
abbrev pub hub_up : SiteObservation
hub_up = record (unobserved "hub" (lit "")) { reachable = true; primary = true; ready = true }

abbrev pub hub_down : SiteObservation
hub_down = unobserved "hub" (lit "get cnpg cluster")

abbrev pub replica_at : String → SiteObservation
replica_at name = record (unobserved name (lit "")) { reachable = true; ready = true }

abbrev pub east_up : SiteObservation
east_up = record (replica_at "east") { lsn_known = true; lsn_value = 100 }

abbrev pub west_up : SiteObservation
west_up = record (replica_at "west") { lsn_known = true; lsn_value = 200 }

abbrev pub replicas : List SiteObservation
replicas = east_up ∷ west_up ∷ []

abbrev pub west_candidate : Candidate
west_candidate = record { index = 1; site = west_site; obs = west_up }
