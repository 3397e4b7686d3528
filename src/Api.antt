-- ===== src/Api.antt =====
-- The HACluster resource: api/v1alpha1/hacluster_types.go, with the parts of the Kubernetes
-- metadata that the controller reads. The Go enumerations are string types, and hand-built
-- objects bypass their validation, so they stay strings here.
use cnpg_ha.Base.{ℕ, String, Bool, Option, List, Map}
use cnpg_ha.Base.Int.{ℤ}
use cnpg_ha.Base.Message.{Text}

abbrev pub FailoverMode : Type 0
FailoverMode = String

abbrev pub failover_mode_automatic : FailoverMode
failover_mode_automatic = "Automatic"

abbrev pub failover_mode_manual : FailoverMode
failover_mode_manual = "Manual"

abbrev pub PromotionPolicy : Type 0
PromotionPolicy = String

abbrev pub promotion_policy_most_advanced_lsn : PromotionPolicy
promotion_policy_most_advanced_lsn = "MostAdvancedLSN"

abbrev pub promotion_policy_ordered : PromotionPolicy
promotion_policy_ordered = "Ordered"

abbrev pub RejoinPolicy : Type 0
RejoinPolicy = String

abbrev pub rejoin_policy_manual : RejoinPolicy
rejoin_policy_manual = "Manual"

abbrev pub rejoin_policy_auto_replica : RejoinPolicy
rejoin_policy_auto_replica = "AutoReplica"

pub data SiteRole : Type 0 where
  role_primary role_replica role_unknown : SiteRole

-- A time in nanoseconds, and the 64 bits of a float64.
abbrev pub Time : Type 0
Time = ℕ

abbrev pub Float64 : Type 0
Float64 = ℕ

pub record ClusterRef : Type 0 where
  pub name : String
  pub namespace : String

pub record SecretKeySelector : Type 0 where
  pub name : String
  pub key : String

pub record PostgresProbe : Type 0 where
  pub endpoint : String
  pub port : ℤ
  pub database : String
  pub ssl_mode : String
  pub user_secret_ref : SecretKeySelector
  pub password_secret_ref : SecretKeySelector

pub record PrimarySite : Type 0 where
  pub name : String
  pub cluster_ref : ClusterRef
  pub replication_endpoint : String
  pub postgres_probe : Option PostgresProbe

pub record ReplicaSite : Type 0 where
  pub name : String
  pub kubeconfig_secret_ref : SecretKeySelector
  pub cluster_ref : ClusterRef
  pub replication_endpoint : String
  pub postgres_probe : Option PostgresProbe

pub record FailoverSpec : Type 0 where
  pub mode : FailoverMode
  pub health_check_interval_seconds : ℤ
  pub failure_threshold : ℤ
  pub promotion_policy : PromotionPolicy
  pub rejoin_policy : RejoinPolicy

pub record HaClusterSpec : Type 0 where
  pub primary : PrimarySite
  pub replicas : List ReplicaSite
  pub failover : FailoverSpec

pub record SiteStatus : Type 0 where
  pub name : String
  pub role : SiteRole
  pub reachable : Bool
  pub ready : Bool
  pub phase : String
  pub message : Text
  pub last_observed_time : Option Time
  pub current_lsn : String
  pub replication_lag_milliseconds : Option ℤ

-- metav1.Condition.
pub record Condition : Type 0 where
  pub kind : String
  pub status : String
  pub reason : String
  pub message : Text
  pub last_transition_time : Time
  pub observed_generation : ℤ

pub record HaClusterStatus : Type 0 where
  pub current_primary_site : String
  pub last_failover_time : Option Time
  pub observed_generation : ℤ
  pub sites : List SiteStatus
  pub conditions : List Condition

-- `namespace`, `name`, `generation` and `annotations` are those of metav1.ObjectMeta.
pub record HaCluster : Type 0 where
  pub namespace : String
  pub name : String
  pub generation : ℤ
  pub annotations : Map String
  pub spec : HaClusterSpec
  pub status : HaClusterStatus
