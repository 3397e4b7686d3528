-- ===== src/Metrics.antt =====
-- internal/metrics/metrics.go: what the operator tells the Prometheus collectors. The collectors
-- are not the program's, so a call of theirs is a value, and a function that makes calls returns
-- their list. The labels stand in the order of each collector's declaration.
pub mod Registry
use cnpg_ha.Base.{String, Bool, true, false, List, [], ◌∷◌, Map}
use cnpg_ha.Api.{Float64}

pub data Collector : Type 0 where
  current_primary_site site_reachable site_ready replica_lag_seconds replica_lag_bytes : Collector
  site_current_lsn_bytes site_lsn_info split_brain failover_total failover_duration_seconds :
      Collector

-- The labels that each collector is declared with.
unfoldable pub label_names : Collector → List String
label_names site_lsn_info = "hacluster" ∷ "namespace" ∷ "site" ∷ "lsn" ∷ []
label_names split_brain = "hacluster" ∷ "namespace" ∷ []
label_names failover_total = "hacluster" ∷ "namespace" ∷ "mode" ∷ []
label_names failover_duration_seconds = "hacluster" ∷ "namespace" ∷ "mode" ∷ []
label_names current_primary_site = "hacluster" ∷ "namespace" ∷ "site" ∷ []
label_names site_reachable = "hacluster" ∷ "namespace" ∷ "site" ∷ []
label_names site_ready = "hacluster" ∷ "namespace" ∷ "site" ∷ []
label_names replica_lag_seconds = "hacluster" ∷ "namespace" ∷ "site" ∷ []
label_names replica_lag_bytes = "hacluster" ∷ "namespace" ∷ "site" ∷ []
label_names site_current_lsn_bytes = "hacluster" ∷ "namespace" ∷ "site" ∷ []

-- The collectors that MustRegister registers.
unfoldable pub registered : List Collector
registered =
    current_primary_site ∷ site_reachable ∷ site_ready ∷ replica_lag_seconds ∷ replica_lag_bytes
    ∷ site_current_lsn_bytes ∷ site_lsn_info ∷ split_brain ∷ failover_total
    ∷ failover_duration_seconds ∷ []

-- WithLabelValues(…).Set, DeleteLabelValues, DeletePartialMatch, Inc and Observe.
pub data Call : Type 0 where
  set : Collector → List String → Float64 → Call
  delete_values : Collector → List String → Call
  delete_partial_match : Collector → Map String → Call
  inc : Collector → List String → Call
  observe : Collector → List String → Float64 → Call

-- The bits of 1.0 and 0.0.
abbrev pub float_one : Float64
float_one = 0x3FF0000000000000

abbrev pub float_zero : Float64
float_zero = 0

unfoldable pub bool_gauge : Bool → Float64
bool_gauge true = float_one
bool_gauge false = float_zero

module _ (ha_namespace ha_name : String) where
  abbrev pub site_labels : String → List String
  site_labels site = ha_name ∷ ha_namespace ∷ site ∷ []

  unfoldable pub set_site : String → Bool → Bool → Bool → List Call
  unfolding bool_gauge
  set_site site is_primary reachable ready =
      set current_primary_site (site_labels site) (bool_gauge is_primary)
      ∷ set site_reachable (site_labels site) (bool_gauge reachable)
      ∷ set site_ready (site_labels site) (bool_gauge ready)
      ∷ []

  unfoldable pub set_replica_lag : String → Float64 → List Call
  set_replica_lag site seconds = set replica_lag_seconds (site_labels site) seconds ∷ []

  unfoldable pub clear_replica_lag : String → List Call
  clear_replica_lag site = delete_values replica_lag_seconds (site_labels site) ∷ []

  unfoldable pub set_replica_lag_bytes : String → Float64 → List Call
  set_replica_lag_bytes site bytes = set replica_lag_bytes (site_labels site) bytes ∷ []

  unfoldable pub clear_replica_lag_bytes : String → List Call
  clear_replica_lag_bytes site = delete_values replica_lag_bytes (site_labels site) ∷ []

  unfoldable pub set_site_current_lsn_bytes : String → Float64 → List Call
  set_site_current_lsn_bytes site bytes = set site_current_lsn_bytes (site_labels site) bytes ∷ []

  unfoldable pub clear_site_current_lsn_bytes : String → List Call
  clear_site_current_lsn_bytes site = delete_values site_current_lsn_bytes (site_labels site) ∷ []

  abbrev pub site_match : String → Map String
  site_match site = ("hacluster", ha_name) ∷ ("namespace", ha_namespace) ∷ ("site", site) ∷ []

  unfoldable pub set_site_lsn_info : String → String → List Call
  set_site_lsn_info site lsn =
      delete_partial_match site_lsn_info (site_match site)
      ∷ set site_lsn_info (ha_name ∷ ha_namespace ∷ site ∷ lsn ∷ []) float_one
      ∷ []

  unfoldable pub clear_site_lsn_info : String → List Call
  clear_site_lsn_info site = delete_partial_match site_lsn_info (site_match site) ∷ []

  unfoldable pub set_split_brain : Bool → List Call
  unfolding bool_gauge
  set_split_brain b = set split_brain (ha_name ∷ ha_namespace ∷ []) (bool_gauge b) ∷ []

  unfoldable pub inc_failover : String → List Call
  inc_failover mode = inc failover_total (ha_name ∷ ha_namespace ∷ mode ∷ []) ∷ []

  unfoldable pub observe_failover_duration : String → Float64 → List Call
  observe_failover_duration mode seconds =
      observe failover_duration_seconds (ha_name ∷ ha_namespace ∷ mode ∷ []) seconds ∷ []
