-- ===== src/Controller/Status/Gauges/Parts.antt =====
-- What the parts of a round of publishMetrics make of the series of its site.
use cnpg_ha.Base.{
  ℕ, String, Bool, true, false, ◌&&◌, Option, none, some, List, [], ◌∷◌, nat_eq, ◌==◌,
  if◌then◌else◌, ◌≡◌, refl, inl, inr, Bool-cases, eq_refl,
}
use cnpg_ha.Api.{HaCluster, Float64}
use cnpg_ha.Metrics
use cnpg_ha.Metrics.{
  Collector, current_primary_site, site_reachable, site_ready, replica_lag_seconds,
  replica_lag_bytes, site_current_lsn_bytes, site_lsn_info, split_brain, failover_total,
  failover_duration_seconds, Call, set, float_one, float_zero, bool_gauge, label_names, site_match,
}
use cnpg_ha.Metrics.Registry.{number, same_values, Registry, told_all}
use cnpg_ha.Platform.{Platform}
use cnpg_ha.Controller.Observation.{SiteObservation}
use cnpg_ha.Controller.Status.{lag_calls, behind_calls}
use cnpg_ha.Controller.Status.Gauges.{series, behind_gauge}

module _ (p : Platform) (ha : HaCluster) (g : Registry) where
  -- A series is the one that a call with its labels sets.
  pub same_site : (site : String) → same_values (series p ha site []) (series p ha site []) ≡ true
  same_site site = rw (eq_refl ha.name, eq_refl ha.namespace, eq_refl site) refl

  -- The last two parts of a round, by their tests.
  abbrev pub position_calls : SiteObservation → Bool → List Call
  position_calls o known =
      if known
      then Metrics.set_site_current_lsn_bytes ha.namespace ha.name o.name (p.of_ℕ o.lsn_value)
      else Metrics.clear_site_current_lsn_bytes ha.namespace ha.name o.name

  abbrev pub text_calls : SiteObservation → Bool → List Call
  text_calls o shown =
      if shown
      then Metrics.set_site_lsn_info ha.namespace ha.name o.name o.lsn
      else Metrics.clear_site_lsn_info ha.namespace ha.name o.name

  module _ (o : SiteObservation) where
    pub lag_told :
        (lag v : Option Float64)
        → told_all g (lag_calls p ha o.name lag) replica_lag_seconds (series p ha o.name []) v ≡ lag
    unfolding Metrics.set_replica_lag Metrics.clear_replica_lag
    lag_told none v = rw (same_site o.name) refl
    lag_told (some x) v = rw (same_site o.name) refl

    pub behind_told :
        (bytes : Option ℕ) (v : Option Float64)
        → told_all g (behind_calls p ha o.name bytes) replica_lag_bytes (series p ha o.name []) v
          ≡ behind_gauge p ha bytes
    unfolding Metrics.set_replica_lag_bytes Metrics.clear_replica_lag_bytes
    behind_told none v = rw (same_site o.name) refl
    behind_told (some x) v = rw (same_site o.name) refl

    pub position_told :
        (known : Bool) (v : Option Float64)
        → told_all g (position_calls o known) site_current_lsn_bytes (series p ha o.name []) v
          ≡ (if known then some (p.of_ℕ o.lsn_value) else none)
    unfolding Metrics.set_site_current_lsn_bytes Metrics.clear_site_current_lsn_bytes
    position_told true v = rw (same_site o.name) refl
    position_told false v = rw (same_site o.name) refl

    pub text_told :
        (shown : Bool) (text : String) (v : Option Float64)
        → told_all g (text_calls o shown) site_lsn_info (series p ha o.name (text ∷ [])) v
          ≡ (if shown && (o.lsn == text) then some float_one else none)
    unfolding Metrics.set_site_lsn_info Metrics.clear_site_lsn_info label_names
    text_told true text v = elim (Bool-cases (o.lsn == text)) [
      | inl h ↦ rw (h, eq_refl ha.name, eq_refl ha.namespace, eq_refl o.name) refl
      | inr h ↦ rw (h, eq_refl ha.name, eq_refl ha.namespace, eq_refl o.name) refl
    ]
    text_told false text v = rw (eq_refl ha.name, eq_refl ha.namespace, eq_refl o.name) refl

    -- Calls of one collector leave the series of the others.
    pub lag_elsewhere :
        (lag : Option Float64) (c : Collector) (xs : List String) (v : Option Float64)
        → nat_eq 3 (number c) ≡ false
        → told_all g (lag_calls p ha o.name lag) c xs v ≡ v
    unfolding Metrics.set_replica_lag Metrics.clear_replica_lag
    lag_elsewhere none c xs v h = rw h refl
    lag_elsewhere (some x) c xs v h = rw h refl

    pub behind_elsewhere :
        (bytes : Option ℕ) (c : Collector) (xs : List String) (v : Option Float64)
        → nat_eq 4 (number c) ≡ false
        → told_all g (behind_calls p ha o.name bytes) c xs v ≡ v
    unfolding Metrics.set_replica_lag_bytes Metrics.clear_replica_lag_bytes
    behind_elsewhere none c xs v h = rw h refl
    behind_elsewhere (some x) c xs v h = rw h refl

    pub position_elsewhere :
        (known : Bool) (c : Collector) (xs : List String) (v : Option Float64)
        → nat_eq 5 (number c) ≡ false
        → told_all g (position_calls o known) c xs v ≡ v
    unfolding Metrics.set_site_current_lsn_bytes Metrics.clear_site_current_lsn_bytes
    position_elsewhere true c xs v h = rw h refl
    position_elsewhere false c xs v h = rw h refl

    pub text_elsewhere :
        (shown : Bool) (c : Collector) (xs : List String) (v : Option Float64)
        → nat_eq 6 (number c) ≡ false
        → told_all g (text_calls o shown) c xs v ≡ v
    unfolding Metrics.set_site_lsn_info Metrics.clear_site_lsn_info
    text_elsewhere true c xs v h = rw h refl
    text_elsewhere false c xs v h = rw h refl
