-- ===== src/Controller/Status/Gauges.antt =====
-- publishMetrics and the collectors together: what a scrape reads after a reconcile's report.
pub mod Apart
pub mod Parts
pub mod Round
pub mod Published
use cnpg_ha.Base.{
  ℕ, String, Bool, true, false, not, ◌&&◌, Option, none, some, List, [], ◌∷◌, ◌++◌, leb, nat_eq,
  ◌==◌, if◌then◌else◌, ◌≡◌, refl, ap, ◌∙◌, inl, inr, Bool-cases, All, eq_refl,
}
use mathlib.Core.List.{Memᴰ}
use cnpg_ha.Api.{HaCluster, Float64}
use cnpg_ha.Metrics
use cnpg_ha.Metrics.{
  Collector, current_primary_site, site_reachable, site_ready, replica_lag_seconds,
  replica_lag_bytes, site_current_lsn_bytes, site_lsn_info, split_brain, failover_total,
  failover_duration_seconds, Call, set, float_one, float_zero, bool_gauge, label_names, site_match,
}
use cnpg_ha.Metrics.Registry.{
  number, same_values, matches, Registry, RegistryLaws, told, told_all, told_all-append, serve_all,
  read-serve_all,
}
use cnpg_ha.Platform.{Platform}
use cnpg_ha.Controller.Observation.{SiteObservation, find_among}
use cnpg_ha.Controller.Effect.Mirror.{IsUnique}
use cnpg_ha.Controller.Status.{
  primary_lsn, bytes_behind, lag_calls, behind_calls, site_calls, sites_calls, publish_metrics,
}

-- What the series of each collector have, by their labels.
abbrev pub Gauges : Type 0
Gauges = Collector → List String → Option Float64

-- What calls make of the gauges.
abbrev pub after : Registry → List Call → Gauges → Gauges
after g ks f c xs = told_all g ks c xs (f c xs)

module _ (p : Platform) (ha : HaCluster) where
  abbrev pub series : String → List String → List String
  series site more = ha.name ∷ ha.namespace ∷ site ∷ more

  abbrev pub behind_gauge : Option ℕ → Option Float64
  behind_gauge none = none
  behind_gauge (some bytes) = some (if leb bytes 0 then float_zero else p.of_ℕ bytes)

  -- The gauges show the observation of a site, where the current primary and its LSN are given.
  pub record Shows (current : String) (lsn : Option ℕ) (f : Gauges) (o : SiteObservation)
      : Type 0 where
    pub shown_primary :
        f current_primary_site (series o.name []) ≡ some (bool_gauge (o.name == current))
    pub shown_reachable : f site_reachable (series o.name []) ≡ some (bool_gauge o.reachable)
    pub shown_ready : f site_ready (series o.name []) ≡ some (bool_gauge o.ready)
    pub shown_lag : f replica_lag_seconds (series o.name []) ≡ o.lag_seconds
    pub shown_behind :
        f replica_lag_bytes (series o.name []) ≡ behind_gauge (bytes_behind current lsn o)
    pub shown_position :
        f site_current_lsn_bytes (series o.name [])
        ≡ (if o.lsn_known then some (p.of_ℕ o.lsn_value) else none)
    pub shown_text :
        (text : String)
        → f site_lsn_info (series o.name (text ∷ []))
          ≡ (if o.lsn_known && not (o.lsn == "") && (o.lsn == text) then some float_one else none)

  -- The gauges agree on all series of a site.
  abbrev pub AgreeAt : String → Gauges → Gauges → Type 0
  AgreeAt site f h =
      (c : Collector) (more : List String) → h c (series site more) ≡ f c (series site more)

  pub Shows-agree :
      (current : String) (lsn : Option ℕ) (f h : Gauges) (o : SiteObservation)
      → AgreeAt o.name f h
      → Shows current lsn f o
      → Shows current lsn h o
  Shows-agree current lsn f h o e s = record {
    shown_primary = e current_primary_site [] ∙ s.shown_primary;
    shown_reachable = e site_reachable [] ∙ s.shown_reachable;
    shown_ready = e site_ready [] ∙ s.shown_ready;
    shown_lag = e replica_lag_seconds [] ∙ s.shown_lag;
    shown_behind = e replica_lag_bytes [] ∙ s.shown_behind;
    shown_position = e site_current_lsn_bytes [] ∙ s.shown_position;
    shown_text = λ text. e site_lsn_info (text ∷ []) ∙ s.shown_text text;
  }
