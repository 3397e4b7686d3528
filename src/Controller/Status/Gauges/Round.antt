-- ===== src/Controller/Status/Gauges/Round.antt =====
-- What one round of publishMetrics makes of the series of its site.
use cnpg_ha.Base.{
  ℕ, String, Bool, false, not, ◌&&◌, Option, some, List, [], ◌++◌, nat_eq, ◌==◌, ◌≡◌, refl, ◌∙◌,
}
use cnpg_ha.Api.{HaCluster, Float64}
use cnpg_ha.Metrics
use cnpg_ha.Metrics.{
  Collector, current_primary_site, site_reachable, site_ready, replica_lag_seconds,
  replica_lag_bytes, site_current_lsn_bytes, site_lsn_info, split_brain, failover_total,
  failover_duration_seconds, Call, set, float_one, float_zero, bool_gauge, label_names, site_match,
}
use cnpg_ha.Metrics.Registry.{number, Registry, told_all, told_all-append}
use cnpg_ha.Platform.{Platform}
use cnpg_ha.Controller.Observation.{SiteObservation}
use cnpg_ha.Controller.Status.{bytes_behind, lag_calls, behind_calls, site_calls}
use cnpg_ha.Controller.Status.Gauges.{Gauges, series, Shows, after}
use cnpg_ha.Controller.Status.Gauges.Parts.{
  position_calls, text_calls, same_site, lag_told, behind_told, position_told, text_told,
  lag_elsewhere, behind_elsewhere, position_elsewhere, text_elsewhere,
}

module _ (p : Platform) (ha : HaCluster) (g : Registry) where
  five_told :
      (us vs ws ys zs : List Call) (c : Collector) (xs : List String) (v : Option Float64)
      → told_all g (us ++ (vs ++ (ws ++ (ys ++ zs)))) c xs v
        ≡ told_all g zs c xs
            (told_all g ys c xs (told_all g ws c xs (told_all g vs c xs (told_all g us c xs v))))
  five_told us vs ws ys zs c xs v =
      told_all-append g us _ c xs v
      ∙ told_all-append g vs _ c xs _
      ∙ told_all-append g ws _ c xs _
      ∙ told_all-append g ys zs c xs _

  module _ (current : String) (lsn : Option ℕ) (o : SiteObservation) (f : Gauges) where
    abbrev bytes : Option ℕ
    bytes = bytes_behind current lsn o

    abbrev has_text : Bool
    has_text = o.lsn_known && not (o.lsn == "")

    abbrev marks : List Call
    marks = Metrics.set_site ha.namespace ha.name o.name (o.name == current) o.reachable o.ready

    -- A round by its parts.
    abbrev parted : Gauges
    parted = after g (text_calls p ha g o has_text) (
        after g (position_calls p ha g o o.lsn_known) (
          after g (behind_calls p ha o.name bytes)
            (after g (lag_calls p ha o.name o.lag_seconds) (after g marks f))))

    by_parts :
        (c : Collector) (xs : List String)
        → after g (site_calls p ha current lsn o) f c xs ≡ parted c xs
    unfolding site_calls
    by_parts c xs =
        five_told marks (lag_calls p ha o.name o.lag_seconds) (behind_calls p ha o.name bytes)
          (position_calls p ha g o o.lsn_known) (text_calls p ha g o has_text) c xs (f c xs)

    primary_told :
        (v : Option Float64)
        → told_all g marks current_primary_site (series p ha o.name []) v
          ≡ some (bool_gauge (o.name == current))
    unfolding Metrics.set_site
    primary_told v = rw (same_site p ha g o.name) refl

    reachable_told :
        (v : Option Float64)
        → told_all g marks site_reachable (series p ha o.name []) v ≡ some (bool_gauge o.reachable)
    unfolding Metrics.set_site
    reachable_told v = rw (same_site p ha g o.name) refl

    ready_told :
        (v : Option Float64)
        → told_all g marks site_ready (series p ha o.name []) v ≡ some (bool_gauge o.ready)
    unfolding Metrics.set_site
    ready_told v = rw (same_site p ha g o.name) refl

    -- The later parts of a round are about other collectors than a given one.
    past_text :
        (c : Collector) (xs : List String)
        → nat_eq 6 (number c) ≡ false
        → after g (site_calls p ha current lsn o) f c xs
          ≡ after g
              (position_calls p ha g o o.lsn_known)
              (after g
                (behind_calls p ha o.name bytes)
                (after g (lag_calls p ha o.name o.lag_seconds) (after g marks f)))
              c
              xs
    past_text c xs h = by_parts c xs ∙ text_elsewhere p ha g o has_text c xs _ h

    past_position :
        (c : Collector) (xs : List String)
        → nat_eq 6 (number c) ≡ false
        → nat_eq 5 (number c) ≡ false
        → after g (site_calls p ha current lsn o) f c xs
          ≡ after g
              (behind_calls p ha o.name bytes)
              (after g (lag_calls p ha o.name o.lag_seconds) (after g marks f))
              c
              xs
    past_position c xs h k = past_text c xs h ∙ position_elsewhere p ha g o o.lsn_known c xs _ k

    past_behind :
        (c : Collector) (xs : List String)
        → nat_eq 6 (number c) ≡ false
        → nat_eq 5 (number c) ≡ false
        → nat_eq 4 (number c) ≡ false
        → after g (site_calls p ha current lsn o) f c xs
          ≡ after g (lag_calls p ha o.name o.lag_seconds) (after g marks f) c xs
    past_behind c xs h k l = past_position c xs h k ∙ behind_elsewhere p ha g o bytes c xs _ l

    past_lag :
        (c : Collector) (xs : List String)
        → nat_eq 6 (number c) ≡ false
        → nat_eq 5 (number c) ≡ false
        → nat_eq 4 (number c) ≡ false
        → nat_eq 3 (number c) ≡ false
        → after g (site_calls p ha current lsn o) f c xs ≡ after g marks f c xs
    past_lag c xs h k l m = past_behind c xs h k l ∙ lag_elsewhere p ha g o o.lag_seconds c xs _ m

    -- What one round makes of the gauges.
    pub site_calls-Shows : Shows p ha current lsn (after g (site_calls p ha current lsn o) f) o
    site_calls-Shows = record {
      shown_primary = past_lag current_primary_site _ refl refl refl refl ∙ primary_told _;
      shown_reachable = past_lag site_reachable _ refl refl refl refl ∙ reachable_told _;
      shown_ready = past_lag site_ready _ refl refl refl refl ∙ ready_told _;
      shown_lag =
          past_behind replica_lag_seconds _ refl refl refl ∙ lag_told p ha g o o.lag_seconds _;
      shown_behind = past_position replica_lag_bytes _ refl refl ∙ behind_told p ha g o bytes _;
      shown_position =
          past_text site_current_lsn_bytes _ refl ∙ position_told p ha g o o.lsn_known _;
      shown_text = λ text. by_parts site_lsn_info _ ∙ text_told p ha g o has_text text _;
    }
