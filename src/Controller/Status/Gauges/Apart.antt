-- ===== src/Controller/Status/Gauges/Apart.antt =====
-- The series that a round of publishMetrics leaves alone: those of other sites and HAClusters.
use cnpg_ha.Base.{
  ℕ, String, Bool, true, false, not, ◌&&◌, Option, none, some, List, [], ◌∷◌, ◌++◌, nat_eq, ◌==◌,
  if◌then◌else◌, ◌≡◌, refl, ◌∙◌, inl, inr, Bool-cases, arith, eq_refl,
}
use cnpg_ha.Api.{HaCluster, Float64}
use cnpg_ha.Metrics
use cnpg_ha.Metrics.{
  Collector, current_primary_site, site_reachable, site_ready, replica_lag_seconds,
  replica_lag_bytes, site_current_lsn_bytes, site_lsn_info, split_brain, failover_total,
  failover_duration_seconds, Call, set, float_one, float_zero, bool_gauge, label_names, site_match,
}
use cnpg_ha.Metrics.Registry.{number, same_values, matches, Registry, told_all, told_all-append}
use cnpg_ha.Platform.{Platform}
use cnpg_ha.Controller.Observation.{SiteObservation}
use cnpg_ha.Controller.Status.{bytes_behind, lag_calls, behind_calls, site_calls}
use cnpg_ha.Controller.Status.Gauges.{series}

module _ (p : Platform) (ha : HaCluster) where
  -- No call about the site sets or matches a series with the labels.
  pub record IsApart (other : String) (xs : List String) : Type 0 where
    pub no_values : (extra : List String) → same_values (series p ha other extra) xs ≡ false
    pub no_match :
        (c : Collector)
        → (nat_eq 6 (number c)
            && matches (site_match ha.namespace ha.name other) (label_names c) xs)
          ≡ false

  -- The labels of another site are apart.
  other_match :
      (c : Collector) (site other : String) (more : List String)
      → (other == site) ≡ false
      → (nat_eq 6 (number c)
          && matches
              (site_match ha.namespace ha.name other)
              (label_names c)
              (series p ha site more))
        ≡ false
  unfolding label_names
  other_match site_lsn_info site other more h = rw (eq_refl ha.name, eq_refl ha.namespace, h) refl
  other_match current_primary_site site other more h = refl
  other_match site_reachable site other more h = refl
  other_match site_ready site other more h = refl
  other_match replica_lag_seconds site other more h = refl
  other_match replica_lag_bytes site other more h = refl
  other_match site_current_lsn_bytes site other more h = refl
  other_match split_brain site other more h = refl
  other_match failover_total site other more h = refl
  other_match failover_duration_seconds site other more h = refl

  pub site-IsApart :
      (site other : String) (more : List String)
      → (other == site) ≡ false
      → IsApart other (series p ha site more)
  site-IsApart site other more h = record {
    no_values = λ extra. rw (eq_refl ha.name, eq_refl ha.namespace, h) refl;
    no_match = λ c. other_match c site other more h;
  }

  -- The HACluster is another one than this.
  abbrev pub IsOther : String → String → Type 0
  IsOther name namespace = ((ha.name == name) && (ha.namespace == namespace)) ≡ false

  -- The labels of another HACluster are apart from those of every site.
  foreign_match :
      (c : Collector) (name namespace other : String) (more : List String)
      → IsOther name namespace
      → (nat_eq 6 (number c)
          && matches
              (site_match ha.namespace ha.name other)
              (label_names c)
              (name ∷ namespace ∷ more))
        ≡ false
  unfolding label_names
  foreign_match site_lsn_info name namespace other more h = elim (Bool-cases (ha.name == name)) [
    | inl e ↦ let n : (ha.namespace == namespace) ≡ false = ground arith in rw (e, n) refl
    | inr e ↦ rw e refl
  ]
  foreign_match current_primary_site name namespace other more h = refl
  foreign_match site_reachable name namespace other more h = refl
  foreign_match site_ready name namespace other more h = refl
  foreign_match replica_lag_seconds name namespace other more h = refl
  foreign_match replica_lag_bytes name namespace other more h = refl
  foreign_match site_current_lsn_bytes name namespace other more h = refl
  foreign_match split_brain name namespace other more h = refl
  foreign_match failover_total name namespace other more h = refl
  foreign_match failover_duration_seconds name namespace other more h = refl

  pub foreign_values :
      (name namespace : String) (extra more : List String)
      → IsOther name namespace
      → same_values (ha.name ∷ ha.namespace ∷ extra) (name ∷ namespace ∷ more) ≡ false
  foreign_values name namespace extra more h = elim (Bool-cases (ha.name == name)) [
    | inl e ↦ let n : (ha.namespace == namespace) ≡ false = ground arith in rw (e, n) refl
    | inr e ↦ rw e refl
  ]

  pub foreign-IsApart :
      (name namespace other : String) (more : List String)
      → IsOther name namespace
      → IsApart other (name ∷ namespace ∷ more)
  foreign-IsApart name namespace other more h = record {
    no_values = λ extra. foreign_values name namespace (other ∷ extra) more h;
    no_match = λ c. foreign_match c name namespace other more h;
  }

pub and_false : (a : Bool) → (a && false) ≡ false
and_false true = refl
and_false false = refl

module _ (p : Platform) (ha : HaCluster) (g : Registry) where
  -- Calls leave the series with the labels as they are, of whatever collector.
  unfoldable pub Leaves : List String → List Call → Type 0
  Leaves xs ks = (c : Collector) (v : Option Float64) → told_all g ks c xs v ≡ v

  pub Leaves-append :
      (xs : List String) (ks js : List Call) → Leaves xs ks → Leaves xs js → Leaves xs (ks ++ js)
  unfolding Leaves
  Leaves-append xs ks js k j c v = told_all-append g ks js c xs v ∙ j c _ ∙ k c v

  module _ (other : String) (xs : List String) (h : IsApart p ha other xs) where
    unset :
        (b : Bool) (extra : List String) → (b && same_values (series p ha other extra) xs) ≡ false
    unset b extra = rw (h.no_values extra) (and_false b)

    Leaves-lag : (o : Option Float64) → Leaves xs (lag_calls p ha other o)
    unfolding Leaves Metrics.set_replica_lag Metrics.clear_replica_lag
    Leaves-lag none c v = rw (unset (nat_eq 3 (number c)) []) refl
    Leaves-lag (some x) c v = rw (unset (nat_eq 3 (number c)) []) refl

    Leaves-behind : (o : Option ℕ) → Leaves xs (behind_calls p ha other o)
    unfolding Leaves Metrics.set_replica_lag_bytes Metrics.clear_replica_lag_bytes
    Leaves-behind none c v = rw (unset (nat_eq 4 (number c)) []) refl
    Leaves-behind (some x) c v = rw (unset (nat_eq 4 (number c)) []) refl

    Leaves-site : (a b d : Bool) → Leaves xs (Metrics.set_site ha.namespace ha.name other a b d)
    unfolding Leaves Metrics.set_site
    Leaves-site a b d c v =
        rw
          (
            unset (nat_eq 0 (number c)) [],
            unset (nat_eq 1 (number c)) [],
            unset (nat_eq 2 (number c)) [],
          )
          refl

    Leaves-position :
        (b : Bool) (x : Float64)
        → Leaves xs (
            if b
            then Metrics.set_site_current_lsn_bytes ha.namespace ha.name other x
            else Metrics.clear_site_current_lsn_bytes ha.namespace ha.name other)
    unfolding Leaves Metrics.set_site_current_lsn_bytes Metrics.clear_site_current_lsn_bytes
    Leaves-position true x c v = rw (unset (nat_eq 5 (number c)) []) refl
    Leaves-position false x c v = rw (unset (nat_eq 5 (number c)) []) refl

    Leaves-text :
        (b : Bool) (text : String)
        → Leaves xs (
            if b
            then Metrics.set_site_lsn_info ha.namespace ha.name other text
            else Metrics.clear_site_lsn_info ha.namespace ha.name other)
    unfolding Leaves Metrics.set_site_lsn_info Metrics.clear_site_lsn_info
    Leaves-text true text c v = rw (unset (nat_eq 6 (number c)) (text ∷ []), h.no_match c) refl
    Leaves-text false text c v = rw (h.no_match c) refl

  pub site_calls-Leaves :
      (current : String) (lsn : Option ℕ) (o : SiteObservation) (xs : List String)
      → IsApart p ha o.name xs
      → Leaves xs (site_calls p ha current lsn o)
  unfolding site_calls
  site_calls-Leaves current lsn o xs h =
      let a = Leaves-site o.name xs h (o.name == current) o.reachable o.ready in
      let b = Leaves-lag o.name xs h o.lag_seconds in
      let c = Leaves-behind o.name xs h (bytes_behind current lsn o) in
      let d = Leaves-position o.name xs h o.lsn_known (p.of_ℕ o.lsn_value) in
      let e = Leaves-text o.name xs h (o.lsn_known && not (o.lsn == "")) o.lsn in
      Leaves-append xs _ _ a
        (Leaves-append xs _ _ b (Leaves-append xs _ _ c (Leaves-append xs _ _ d e)))
