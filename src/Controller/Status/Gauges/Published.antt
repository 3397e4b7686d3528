-- ===== src/Controller/Status/Gauges/Published.antt =====
-- What a scrape reads after publishMetrics.
use cnpg_ha.Base.{
  ℕ, String, Bool, Option, none, some, List, [], ◌∷◌, nat_eq, ◌==◌, ◌≡◌, refl, ◌∙◌, inl, inr,
  Bool-cases, All, eq_refl, arith, subst, sym,
}
use mathlib.Core.List.{Memᴰ}
use cnpg_ha.Api.{HaCluster, Float64}
use cnpg_ha.Metrics
use cnpg_ha.Metrics.{
  Collector, current_primary_site, site_reachable, site_ready, replica_lag_seconds,
  replica_lag_bytes, site_current_lsn_bytes, site_lsn_info, split_brain, failover_total,
  failover_duration_seconds, Call, set, float_one, float_zero, bool_gauge, label_names, site_match,
}
use cnpg_ha.Metrics.Registry.{
  number, Registry, RegistryLaws, told, told_all, told_all-append, serve_all, read-serve_all,
}
use cnpg_ha.Platform.{Platform}
use cnpg_ha.Controller.Observation.{SiteObservation, find_among}
use cnpg_ha.Controller.Effect.Mirror.{IsUnique}
use cnpg_ha.Controller.Status.{primary_lsn, site_calls, sites_calls, publish_metrics}
use cnpg_ha.Controller.Status.Gauges.{Gauges, series, Shows, Shows-agree, after}
use cnpg_ha.Controller.Status.Gauges.Apart.{
  and_false, IsApart, IsOther, Leaves, site-IsApart, foreign-IsApart, foreign_values,
  site_calls-Leaves,
}
use cnpg_ha.Controller.Status.Gauges.Round.{site_calls-Shows}

-- What a scrape reads after publishMetrics, where f is what it read before.
pub record IsScraped (p : Platform) (ha : HaCluster) (current : String) (split : Bool)
    (primary_obs : SiteObservation) (replica_obs : List SiteObservation) (f h : Gauges)
    : Type 0 where
  pub sites :
      (o : SiteObservation)
      → Memᴰ o (primary_obs ∷ replica_obs)
      → Shows p ha current (primary_lsn current (primary_obs ∷ replica_obs)) h o
  pub conflict : h split_brain (ha.name ∷ ha.namespace ∷ []) ≡ some (bool_gauge split)
  pub others :
      (name namespace : String)
      → IsOther p ha name namespace
      → (c : Collector) (more : List String)
      → h c (name ∷ namespace ∷ more) ≡ f c (name ∷ namespace ∷ more)

module _ (p : Platform) (ha : HaCluster) (g : Registry) where
  sites_calls-Leaves :
      (current : String) (lsn : Option ℕ) (os : List SiteObservation) (xs : List String)
      → All (λ o. IsApart p ha o.name xs) os
      → Leaves p ha g xs (sites_calls p ha current lsn os)
  unfolding sites_calls Leaves
  sites_calls-Leaves current lsn [] xs h c v = refl
  sites_calls-Leaves current lsn (o ∷ os) xs (h, hs) c v =
      told_all-append g (site_calls p ha current lsn o) (sites_calls p ha current lsn os) c xs v
      ∙ sites_calls-Leaves current lsn os xs hs c _
      ∙ site_calls-Leaves p ha g current lsn o xs h c v

  -- A name that is not found is apart from all sites.
  missing-All-IsApart :
      (site : String) (more : List String) (os : List SiteObservation)
      → find_among site os ≡ none
      → All (λ o. IsApart p ha o.name (series p ha site more)) os
  unfolding find_among
  missing-All-IsApart site more [] h = tt
  missing-All-IsApart site more (o ∷ os) h = elim (Bool-cases (o.name == site)) [
    | inl e ↦ absurd (ground arith)
    | inr n ↦
        (site-IsApart p ha site o.name more n, missing-All-IsApart site more os (ground arith))
  ]

  foreign-All-IsApart :
      (name namespace : String) (more : List String) (os : List SiteObservation)
      → IsOther p ha name namespace
      → All (λ o. IsApart p ha o.name (name ∷ namespace ∷ more)) os
  foreign-All-IsApart name namespace more [] h = tt
  foreign-All-IsApart name namespace more (o ∷ os) h = (
    foreign-IsApart p ha name namespace o.name more h,
    foreign-All-IsApart name namespace more os h,
  )

  first_then :
      (current : String) (lsn : Option ℕ) (x : SiteObservation) (os : List SiteObservation)
      (f : Gauges) (c : Collector) (xs : List String)
      → after g (sites_calls p ha current lsn (x ∷ os)) f c xs
        ≡ after g (sites_calls p ha current lsn os) (after g (site_calls p ha current lsn x) f) c xs
  unfolding sites_calls
  first_then current lsn x os f c xs =
      told_all-append g (site_calls p ha current lsn x) (sites_calls p ha current lsn os) c xs _

  -- The loop over the sites shows each of them.
  sites_calls-Shows :
      (current : String) (lsn : Option ℕ) (os : List SiteObservation) (f : Gauges)
      → IsUnique os
      → (o : SiteObservation) → Memᴰ o os
      → Shows p ha current lsn (after g (sites_calls p ha current lsn os) f) o
  unfolding Leaves
  sites_calls-Shows current lsn [] f u o m = elim m [ ]
  sites_calls-Shows current lsn (x ∷ os) f (n, u) o (Memᴰ.head e) =
      let mine : Shows p ha current lsn (after g (sites_calls p ha current lsn (x ∷ os)) f) x =
        Shows-agree p ha current lsn (after g (site_calls p ha current lsn x) f) _ x
          (λ c more.
            first_then current lsn x os f c (series p ha x.name more)
            ∙ sites_calls-Leaves current lsn os _ (missing-All-IsApart x.name more os n) c _)
          (site_calls-Shows p ha g current lsn x f) in
      subst (λ y. Shows p ha current lsn (after g (sites_calls p ha current lsn (x ∷ os)) f) y)
        (sym e) mine
  sites_calls-Shows current lsn (x ∷ os) f (n, u) o (Memᴰ.tail m) =
      Shows-agree p ha current lsn _ _ o
        (λ c more. first_then current lsn x os f c (series p ha o.name more))
        (sites_calls-Shows current lsn os (after g (site_calls p ha current lsn x) f) u o m)

  -- The calls of publishMetrics are those of the sites, then the one for the split-brain.
  report_told :
      (current : String) (split : Bool) (primary_obs : SiteObservation)
      (replica_obs : List SiteObservation) (c : Collector) (xs : List String) (v : Option Float64)
      → let all = primary_obs ∷ replica_obs in
        told_all g (publish_metrics p ha current split primary_obs replica_obs) c xs v
        ≡ told g.counting
            (set split_brain (ha.name ∷ ha.namespace ∷ []) (bool_gauge split))
            c
            xs
            (told_all g (sites_calls p ha current (primary_lsn current all) all) c xs v)
  unfolding publish_metrics Metrics.set_split_brain
  report_told current split primary_obs replica_obs c xs v =
      let all = primary_obs ∷ replica_obs in
      told_all-append g (sites_calls p ha current (primary_lsn current all) all)
        (Metrics.set_split_brain ha.namespace ha.name split) c xs v

module _ (p : Platform) (ha : HaCluster) (g : Registry) (laws : RegistryLaws g) (current : String)
    (split : Bool) (primary_obs : SiteObservation) (replica_obs : List SiteObservation)
    (h : g.Held) where
  abbrev all : List SiteObservation
  all = primary_obs ∷ replica_obs

  abbrev lsn : Option ℕ
  lsn = primary_lsn current all

  abbrev calls : List Call
  calls = publish_metrics p ha current split primary_obs replica_obs

  -- The series of the sites are as the calls of the sites leave them.
  read_site :
      (c : Collector) (site : String) (more : List String)
      → g.read (serve_all g calls h) c (series p ha site more)
        ≡ after g (sites_calls p ha current lsn all) (g.read h) c (series p ha site more)
  read_site c site more =
      read-serve_all g laws calls h c (series p ha site more)
      ∙ report_told p ha g current split primary_obs replica_obs c (series p ha site more) _
      ∙ rw (eq_refl ha.name, eq_refl ha.namespace, and_false (nat_eq 7 (number c))) refl

  read_other :
      (name namespace : String)
      → IsOther p ha name namespace
      → (c : Collector) (more : List String)
      → g.read (serve_all g calls h) c (name ∷ namespace ∷ more)
        ≡ g.read h c (name ∷ namespace ∷ more)
  unfolding Leaves
  read_other name namespace n c more =
      read-serve_all g laws calls h c (name ∷ namespace ∷ more)
      ∙ report_told p ha g current split primary_obs replica_obs c (name ∷ namespace ∷ more) _
      ∙ rw (foreign_values p ha name namespace [] more n, and_false (nat_eq 7 (number c))) refl
      ∙ sites_calls-Leaves p ha g current lsn all _
          (foreign-All-IsApart p ha g name namespace more all n) c _

  -- After publishMetrics, with distinct site names, the series of every observed site show its
  -- observation: whether it is the current primary, reachable and ready, its lag in seconds and in
  -- bytes and its LSN where these are known, and no series where they are not, with one LSN text at
  -- most. The gauge of the split-brain is the verdict, and no series of another HACluster changes.
  pub publish_metrics-IsScraped :
      IsUnique all
      → IsScraped p ha current split primary_obs replica_obs
          (g.read h)
          (g.read (serve_all g calls h))
  publish_metrics-IsScraped u = record {
    sites = λ o m.
        Shows-agree p ha current lsn _ _ o (λ c more. read_site c o.name more)
          (sites_calls-Shows p ha g current lsn all (g.read h) u o m);
    conflict =
        read-serve_all g laws calls h split_brain (ha.name ∷ ha.namespace ∷ [])
        ∙ report_told p ha g current split primary_obs replica_obs split_brain
            (ha.name ∷ ha.namespace ∷ []) _
        ∙ rw (eq_refl ha.name, eq_refl ha.namespace) refl;
    others = λ name namespace n c more. read_other name namespace n c more;
  }
