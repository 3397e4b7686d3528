-- ===== src/Metrics/Registry.antt =====
-- The Prometheus collectors that the calls of internal/metrics reach, as a parameter: a series is a
-- collector with values for its labels, and a call is served by setting or deleting series.
use cnpg_ha.Base.{
  ℕ, String, Bool, true, false, ◌&&◌, Option, none, some, List, [], ◌∷◌, ◌++◌, Map, nat_eq, ◌==◌,
  if◌then◌else◌, ◌≡◌, refl, ap, ◌∙◌,
}
use cnpg_ha.Api.{Float64}
use cnpg_ha.Metrics.{
  Collector, current_primary_site, site_reachable, site_ready, replica_lag_seconds,
  replica_lag_bytes, site_current_lsn_bytes, site_lsn_info, split_brain, failover_total,
  failover_duration_seconds, Call, set, delete_values, delete_partial_match, inc, observe,
  label_names,
}

-- The place of a collector in the declaration, which tells collectors apart.
abbrev pub number : Collector → ℕ
number current_primary_site = 0
number site_reachable = 1
number site_ready = 2
number replica_lag_seconds = 3
number replica_lag_bytes = 4
number site_current_lsn_bytes = 5
number site_lsn_info = 6
number split_brain = 7
number failover_total = 8
number failover_duration_seconds = 9

abbrev pub same_values : List String → List String → Bool
same_values [] [] = true
same_values [] (_ ∷ _) = false
same_values (_ ∷ _) [] = false
same_values (x ∷ xs) (y ∷ ys) = (x == y) && same_values xs ys

-- The label has the value.
abbrev pub has_label : String → String → List String → List String → Bool
has_label name value [] _ = false
has_label name value (_ ∷ _) [] = false
has_label name value (n ∷ ns) (x ∷ xs) =
    if n == name then value == x else has_label name value ns xs

-- All labels of the match are there with their values.
abbrev pub matches : Map String → List String → List String → Bool
matches [] ns xs = true
matches ((name, value) ∷ m) ns xs = has_label name value ns xs && matches m ns xs

-- What Inc and Observe make of the value of a series.
pub record Counting : Type 0 where
  pub counted : Option Float64 → Option Float64
  pub observed : Float64 → Option Float64 → Option Float64

pub record Registry : Type 1 where
  pub Held : Type 0
  pub read : Held → Collector → List String → Option Float64
  pub serve : Call → Held → Held
  pub counting : Counting

-- What a call makes of a series.
abbrev pub told : Counting → Call → Collector → List String → Option Float64 → Option Float64
told q (set c xs v) d ys old =
    if nat_eq (number c) (number d) && same_values xs ys then some v else old
told q (delete_values c xs) d ys old =
    if nat_eq (number c) (number d) && same_values xs ys then none else old
told q (delete_partial_match c m) d ys old =
    if nat_eq (number c) (number d) && matches m (label_names d) ys then none else old
told q (inc c xs) d ys old =
    if nat_eq (number c) (number d) && same_values xs ys then q.counted old else old
told q (observe c xs v) d ys old =
    if nat_eq (number c) (number d) && same_values xs ys then q.observed v old else old

module _ (g : Registry) where
  -- Each call acts on the series that it names or matches, and on no other.
  pub record RegistryLaws : Type 0 where
    pub read-serve :
        (k : Call) (h : g.Held) (c : Collector) (xs : List String)
        → g.read (g.serve k h) c xs ≡ told g.counting k c xs (g.read h c xs)

  unfoldable pub serve_all : List Call → g.Held → g.Held
  serve_all [] h = h
  serve_all (k ∷ ks) h = serve_all ks (g.serve k h)

  abbrev pub told_all : List Call → Collector → List String → Option Float64 → Option Float64
  told_all [] c xs old = old
  told_all (k ∷ ks) c xs old = told_all ks c xs (told g.counting k c xs old)

  pub told_all-append :
      (ks js : List Call) (c : Collector) (xs : List String) (old : Option Float64)
      → told_all (ks ++ js) c xs old ≡ told_all js c xs (told_all ks c xs old)
  told_all-append [] js c xs old = refl
  told_all-append (k ∷ ks) js c xs old = told_all-append ks js c xs (told g.counting k c xs old)

module _ (g : Registry) (laws : RegistryLaws g) where
  pub read-serve_all :
      (ks : List Call) (h : g.Held) (c : Collector) (xs : List String)
      → g.read (serve_all g ks h) c xs ≡ told_all g ks c xs (g.read h c xs)
  unfolding serve_all
  read-serve_all [] h c xs = refl
  read-serve_all (k ∷ ks) h c xs =
      read-serve_all ks (g.serve k h) c xs ∙ ap (told_all g ks c xs) (laws.read-serve k h c xs)
