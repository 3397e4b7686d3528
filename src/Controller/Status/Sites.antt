-- ===== src/Controller/Status/Sites.antt =====
-- The statuses of the sites against their observations.
use cnpg_ha.Base.{
  true, false, Option, none, some, List, [], ◌∷◌, ◌≡◌, refl, ◌⊎◌, inl, inr, Bool-cases,
}
use cnpg_ha.Base.Int.{ℤ}
use cnpg_ha.Api.{SiteStatus, SiteRole, role_primary, role_replica, role_unknown, Time, Float64}
use cnpg_ha.Platform.{Platform}
use cnpg_ha.Controller.Observation.{SiteObservation}
use cnpg_ha.Controller.Status.{role_of, lag_milliseconds, to_site_status, statuses_of}

-- The role that a site is reported in.
abbrev pub IsRole : SiteObservation → SiteRole → Type 0
IsRole o role =
    ((o.reachable ≡ false) × (role ≡ role_unknown))
    ⊎ ((o.reachable ≡ true) × (o.primary ≡ true) × (role ≡ role_primary))
    ⊎ ((o.reachable ≡ true) × (o.primary ≡ false) × (role ≡ role_replica))

role_of-IsRole : (o : SiteObservation) → IsRole o (role_of o)
unfolding role_of
role_of-IsRole o = elim (Bool-cases o.reachable) [
  | inr n ↦ inl (n, rw n refl)
  | inl y ↦ elim (Bool-cases o.primary) [
    | inl a ↦ inr (inl (y, a, rw (y, a) refl))
    | inr b ↦ inr (inr (y, b, rw (y, b) refl))
  ]
]

module _ (p : Platform) where
  -- The lag in milliseconds, where one in seconds was read.
  abbrev pub IsLag : Option Float64 → Option ℤ → Type 0
  IsLag none reported = reported ≡ none
  IsLag (some seconds) reported = reported ≡ some (p.to_millis seconds)

  lag_milliseconds-IsLag : (lag : Option Float64) → IsLag lag (lag_milliseconds p lag)
  unfolding lag_milliseconds
  lag_milliseconds-IsLag none = refl
  lag_milliseconds-IsLag (some seconds) = refl

  -- The status of a site has its observation.
  pub record Describes (now : Time) (o : SiteObservation) (st : SiteStatus) : Type 0 where
    pub named : st.name ≡ o.name
    pub role_given : IsRole o st.role
    pub reachable_given : st.reachable ≡ o.reachable
    pub ready_given : st.ready ≡ o.ready
    pub phase_given : st.phase ≡ o.phase
    pub message_given : st.message ≡ o.reason
    pub observed_at : st.last_observed_time ≡ some now
    pub lsn_given : st.current_lsn ≡ o.lsn
    pub lag_given : IsLag o.lag_seconds st.replication_lag_milliseconds

  -- One status for each observation, in the same order.
  abbrev pub AllDescribed : Time → List SiteObservation → List SiteStatus → Type 0
  AllDescribed now [] [] = Unit {0}
  AllDescribed now [] (_ ∷ _) = ⊥
  AllDescribed now (_ ∷ _) [] = ⊥
  AllDescribed now (o ∷ os) (st ∷ sts) = Describes now o st × AllDescribed now os sts

  to_site_status-Describes :
      (now : Time) (o : SiteObservation) → Describes now o (to_site_status p now o)
  unfolding to_site_status
  to_site_status-Describes now o = record {
    named = refl;
    role_given = role_of-IsRole o;
    reachable_given = refl;
    ready_given = refl;
    phase_given = refl;
    message_given = refl;
    observed_at = refl;
    lsn_given = refl;
    lag_given = lag_milliseconds-IsLag o.lag_seconds;
  }

  pub statuses_of-AllDescribed :
      (now : Time) (os : List SiteObservation) → AllDescribed now os (statuses_of p now os)
  unfolding statuses_of
  statuses_of-AllDescribed now [] = tt
  statuses_of-AllDescribed now (o ∷ os) =
      (to_site_status-Describes now o, statuses_of-AllDescribed now os)
