-- ===== src/Controller/Effect.antt =====
-- promotionEffect: the role change of a successful promotion, and its mirror in the observations.
pub mod Mirror
use cnpg_ha.Base.{String, Bool, true, false, not, List, [], ◌∷◌, ◌==◌, if◌then◌else◌}
use cnpg_ha.Controller.Observation.{SiteObservation}

pub record PromotionEffect : Type 0 where
  pub demoted : String
  pub promoted : String

abbrev pub no_effect : PromotionEffect
no_effect = record { demoted = ""; promoted = "" }

unfoldable pub did_promote : PromotionEffect → Bool
did_promote e = not (e.promoted == "")

-- The closure `set`.
abbrev pub set_role : Bool → SiteObservation → SiteObservation
set_role true o = record o { primary = true }
set_role false o = record o { primary = false; ready = false }

unfoldable pub set_among : String → Bool → List SiteObservation → List SiteObservation
set_among name primary [] = []
set_among name primary (o ∷ os) =
    let rest = set_among name primary os in
    if o.name == name then set_role primary o ∷ os else o ∷ rest

abbrev pub Observations : Type 0
Observations = SiteObservation × List SiteObservation

unfoldable pub set_observation_role : String → Bool → Observations → Observations
unfolding set_among
set_observation_role name b (primary, replicas) =
    if primary.name == name
    then (set_role b primary, replicas)
    else (primary, set_among name b replicas)

unfoldable pub apply_promotion_effect : PromotionEffect → Observations → Observations
unfolding did_promote set_observation_role
apply_promotion_effect e obs =
    if not (did_promote e)
    then obs
    else set_observation_role e.promoted true (set_observation_role e.demoted false obs)
