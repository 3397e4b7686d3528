-- ===== src/Controller/Primary.antt =====
-- Who is the primary: primaryReadyCandidates, decideCurrentPrimary, detectSplitBrain and
-- currentPrimaryForPromotion.
pub mod Verdicts
use cnpg_ha.Base.{
  ℕ, String, Bool, true, false, not, ◌&&◌, List, [], ◌∷◌, length, leb, ◌==◌, if◌then◌else◌,
}
use cnpg_ha.Base.Message.{errorf, names, end, arg}
use cnpg_ha.Base.Exec.{Result, ok, err}
use cnpg_ha.Api.{HaCluster}
use cnpg_ha.Controller.Observation.{SiteObservation}

abbrev pub is_candidate : SiteObservation → Bool
is_candidate o = o.reachable && (o.primary && o.ready)

unfoldable pub candidates_among : List SiteObservation → List String
candidates_among [] = []
candidates_among (r ∷ rs) =
    let rest = candidates_among rs in if is_candidate r then r.name ∷ rest else rest

unfoldable pub primary_ready_candidates : SiteObservation → List SiteObservation → List String
unfolding candidates_among
primary_ready_candidates primary replicas =
    if is_candidate primary
    then primary.name ∷ candidates_among replicas
    else candidates_among replicas

abbrev pub sole : List String → String × Bool
sole (name ∷ []) = (name, true)
sole _ = ("", false)

unfoldable pub decide_current_primary : SiteObservation → List SiteObservation → String × Bool
unfolding primary_ready_candidates
decide_current_primary primary replicas = sole (primary_ready_candidates primary replicas)

abbrev pub if_several : List String → List String
if_several candidates = if leb (length candidates) 1 then [] else candidates

unfoldable pub detect_split_brain : SiteObservation → List SiteObservation → List String
unfolding primary_ready_candidates
detect_split_brain primary replicas = if_several (primary_ready_candidates primary replicas)

-- len(splitBrain) > 0
abbrev pub is_split : List String → Bool
is_split [] = false
is_split (_ ∷ _) = true

unfoldable pub current_primary_for_promotion :
    HaCluster → SiteObservation → List SiteObservation → Result String
unfolding detect_split_brain decide_current_primary
current_primary_for_promotion ha primary replicas =
    let split_brain = detect_split_brain primary replicas in
    let (observed, found) = decide_current_primary primary replicas in
    if is_split split_brain
    then err (errorf "split-brain observed among sites %v" (arg (names split_brain) end))
    else if not (ha.status.current_primary_site == "")
    then ok ha.status.current_primary_site
    else if found
    then ok observed
    else ok ha.spec.primary.name
