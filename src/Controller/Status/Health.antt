-- ===== src/Controller/Status/Health.antt =====
-- The Degraded condition.
use cnpg_ha.Base.{
  String, true, false, List, [], ◌∷◌, All, ◌≡◌, refl, Bool, eq_iff, if◌then◌else◌, ◌&&◌, ◌↔◌, arith,
}
use cnpg_ha.Api.{HaCluster, Time}
use cnpg_ha.Controller.Observation.{SiteObservation}
use cnpg_ha.Controller.Status.{is_empty_list, unreachable_names, unready_names, degraded_condition}

abbrev pub IsUp : SiteObservation → Type 0
IsUp o = (o.reachable ≡ true) × (o.ready ≡ true)

IsUp-iff :
    (sites : List SiteObservation)
    → ((unreachable_names sites ≡ []) × (unready_names sites ≡ [])) ↔ All IsUp sites
unfolding unreachable_names unready_names
IsUp-iff [] = (λ h. tt, λ h. (refl, refl))
IsUp-iff (o ∷ os) = (
  λ (h, g). ((ground arith, ground arith), (IsUp-iff os).0 (ground arith, ground arith)),
  λ ((r, g), rest). let (h, k) = (IsUp-iff os).1 rest in (ground arith, ground arith),
)

both_empty :
    (a b : List String) → ((is_empty_list a && is_empty_list b) ≡ true) ↔ ((a ≡ []) × (b ≡ []))
both_empty [] [] = (λ h. (refl, refl), λ h. refl)
both_empty [] (x ∷ b) = (λ h. ground arith, λ h. ground arith)
both_empty (x ∷ a) b = (λ h. ground arith, λ h. ground arith)

abbrev unless : Bool → String
unless b = if b then "False" else "True"

status_iff : (b : Bool) → (unless b ≡ "False") ↔ (b ≡ true)
status_iff true = (λ h. refl, λ h. refl)
status_iff false =
    (λ h. absurd (ground (arith, (eq_iff "True" "False").1 h)), λ h. absurd (ground arith))

-- The Degraded condition is False just where every site is reachable and ready.
pub degraded_iff :
    (sites : List SiteObservation) (ha : HaCluster) (now : Time)
    → ((degraded_condition sites ha now).status ≡ "False") ↔ All IsUp sites
unfolding degraded_condition
degraded_iff sites ha now =
    let unreachable = unreachable_names sites in
    let unready = unready_names sites in
    let empty = both_empty unreachable unready in
    let status = status_iff (is_empty_list unreachable && is_empty_list unready) in
    (λ h. (IsUp-iff sites).0 (empty.0 (status.0 h)), λ h. status.1 (empty.1 ((IsUp-iff sites).1 h)))
