-- ===== src/Controller/Status/Conditions.antt =====
-- The Available and SplitBrain conditions against the sites that accept writes.
use cnpg_ha.Base.{
  ◌≤◌, String, Bool, true, false, List, ◌∷◌, length, ltb, if◌then◌else◌, ◌≡◌, refl, ap, ◌↔◌, inl,
  inr, arith, eq_iff,
}
use cnpg_ha.Api.{HaCluster, Time}
use cnpg_ha.Controller.Observation.{SiteObservation}
use cnpg_ha.Controller.Primary.{decide_current_primary, detect_split_brain}
use cnpg_ha.Controller.Primary.Verdicts.{writers, verdicts}
use cnpg_ha.Controller.Status.{available_condition, split_brain_condition}

abbrev spelled : Bool → String
spelled b = if b then "True" else "False"

said : (b : Bool) → (spelled b ≡ "True") ↔ (b ≡ true)
said true = (λ h. refl, λ h. refl)
said false = (λ h. absurd (ground (arith, (eq_iff "False" "True").1 h)), λ h. absurd (ground arith))

module _ (primary : SiteObservation) (replicas : List SiteObservation) where
  available_iff :
      ((decide_current_primary primary replicas).1 ≡ true) ↔ (writers (primary ∷ replicas) ≡ 1)
  available_iff = elim (verdicts primary replicas) [
    | inl (n, d, _) ↦
        (λ h. absurd (ground (arith, h, ap (λ x. x.1) d)), λ h. absurd (omega (arith, n, h)))
    | inr (inl (n, d, _, _)) ↦ (λ h. n, λ h. d)
    | inr (inr (n, d, _, _)) ↦
        (λ h. absurd (ground (arith, h, ap (λ x. x.1) d)), λ h. absurd (omega (arith, n, h)))
  ]

  several_iff :
      (ltb 1 (length (detect_split_brain primary replicas)) ≡ true)
      ↔ (2 ≤ writers (primary ∷ replicas))
  several_iff = elim (verdicts primary replicas) [
    | inl (n, _, e) ↦ rw e (λ h. absurd (ground arith), λ h. absurd (omega (arith, n, h)))
    | inr (inl (n, _, _, e)) ↦ rw e (λ h. absurd (ground arith), λ h. absurd (omega (arith, n, h)))
    | inr (inr (n, _, _, l)) ↦ (λ h. n, λ h. rw l (ground (arith, h)))
  ]

  pub available_said :
      (ha : HaCluster) (now : Time)
      → ((available_condition (decide_current_primary primary replicas).1 ha now).status ≡ "True")
        ↔ (writers (primary ∷ replicas) ≡ 1)
  unfolding available_condition
  available_said ha now =
      let b = said (decide_current_primary primary replicas).1 in
      (λ h. available_iff.0 (b.0 h), λ h. b.1 (available_iff.1 h))

  pub split_brain_said :
      (ha : HaCluster) (now : Time)
      → ((split_brain_condition (detect_split_brain primary replicas) ha now).status ≡ "True")
        ↔ (2 ≤ writers (primary ∷ replicas))
  unfolding split_brain_condition
  split_brain_said ha now =
      let b = said (ltb 1 (length (detect_split_brain primary replicas))) in
      (λ h. several_iff.0 (b.0 h), λ h. b.1 (several_iff.1 h))
