-- ===== src/Controller/Primary/Verdicts.antt =====
-- The verdicts against a count of the sites that accept writes.
use cnpg_ha.Base.{
  ℕ, suc, ◌≤◌, String, ◌≡◌, refl, sym, ap, subst, ◌∙◌, true, false, List, [], ◌∷◌, length, arith,
  ◌⊎◌, Bool-cases, if◌then◌else◌, inl, inr,
}
use mathlib.Core.List.{Memᴰ}
use cnpg_ha.Controller.Observation.{SiteObservation}
use cnpg_ha.Controller.Primary.{
  is_candidate, candidates_among, sole, if_several, decide_current_primary, detect_split_brain,
}

-- How many sites are reachable, ready and in the primary role.
abbrev pub writers : List SiteObservation → ℕ
writers [] = 0
writers (o ∷ os) = (if is_candidate o then suc (writers os) else writers os)

length-candidates_among : (os : List SiteObservation) → length (candidates_among os) ≡ writers os
unfolding candidates_among
length-candidates_among [] = refl
length-candidates_among (o ∷ os) = ground (arith, length-candidates_among os)

-- The name is that of a site in the list that accepts writes.
abbrev pub IsWriterOf : List SiteObservation → String → Type 0
IsWriterOf os name = (o : SiteObservation) × Memᴰ o os × (is_candidate o ≡ true) × (o.name ≡ name)

candidate_IsWriterOf :
    (os : List SiteObservation) (name : String) (rest : List String)
    → candidates_among os ≡ name ∷ rest
    → IsWriterOf os name
unfolding candidates_among
candidate_IsWriterOf [] name rest h = cc
candidate_IsWriterOf (o ∷ os) name rest h = elim (Bool-cases (is_candidate o)) [
  | inl w ↦ (o, Memᴰ.head refl, w, ground arith)
  | inr n ↦
      let (o', m, w, e) = candidate_IsWriterOf os name rest (ground arith) in
      (o', Memᴰ.tail m, w, e)
]

-- The results of decideCurrentPrimary and detectSplitBrain for no, one and several writers.
abbrev pub Verdict : SiteObservation → List SiteObservation → Type 0
Verdict primary replicas =
    let all = primary ∷ replicas in
    let decided = decide_current_primary primary replicas in
    let split = detect_split_brain primary replicas in
    ((writers all ≡ 0) × (decided ≡ ("", false)) × (split ≡ []))
    ⊎ ((writers all ≡ 1) × (decided.1 ≡ true) × IsWriterOf all decided.0 × (split ≡ []))
    ⊎ ((2 ≤ writers all)
        × (decided ≡ ("", false))
        × (split ≡ candidates_among all)
        × (length split ≡ writers all))

several :
    (name other : String) (cs : List String) → if_several (name ∷ other ∷ cs) ≡ name ∷ other ∷ cs
several name other cs = ground arith

module _ (primary : SiteObservation) (replicas : List SiteObservation) where
  pub decided_lem :
      decide_current_primary primary replicas ≡ sole (candidates_among (primary ∷ replicas))
  unfolding decide_current_primary
  decided_lem = refl

  split_lem :
      detect_split_brain primary replicas ≡ if_several (candidates_among (primary ∷ replicas))
  unfolding detect_split_brain
  split_lem = refl

  Verdict-of :
      (cs : List String) → candidates_among (primary ∷ replicas) ≡ cs → Verdict primary replicas
  Verdict-of [] h =
      let count = sym (length-candidates_among (primary ∷ replicas)) ∙ ap length h in
      inl (count, decided_lem ∙ ap sole h, split_lem ∙ ap if_several h)
  Verdict-of (name ∷ []) h =
      let count = sym (length-candidates_among (primary ∷ replicas)) ∙ ap length h in
      let decided = decided_lem ∙ ap sole h in
      inr (
        inl (
          count,
          ap (λ x. x.1) decided,
          subst (IsWriterOf (primary ∷ replicas)) (sym (ap (λ x. x.0) decided))
              (candidate_IsWriterOf (primary ∷ replicas) name [] h),
          split_lem ∙ ap if_several h,
        ))
  Verdict-of (name ∷ other ∷ cs) h =
      let count = sym (length-candidates_among (primary ∷ replicas)) ∙ ap length h in
      let split = split_lem ∙ ap if_several h ∙ several name other cs ∙ sym h in
      inr (
        inr (
          omega (arith, count),
          decided_lem ∙ ap sole h,
          split,
          ap length split ∙ length-candidates_among (primary ∷ replicas),
        ))

  -- For no, one and several sites that are reachable, ready and in the primary role: no primary
  -- is decided on and no split-brain is seen; the name of that one site is, and none is seen; no
  -- primary is, and the names of all of them are reported as a split-brain.
  pub verdicts : Verdict primary replicas
  verdicts = Verdict-of (candidates_among (primary ∷ replicas)) refl
