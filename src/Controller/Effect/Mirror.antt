-- ===== src/Controller/Effect/Mirror.antt =====
-- applyPromotionEffect and decideCurrentPrimary together: the primary after a promotion.
use cnpg_ha.Base.{
  String, Bool, true, false, none, some, List, [], ◌∷◌, ◌≡◌, refl, sym, ap, ◌∙◌, ◌⊎◌, inl, inr,
  arith, Bool-cases, text-cases, eq_iff, ◌==◌,
}
use cnpg_ha.Controller.Observation.{SiteObservation, find_among}
use cnpg_ha.Controller.Primary.{is_candidate, candidates_among, sole, decide_current_primary}
use cnpg_ha.Controller.Primary.Verdicts.{decided_lem}
use cnpg_ha.Controller.Effect.{
  did_promote, PromotionEffect, set_role, set_among, Observations, set_observation_role,
  apply_promotion_effect,
}

-- No two sites have one name.
abbrev pub IsUnique : List SiteObservation → Type 0
IsUnique [] = Unit {0}
IsUnique (o ∷ os) = (find_among o.name os ≡ none) × IsUnique os

abbrev pub sites_of : Observations → List SiteObservation
sites_of (primary, replicas) = primary ∷ replicas

name-set_role : (b : Bool) (o : SiteObservation) → (set_role b o).name ≡ o.name
name-set_role true o = refl
name-set_role false o = refl

sites-set_observation_role :
    (name : String) (b : Bool) (obs : Observations)
    → sites_of (set_observation_role name b obs) ≡ set_among name b (sites_of obs)
unfolding set_observation_role set_among
sites-set_observation_role name b (primary, replicas) = ground arith

-- A site of another name is found as before.
find-set_among :
    (name other : String) (b : Bool) (os : List SiteObservation)
    → (other == name) ≡ false
    → find_among name (set_among other b os) ≡ find_among name os
unfolding find_among set_among
find-set_among name other b [] h = refl
find-set_among name other b (o ∷ os) h = elim (text-cases o.name other) [
  | inl e ↦ ground (arith, (eq_iff o.name other).1 e, name-set_role b o, ap (λ x. x == name) e)
  | inr n ↦ ground (arith, find-set_among name other b os h)
]

-- The one name among the candidates is found.
candidate_found :
    (name : String) (os : List SiteObservation)
    → candidates_among os ≡ name ∷ []
    → find_among name os ≡ none
    → ⊥
unfolding candidates_among find_among
candidate_found name [] h n = cc
candidate_found name (o ∷ os) h n = elim (Bool-cases (is_candidate o)) [
  | inl c ↦ let e : o.name ≡ name = ground arith in ground (arith, (eq_iff o.name name).1 e)
  | inr c ↦ candidate_found name os (ground arith) (ground arith)
]

-- At most one site accepts writes, and that one has the name.
abbrev pub IsOnly : String → List SiteObservation → Type 0
IsOnly name os = (candidates_among os ≡ []) ⊎ (candidates_among os ≡ name ∷ [])

demoted_head :
    (name : String) (o : SiteObservation) (os : List SiteObservation)
    → (o.name == name) ≡ true
    → find_among name os ≡ none
    → IsOnly name (o ∷ os)
    → candidates_among (set_among name false (o ∷ os)) ≡ []
unfolding candidates_among set_among
demoted_head name o os e f h = ground (arith, candidate_found name os)

-- With the only writer demoted there is none.
demoted_none :
    (name : String) (os : List SiteObservation)
    → IsUnique os
    → IsOnly name os
    → candidates_among (set_among name false os) ≡ []
unfolding candidates_among set_among
demoted_none name [] u h = refl
demoted_none name (o ∷ os) (f, u) h = elim (text-cases o.name name) [
  | inl e ↦
      let missing : find_among name os ≡ none = ap (λ x. find_among x os) (sym e) ∙ f in
      demoted_head name o os ((eq_iff o.name name).1 e) missing h
  | inr n ↦ elim (Bool-cases (is_candidate o)) [
    | inl c ↦ ground (arith, (eq_iff o.name name).1, h)
    | inr c ↦ ground (arith, demoted_none name os u (ground (arith, h)))
  ]
]

-- A site that is reachable and ready, promoted where no site accepts writes, is the one writer.
promoted_sole :
    (name : String) (o : SiteObservation) (os : List SiteObservation)
    → candidates_among os ≡ []
    → find_among name os ≡ some o
    → o.reachable ≡ true
    → o.ready ≡ true
    → candidates_among (set_among name true os) ≡ name ∷ []
unfolding candidates_among find_among set_among
promoted_sole name o [] h f r g = cc
promoted_sole name o (x ∷ os) h f r g = elim (text-cases x.name name) [
  | inl e ↦ ground (arith, (eq_iff x.name name).1 e)
  | inr n ↦ ground (arith, promoted_sole name o os (ground arith) (ground arith) r g)
]

applied_lem :
    (e : PromotionEffect) (obs : Observations)
    → (e.promoted == "") ≡ false
    → apply_promotion_effect e obs
      ≡ set_observation_role e.promoted true (set_observation_role e.demoted false obs)
unfolding apply_promotion_effect did_promote
applied_lem e obs h = rw h

-- With distinct site names, where no site but the demoted one accepts writes and the promoted one is
-- another site that is reachable and ready, the observations that applyPromotionEffect leaves have
-- the promoted site as their one primary.
pub decide-apply_promotion_effect :
    (e : PromotionEffect) (obs : Observations) (o : SiteObservation)
    → IsUnique (sites_of obs)
    → IsOnly e.demoted (sites_of obs)
    → (e.promoted == "") ≡ false
    → (e.demoted == e.promoted) ≡ false
    → find_among e.promoted (sites_of obs) ≡ some o
    → o.reachable ≡ true
    → o.ready ≡ true
    → let (primary, replicas) = apply_promotion_effect e obs in
      decide_current_primary primary replicas ≡ (e.promoted, true)
decide-apply_promotion_effect e obs o u only some_name other f r g =
    let mid = set_observation_role e.demoted false obs in
    let last = set_observation_role e.promoted true mid in
    let sites : sites_of last
        ≡ set_among e.promoted true (set_among e.demoted false (sites_of obs)) =
      sites-set_observation_role e.promoted true mid
      ∙ ap (set_among e.promoted true) (sites-set_observation_role e.demoted false obs) in
    let only_new : candidates_among (sites_of last) ≡ e.promoted ∷ [] =
      ap candidates_among sites
      ∙ promoted_sole e.promoted o (set_among e.demoted false (sites_of obs))
          (demoted_none e.demoted (sites_of obs) u only)
          (find-set_among e.promoted e.demoted false (sites_of obs) other ∙ f) r g in
    ap (λ x. decide_current_primary x.0 x.1) (applied_lem e obs some_name)
    ∙ decided_lem last.0 last.1
    ∙ ap sole only_new
