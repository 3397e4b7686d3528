-- ===== src/Controller/Target/Champion.antt =====
-- The loop of chooseTarget as a fold over the eligible replicas.
use mathlib.Core.List.{head?}
use cnpg_ha.Base.{
  ℕ, suc, String, ◌≡◌, ◌↔◌, ◌⊎◌, inl, inr, refl, sym, ap, subst, true, false, Option, none, some,
  List, [], ◌∷◌, ◌++◌, All, arith, Bool-cases, if◌then◌else◌,
}
use cnpg_ha.Api.{ReplicaSite}
use cnpg_ha.Controller.Observation.{SiteObservation}
use cnpg_ha.Controller.Target.{more_advanced, Candidate, is_eligible, round, choose_from}
use cnpg_ha.Controller.Target.Advance.{
  more_advanced_irrefl, more_advanced_asymm, more_advanced_trans,
}

-- The replicas that may be promoted, in spec order: reachable, ready, in the replica role, and
-- not the failed primary.
abbrev pub eligible : String → ℕ → List ReplicaSite → List SiteObservation → List Candidate
eligible failed i [] obs = []
eligible failed i (rep ∷ reps) [] = []
eligible failed i (rep ∷ reps) (o ∷ obs) =
    let c : Candidate = record { index = i; site = rep; obs = o } in
    let rest = eligible failed (suc i) reps obs in if is_eligible failed c then c ∷ rest else rest

-- A candidate of the list that no other is ahead of, and that is ahead of all before it.
abbrev pub IsFirstBest : Candidate → List Candidate → Type 0
IsFirstBest c cs =
    (before after : List Candidate) × (cs ≡ before ++ c ∷ after)
    × All (λ d. more_advanced d.obs c.obs ≡ false) cs
    × All (λ d. more_advanced c.obs d.obs ≡ true) before

-- The fold that the loop makes over the eligible replicas, once it has a first one.
pub champion : Candidate → List Candidate → Candidate
champion b [] = b
champion b (c ∷ cs) = champion (if more_advanced c.obs b.obs then c else b) cs

choose_after :
    (failed : String) (i : ℕ) (b : Candidate) (reps : List ReplicaSite) (obs : List SiteObservation)
    → choose_from true failed i (some b) reps obs ≡ some (champion b (eligible failed i reps obs))
unfolding choose_from round champion
choose_after failed i b [] obs = refl
choose_after failed i b (rep ∷ reps) [] = refl
choose_after failed i b (rep ∷ reps) (o ∷ obs) =
    let c : Candidate = record { index = i; site = rep; obs = o } in
    elim (Bool-cases (is_eligible failed c)) [
      | inl e ↦ elim (Bool-cases (more_advanced o b.obs)) [
        | inl m ↦ rw (e, m, champion) (choose_after failed (suc i) c reps obs)
        | inr n ↦ rw (e, n, champion) (choose_after failed (suc i) b reps obs)
      ]
      | inr n ↦ rw n (choose_after failed (suc i) b reps obs)
    ]

abbrev pub champion_of : List Candidate → Option Candidate
champion_of [] = none
champion_of (c ∷ cs) = some (champion c cs)

pub choose_most_advanced_lem :
    (failed : String) (i : ℕ) (reps : List ReplicaSite) (obs : List SiteObservation)
    → choose_from true failed i none reps obs ≡ champion_of (eligible failed i reps obs)
unfolding choose_from round
choose_most_advanced_lem failed i [] obs = refl
choose_most_advanced_lem failed i (rep ∷ reps) [] = refl
choose_most_advanced_lem failed i (rep ∷ reps) (o ∷ obs) =
    let c : Candidate = record { index = i; site = rep; obs = o } in
    elim (Bool-cases (is_eligible failed c)) [
      | inl e ↦ rw e (choose_after failed (suc i) c reps obs)
      | inr n ↦ rw n (choose_most_advanced_lem failed (suc i) reps obs)
    ]

pub choose_ordered_lem :
    (failed : String) (i : ℕ) (reps : List ReplicaSite) (obs : List SiteObservation)
    → choose_from false failed i none reps obs ≡ head? (eligible failed i reps obs)
unfolding choose_from round
choose_ordered_lem failed i [] obs = refl
choose_ordered_lem failed i (rep ∷ reps) [] = refl
choose_ordered_lem failed i (rep ∷ reps) (o ∷ obs) =
    let c : Candidate = record { index = i; site = rep; obs = o } in
    elim (Bool-cases (is_eligible failed c)) [
      | inl e ↦ rw e
      | inr n ↦ rw n (choose_ordered_lem failed (suc i) reps obs)
    ]

-- The champion of a fold is its start, or the first best of the list, and ahead of the start.
abbrev Champion : Candidate → List Candidate → Candidate → Type 0
Champion b cs r =
    ((r ≡ b) × All (λ d. more_advanced d.obs b.obs ≡ false) cs)
    ⊎ (IsFirstBest r cs × (more_advanced r.obs b.obs ≡ true))

-- The next candidate is ahead of the start, and takes its place.
ahead :
    (b c : Candidate) (cs : List Candidate) (r : Candidate)
    → more_advanced c.obs b.obs ≡ true
    → Champion c cs r
    → Champion b (c ∷ cs) r
ahead b c cs r m (inl (e, all)) = inr (
  (
    [],
    cs,
    ap (λ x. x ∷ cs) (sym e),
    subst (λ x. All (λ d. more_advanced d.obs x.obs ≡ false) (c ∷ cs)) (sym e)
        (more_advanced_irrefl c.obs, all),
    tt,
  ),
  subst (λ x. more_advanced x.obs b.obs ≡ true) (sym e) m,
)
ahead b c cs r m (inr ((before, after, e, all, best), k)) = inr (
  (c ∷ before, after, ap (λ x. c ∷ x) e, (more_advanced_asymm r.obs c.obs k, all), (k, best)),
  more_advanced_trans r.obs c.obs b.obs k m,
)

-- What is not ahead of b is behind all that is ahead of b.
behind_of :
    (r b c : SiteObservation)
    → more_advanced r b ≡ true
    → more_advanced c b ≡ false
    → more_advanced r c ≡ true
unfolding more_advanced
behind_of r b c h k = ground arith

-- The next candidate is not ahead of the start.
behind :
    (b c : Candidate) (cs : List Candidate) (r : Candidate)
    → more_advanced c.obs b.obs ≡ false
    → Champion b cs r
    → Champion b (c ∷ cs) r
behind b c cs r n (inl (e, all)) = inl (e, (n, all))
behind b c cs r n (inr ((before, after, e, all, best), k)) =
    let m = behind_of r.obs b.obs c.obs k n in
    inr (
      (c ∷ before, after, ap (λ x. c ∷ x) e, (more_advanced_asymm r.obs c.obs m, all), (m, best)),
      k,
    )

champion_ahead :
    (b c : Candidate) (cs : List Candidate)
    → more_advanced c.obs b.obs ≡ true
    → champion c cs ≡ champion b (c ∷ cs)
unfolding champion
champion_ahead b c cs m = ap (λ t. champion (if t then c else b) cs) (sym m)

champion_behind :
    (b c : Candidate) (cs : List Candidate)
    → more_advanced c.obs b.obs ≡ false
    → champion b cs ≡ champion b (c ∷ cs)
unfolding champion
champion_behind b c cs m = ap (λ t. champion (if t then c else b) cs) (sym m)

champion_lem : (b : Candidate) (cs : List Candidate) → Champion b cs (champion b cs)
unfolding champion
champion_lem b [] = inl (refl, tt)
champion_lem b (c ∷ cs) = elim (Bool-cases (more_advanced c.obs b.obs)) [
  | inl m ↦
      subst (Champion b (c ∷ cs)) (champion_ahead b c cs m)
        (ahead b c cs (champion c cs) m (champion_lem c cs))
  | inr n ↦
      subst (Champion b (c ∷ cs)) (champion_behind b c cs n)
        (behind b c cs (champion b cs) n (champion_lem b cs))
]

-- The fold from the first of a list finds the first best of the list.
pub champion_of-IsFirstBest :
    (cs : List Candidate) (r : Candidate) → champion_of cs ≡ some r → IsFirstBest r cs
champion_of-IsFirstBest [] r h = cc
champion_of-IsFirstBest (c ∷ cs) r h =
    let e : champion c cs ≡ r = cc in
    subst (λ x. IsFirstBest x (c ∷ cs)) e (first_best (champion_lem c cs))
  where
    first_best : Champion c cs (champion c cs) → IsFirstBest (champion c cs) (c ∷ cs)
    first_best (inl (e, all)) = (
      [],
      cs,
      ap (λ x. x ∷ cs) (sym e),
      subst (λ x. All (λ d. more_advanced d.obs x.obs ≡ false) (c ∷ cs)) (sym e)
          (more_advanced_irrefl c.obs, all),
      tt,
    )
    first_best (inr ((before, after, e, all, best), k)) = (
      c ∷ before,
      after,
      ap (λ x. c ∷ x) e,
      (more_advanced_asymm (champion c cs).obs c.obs k, all),
      (k, best),
    )

pub champion_of-none_iff : (cs : List Candidate) → (champion_of cs ≡ none) ↔ (cs ≡ [])
champion_of-none_iff [] = (λ h. refl, λ h. refl)
champion_of-none_iff (c ∷ cs) = (λ h. cc, λ h. cc)

pub head-none_iff : (cs : List Candidate) → (head? cs ≡ none) ↔ (cs ≡ [])
head-none_iff [] = (λ h. refl, λ h. refl)
head-none_iff (c ∷ cs) = (λ h. cc, λ h. cc)
