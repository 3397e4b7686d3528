-- ===== src/Sim/Conditions.antt =====
-- The conditions of the concrete platform behave as the laws say.
use cnpg_ha.Base.{
  String, false, List, [], ◌∷◌, some, ◌≡◌, refl, inl, inr, ◌==◌, eq_refl, eq_iff, arith, Bool-cases,
}
use cnpg_ha.Api.{Condition}
use cnpg_ha.Platform.Laws.{ConditionLaws, find_condition}
use cnpg_ha.Sim.{sim, set_condition}

find-set_condition :
    (c : Condition) (cs : List Condition) → find_condition c.kind (set_condition c cs) ≡ some c
find-set_condition c [] = rw (eq_refl c.kind) refl
find-set_condition c (d ∷ ds) = elim (Bool-cases (d.kind == c.kind)) [
  | inl e ↦ rw (e, eq_refl c.kind) refl
  | inr n ↦ rw (n, n) (find-set_condition c ds)
]

find-set_condition_other :
    (c : Condition) (kind : String) (cs : List Condition)
    → (c.kind == kind) ≡ false
    → find_condition kind (set_condition c cs) ≡ find_condition kind cs
find-set_condition_other c kind [] n = rw n refl
find-set_condition_other c kind (d ∷ ds) n = ground (
  arith,
  find-set_condition_other c kind ds n,
  eq_iff d.kind c.kind,
  eq_iff d.kind kind,
  eq_iff c.kind kind,
)

pub sim-ConditionLaws : ConditionLaws sim
sim-ConditionLaws = record {
  find-set_condition = λ c cs. (c, find-set_condition c cs, refl, refl, refl);
  find-set_condition_other = find-set_condition_other;
}
