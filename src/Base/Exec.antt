-- ===== src/Base/Exec.antt =====
-- Results with an error, and actions on a state that may fail. What an action wrote before it
-- failed stays written, so the state comes back beside the error too.
use Prim.Native.String.{String}
use mathlib.Core.Path.{◌≡◌, refl, ap}
use mathlib.Core.Logic.{◌⊎◌, inl, inr}
use native.Mathlib.Omega.{arith}
use cnpg_ha.Base.Message.{Err, Args, wrapf}

pub data Result {ℓ} (A : Type ℓ) : Type ℓ where
  ok : A → Result A
  err : Err → Result A

abbrev pub Exec : Type 0 → Type 0 → Type 0
Exec S A = S → Result A × S

-- return fmt.Errorf("...: %w", err) around the error of a result.
abbrev pub wrapped : {A : Type 0} → String → Args → Result A → Result A
wrapped f a (ok x) = ok x
wrapped f a (err e) = err (wrapf f a e)

module _ {S A : Type 0} where
  abbrev pub pure : A → Exec S A
  pure a s = (ok a, s)

  abbrev pub fail : Err → Exec S A
  fail e s = (err e, s)

  -- A read of the state that may fail.
  abbrev pub reads : (S → Result A) → Exec S A
  reads f s = (f s, s)

  abbrev pub from_result : Result A → Exec S A
  from_result r s = (r, s)

  abbrev pub gets : (S → A) → Exec S A
  gets f s = (ok (f s), s)

  -- The same around the error of an action.
  abbrev pub wrap : String → Args → Exec S A → Exec S A
  wrap f a m s = let (r, s') = m s in (wrapped f a r, s')

  -- `if err := m; err != nil { … }` where the code goes on after the error.
  abbrev pub attempt : Exec S A → Exec S (Result A)
  attempt m s = let (r, s') = m s in (ok r, s')

module _ {S A B : Type 0} where
  abbrev pub proceed : Result A → (A → Exec S B) → Exec S B
  proceed (ok a) f s = f a s
  proceed (err e) f s = (err e, s)

  infixl 5 ◌>>=◌ ◌>>◌
  abbrev pub ◌>>=◌ : Exec S A → (A → Exec S B) → Exec S B
  ◌>>=◌ m f s = let (r, s') = m s in proceed r f s'

  abbrev pub ◌>>◌ : Exec S A → Exec S B → Exec S B
  m >> n = m >>= λ _. n

module _ {S A : Type 0} where
  abbrev pub recovered : Result A → (Err → Exec S A) → Exec S A
  recovered (ok a) f s = (ok a, s)
  recovered (err e) f s = f e s

  -- `if err := m; err != nil { f; return … }`
  abbrev pub catch : Exec S A → (Err → Exec S A) → Exec S A
  catch m f s = let (r, s') = m s in recovered r f s'

abbrev pub modify : {S : Type 0} → (S → S) → Exec S (Unit {0})
modify f s = (ok tt, f s)

pub Result-cases {ℓ} :
    {A : Type ℓ} (r : Result A) → ((a : A) × (r ≡ ok a)) ⊎ ((e : Err) × (r ≡ err e))
Result-cases (ok a) = inl (a, refl)
Result-cases (err e) = inr (e, refl)

seq_failed :
    {S : Type 0} (m n : Exec S (Unit {0})) (s : S) (x : Err)
    → (m s).0 ≡ err x
    → ((m >> n) s).0 ≡ ok tt
    → ⊥
seq_failed m n s x e h = ground arith

-- A sequence that succeeds: its first part did, and it ends as its second part does.
pub seq_ok :
    {S : Type 0} (m n : Exec S (Unit {0})) (s : S)
    → ((m >> n) s).0 ≡ ok tt
    → ((m s).0 ≡ ok tt) × ((m >> n) s ≡ n (m s).1)
seq_ok m n s h = elim (Result-cases (m s).0) [
  | inl (x, e) ↦ (e, ap (λ r. proceed r (λ _. n) (m s).1) e)
  | inr (x, e) ↦ absurd (seq_failed m n s x e h)
]
