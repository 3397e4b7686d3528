-- ===== src/Base/Moves.antt =====
-- Actions that move a state along a reflexive and transitive relation only, one rule for each way
-- to build an action.
use mathlib.Core.Path.{◌≡◌, refl}
use mathlib.Core.Bool.{Bool, true, false}
use cnpg_ha.Base.Tests.{if◌then◌else◌}
use cnpg_ha.Base.Message.{Err}
use cnpg_ha.Base.Exec.{
  Result, ok, err, Exec, pure, fail, reads, from_result, gets, wrap, attempt, catch, recovered,
  proceed, ◌>>=◌,
}
use cnpg_ha.Base.Message.{Args}
use Prim.Native.String.{String}

pub record Order {S : Type 0} (R : S → S → Type 0) : Type 0 where
  pub stay : (s : S) → R s s
  pub chain : (s t u : S) → R s t → R t u → R s u

-- `m` moves along `R`, whether it succeeds or fails.
pub record Moves {S A : Type 0} (R : S → S → Type 0) (m : Exec S A) : Type 0 where
  pub at : (s : S) → R s (m s).1

module _ {S : Type 0} {R : S → S → Type 0} ⦃o : Order R⦄ where
  pub pure-Moves : {A : Type 0} (a : A) → Moves R (pure a)
  pure-Moves a = record { at = o.stay }

  pub fail-Moves : {A : Type 0} (e : Err) → Moves R (fail {A = A} e)
  fail-Moves e = record { at = o.stay }

  pub gets-Moves : {A : Type 0} (f : S → A) → Moves R (gets f)
  gets-Moves f = record { at = o.stay }

  pub reads-Moves : {A : Type 0} (f : S → Result A) → Moves R (reads f)
  reads-Moves f = record { at = o.stay }

  pub from_result-Moves : {A : Type 0} (r : Result A) → Moves R (from_result r)
  from_result-Moves r = record { at = o.stay }

  proceed_moves :
      {A B : Type 0} (r : Result A) (f : A → Exec S B) (s t : S)
      → ((a : A) → Moves R (f a))
      → R s t
      → R s (proceed r f t).1
  proceed_moves (ok a) f s t mf h = o.chain _ _ _ h ((mf a).at t)
  proceed_moves (err e) f s t mf h = h

  -- A first action that moves along `R` from this state.
  pub bind_at :
      {A B : Type 0} (m : Exec S A) (f : A → Exec S B) (s : S)
      → R s (m s).1
      → ((a : A) → Moves R (f a))
      → R s ((m >>= f) s).1
  bind_at m f s h mf = proceed_moves (m s).0 f s (m s).1 mf h

  pub bind-Moves :
      {A B : Type 0} (m : Exec S A) (f : A → Exec S B)
      → Moves R m
      → ((a : A) → Moves R (f a))
      → Moves R (m >>= f)
  bind-Moves m f mm mf = record { at = λ s. bind_at m f s (mm.at s) mf }

  recovered_moves :
      {A : Type 0} (r : Result A) (f : Err → Exec S A) (s t : S)
      → ((e : Err) → Moves R (f e))
      → R s t
      → R s (recovered r f t).1
  recovered_moves (ok a) f s t mf h = h
  recovered_moves (err e) f s t mf h = o.chain _ _ _ h ((mf e).at t)

  pub catch-Moves :
      {A : Type 0} (m : Exec S A) (f : Err → Exec S A)
      → Moves R m
      → ((e : Err) → Moves R (f e))
      → Moves R (catch m f)
  catch-Moves m f mm mf = record { at = λ s. recovered_moves (m s).0 f s (m s).1 mf (mm.at s) }

module _ {S A : Type 0} {R : S → S → Type 0} where
  pub wrap-Moves : (f : String) (a : Args) (m : Exec S A) → Moves R m → Moves R (wrap f a m)
  wrap-Moves f a m mm = record { at = mm.at }

  pub attempt-Moves : (m : Exec S A) → Moves R m → Moves R (attempt m)
  attempt-Moves m mm = record { at = mm.at }

  pub if-Moves :
      (b : Bool) (m n : Exec S A)
      → (b ≡ true → Moves R m)
      → (b ≡ false → Moves R n)
      → Moves R (if b then m else n)
  if-Moves true m n mm mn = mm refl
  if-Moves false m n mm mn = mn refl

-- What holds of the state after the first action, and after every second one, holds after both.
proceed_keeps :
    {S A B : Type 0} (P : S → Type 0) (r : Result A) (f : A → Exec S B) (t : S)
    → P t
    → ((a : A) → P (f a t).1)
    → P (proceed r f t).1
proceed_keeps P (ok a) f t h g = g a
proceed_keeps P (err e) f t h g = h

pub bind_keeps :
    {S A B : Type 0} (P : S → Type 0) (m : Exec S A) (f : A → Exec S B) (s : S)
    → P (m s).1
    → ((a : A) → P (f a (m s).1).1)
    → P ((m >>= f) s).1
bind_keeps P m f s h g = proceed_keeps P (m s).0 f (m s).1 h g

-- A run that reads the state before it branches.
pub branch :
    {S A : Type 0} (R : S → S → Type 0) (s : S) (b : Bool) (x y : Result A × S)
    → R s x.1
    → R s y.1
    → R s (if b then x else y).1
branch R s true x y h g = h
branch R s false x y h g = g

pub ruleset moves_rules = (
  pure-Moves, fail-Moves, gets-Moves, reads-Moves, from_result-Moves, bind-Moves, catch-Moves,
  wrap-Moves, attempt-Moves, if-Moves,
)
