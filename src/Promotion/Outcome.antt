-- ===== src/Promotion/Outcome.antt =====
-- The three ways in which a step of package promotion ends: it fails and the world is as it was,
-- it finds nothing to do, or one accepted update stands in the new world.
use cnpg_ha.Base.{◌≡◌, sym, ap, ◌∙◌, subst, arith}
use cnpg_ha.Base.Message.{Err}
use cnpg_ha.Base.Exec.{ok, err, Exec}

pub data Outcome {W : Type 0} (m : Exec W (Unit {0})) (w : W) (Done : Type 0) (Wrote : W → Type 0)
    : Type 0 where
  failed : (e : Err) → m w ≡ (err e, w) → Outcome m w Done Wrote
  settled : m w ≡ (ok tt, w) → Done → Outcome m w Done Wrote
  wrote : (w' : W) → m w ≡ (ok tt, w') → Wrote w' → Outcome m w Done Wrote

module _ {W : Type 0} {m : Exec W (Unit {0})} {w : W} {Done : Type 0} {Wrote : W → Type 0} where
  -- An error comes with the world as it was.
  pub Outcome-error : Outcome m w Done Wrote → (e : Err) → (m w).0 ≡ err e → (m w).1 ≡ w
  Outcome-error (failed _ q) e h = ap (λ x. x.1) q
  Outcome-error (settled q _) e h = ap (λ x. x.1) q
  Outcome-error (wrote w' q _) e h = ground (arith, ap (λ x. x.0) q)

  -- What holds where there was nothing to do, and after every write, holds after a success.
  pub Outcome-ok :
      (P : W → Type 0)
      → (Done → P w)
      → ((v : W) → Wrote v → P v)
      → Outcome m w Done Wrote
      → (m w).0 ≡ ok tt
      → P (m w).1
  Outcome-ok P d r (failed e q) h = ground (arith, ap (λ x. x.0) q)
  Outcome-ok P d r (settled q x) h = subst P (sym (ap (λ x. x.1) q)) (d x)
  Outcome-ok P d r (wrote w' q x) h = subst P (sym (ap (λ x. x.1) q)) (r w' x)

  -- What holds of the world, and of every world that is written, holds however the step ends.
  pub Outcome-any :
      (P : W → Type 0) → P w → ((v : W) → Wrote v → P v) → Outcome m w Done Wrote → P (m w).1
  Outcome-any P i r (failed e q) = subst P (sym (ap (λ x. x.1) q)) i
  Outcome-any P i r (settled q x) = subst P (sym (ap (λ x. x.1) q)) i
  Outcome-any P i r (wrote w' q x) = subst P (sym (ap (λ x. x.1) q)) (r w' x)

-- An outcome of an action is one of every action that does the same in this world.
pub Outcome-map :
    {W : Type 0} {m n : Exec W (Unit {0})} {w : W} {D D' : Type 0} {R R' : W → Type 0}
    → n w ≡ m w
    → (D → D')
    → ((v : W) → R v → R' v)
    → Outcome m w D R
    → Outcome n w D' R'
Outcome-map p d r (failed e q) = failed e (p ∙ q)
Outcome-map p d r (settled q x) = settled (p ∙ q) (d x)
Outcome-map p d r (wrote w' q x) = wrote w' (p ∙ q) (r w' x)
