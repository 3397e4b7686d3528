-- ===== src/Platform/Places.antt =====
-- The places of objects, compared.
use cnpg_ha.Base.{String, ◌≡◌, ◌≢◌, ap, ◌⊎◌, inl, inr, arith, text-cases, eq_iff}
use cnpg_ha.Platform.{Ref}

ref_ne : (a b : Ref) → (a.namespace ≢ b.namespace) ⊎ (a.name ≢ b.name) → a ≢ b
ref_ne a b (inl n) e = n (ap (λ x. x.namespace) e)
ref_ne a b (inr n) e = n (ap (λ x. x.name) e)

pub text-cases_ne : (s t : String) → (s ≡ t) ⊎ (s ≢ t)
text-cases_ne s t = elim (text-cases s t) [
  | inl e ↦ inl e
  | inr n ↦ inr (λ e. ground (arith, (eq_iff s t).1 e))
]

pub ref-cases : (a b : Ref) → (a ≡ b) ⊎ (a ≢ b)
ref-cases a b = elim (text-cases_ne a.namespace b.namespace) [
  | inr n ↦ inr (ref_ne a b (inl n))
  | inl e ↦ elim (text-cases_ne a.name b.name) [
    | inr n ↦ inr (ref_ne a b (inr n))
    | inl e' ↦ inl (λ i. record { namespace = e i; name = e' i })
  ]
]
