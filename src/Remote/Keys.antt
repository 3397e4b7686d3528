-- ===== src/Remote/Keys.antt =====
-- cacheKey, as a function of the namespace, the Secret and the key in it.
use Prim.Native.Char.{Char, code}
use Prim.Native.String.{◌++◌}
use text.Mathlib.TextLemmas.{nil-append, cons-append, cons-eq-cons}
use mathlib.Core.Path.{ap₂}
use cnpg_ha.Base.{has_code, ℕ, String, ◌≡◌, refl, sym, ap, ◌∙◌, true, false, arith, nat_eq}
use cnpg_ha.Api.{SecretKeySelector}
use cnpg_ha.Remote.{cache_key}

nat_eq_refl : (n : ℕ) → nat_eq n n ≡ true
nat_eq_refl n = ground arith

-- A text that begins with a character has it.
starts_absurd : (c d : Char) (s : String) → c ≡ d → has_code (code c) (String.◌∷◌ d s) ≡ false → ⊥
starts_absurd c d s e h = ground (arith, ap code e)

rest_without :
    (n : ℕ) (c : Char) (s : String) → has_code n (String.◌∷◌ c s) ≡ false → has_code n s ≡ false
rest_without n c s h = ground arith

-- Two texts with a separator that their first parts do not have are split in one way.
split_inj :
    (sep : Char) (a a' b b' : String)
    → has_code (code sep) a ≡ false
    → has_code (code sep) a' ≡ false
    → a ++ String.◌∷◌ sep b ≡ a' ++ String.◌∷◌ sep b'
    → (a ≡ a') × (b ≡ b')
split_inj sep String.[] String.[] b b' h h' e =
    (refl, (cons-eq-cons.0 (sym (nil-append _) ∙ e ∙ nil-append _)).1)
split_inj sep String.[] (String.◌∷◌ c a') b b' h h' e =
    absurd
      (starts_absurd sep c a' (cons-eq-cons.0 (sym (nil-append _) ∙ e ∙ cons-append _ _ _)).0 h')
split_inj sep (String.◌∷◌ c a) String.[] b b' h h' e =
    absurd
      (starts_absurd sep c a (cons-eq-cons.0 (sym (nil-append _) ∙ sym e ∙ cons-append _ _ _)).0 h)
split_inj sep (String.◌∷◌ c a) (String.◌∷◌ c' a') b b' h h' e =
    let (heads, tails) = cons-eq-cons.0 (sym (cons-append _ _ _) ∙ e ∙ cons-append _ _ _) in
    let (x, y) =
      split_inj sep a a' b b' (rest_without (code sep) c a h) (rest_without (code sep) c' a' h')
        tails in
    (ap₂ (λ u v. String.◌∷◌ u v) heads x, y)

single-append : (c : Char) (s : String) → String.◌∷◌ c String.[] ++ s ≡ String.◌∷◌ c s
single-append c s = cons-append _ _ _ ∙ ap (λ x. String.◌∷◌ c x) (nil-append s)

-- The key as a namespace, a slash, and a name, a hash sign and a key.
cache_key_lem :
    (namespace : String) (s : SecretKeySelector)
    → cache_key namespace s ≡ namespace ++ String.◌∷◌ "/" (s.name ++ String.◌∷◌ "#" s.key)
unfolding cache_key
cache_key_lem namespace s =
    ap (λ x. namespace ++ x)
      (single-append "/" _ ∙ ap (λ x. String.◌∷◌ "/" (s.name ++ x)) (single-append "#" s.key))

-- Two keys of the cache are equal only for the same namespace, Secret and key in it, where no
-- namespace has a slash and no name of a Secret a hash sign.
pub cache_key_inj :
    (namespace namespace' : String) (s s' : SecretKeySelector)
    → has_code b'/' namespace ≡ false
    → has_code b'/' namespace' ≡ false
    → has_code b'#' s.name ≡ false
    → has_code b'#' s'.name ≡ false
    → cache_key namespace s ≡ cache_key namespace' s'
    → (namespace ≡ namespace') × (s.name ≡ s'.name) × (s.key ≡ s'.key)
cache_key_inj namespace namespace' s s' n n' m m' e =
    let whole = sym (cache_key_lem namespace s) ∙ e ∙ cache_key_lem namespace' s' in
    let (ns, rest) = split_inj "/" namespace namespace' _ _ n n' whole in
    let (name, key) = split_inj "#" s.name s'.name _ _ m m' rest in (ns, name, key)
