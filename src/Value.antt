-- ===== src/Value.antt =====
-- The dynamic values (`any`) that an unstructured Kubernetes object holds, and the map and slice
-- operations of Go on them. `Items` and `Fields` are `[]any` and `map[string]any`.
use cnpg_ha.Base.{
  ℕ, zero, suc, String, ◌≡◌, refl, ap, Bool, false, Option, none, some, arith, ◌==◌, eq_iff,
  if◌then◌else◌,
}
use cnpg_ha.Base.Int.{ℤ}

mutual
  pub data Value : Type 0 where
    null : Value
    flag : Bool → Value
    int : ℤ → Value
    str : String → Value
    slice : Items → Value
    object : Fields → Value

  pub data Items : Type 0 where
    nil : Items
    cons : Value → Items → Items

  pub data Fields : Type 0 where
    end : Fields
    field : String → Value → Fields → Fields

abbrev pub length : Items → ℕ
length nil = 0
length (cons v vs) = suc (length vs)

-- s[i], with `null` out of bounds, where the program never reads.
abbrev pub at : Items → ℕ → Value
at nil i = null
at (cons v vs) zero = v
at (cons v vs) (suc i) = at vs i

-- s[i] = v
abbrev pub set : Items → ℕ → Value → Items
set nil i w = nil
set (cons v vs) zero w = cons w vs
set (cons v vs) (suc i) w = cons v (set vs i w)

-- m[k], the nil interface when the key is absent.
unfoldable pub lookup : String → Fields → Value
lookup key end = null
lookup key (field name value rest) = if name == key then value else lookup key rest

-- m[k] = v
unfoldable pub insert : String → Value → Fields → Fields
insert key value end = field key value end
insert key value (field name old rest) =
    let later = insert key value rest in
    if name == key then field key value rest else field name old later

-- v.(map[string]any), v.(string)
abbrev pub as_object : Value → Option Fields
as_object (object m) = some m
as_object _ = none

abbrev pub as_string : Value → Option String
as_string (str s) = some s
as_string _ = none

-- `v == s` between an interface value and a string.
abbrev pub is_str : String → Value → Bool
is_str s (str t) = t == s
is_str s _ = false

pub lookup-insert :
    (key sought : String) (value : Value) (m : Fields)
    → lookup sought (insert key value m) ≡ (if key == sought then value else lookup sought m)
unfolding lookup insert
lookup-insert key sought value end = refl
lookup-insert key sought value (field name old rest) = ground (
  arith,
  lookup-insert key sought value rest,
  eq_iff name sought,
  eq_iff name key,
  eq_iff key sought,
)

pub at-set_self :
    (vs : Items) (i : ℕ) (w : Value) (m : Fields)
    → as_object (at vs i) ≡ some m
    → at (set vs i w) i ≡ w
at-set_self nil i w m h = cc
at-set_self (cons x vs) zero w m h = refl
at-set_self (cons x vs) (suc i) w m h = at-set_self vs i w m h

pub length-set : (vs : Items) (i : ℕ) (w : Value) → length (set vs i w) ≡ length vs
length-set nil i w = refl
length-set (cons v vs) zero w = refl
length-set (cons v vs) (suc i) w = ap suc (length-set vs i w)

pub at-set_ne : (vs : Items) (i j : ℕ) (w : Value) → (i ≡ j → ⊥) → at (set vs i w) j ≡ at vs j
at-set_ne nil i j w n = refl
at-set_ne (cons v vs) zero zero w n = absurd (n refl)
at-set_ne (cons v vs) zero (suc j) w n = refl
at-set_ne (cons v vs) (suc i) zero w n = refl
at-set_ne (cons v vs) (suc i) (suc j) w n = at-set_ne vs i j w (λ e. n (ap suc e))
