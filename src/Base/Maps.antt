-- ===== src/Base/Maps.antt =====
-- Go maps with string keys, as association lists. The program never ranges over one.
use Prim.Native.String.{String}
use mathlib.Core.Path.{◌≡◌, refl}
use mathlib.Core.Option.{Option, none, some}
use mathlib.Core.List.{List, [], ◌∷◌}
use native.Mathlib.Omega.{arith}
use text.Mathlib.Text.{◌==◌}
use text.Mathlib.TextEquality.{eq_iff}
use text.Mathlib.TextPositions.{eq_refl}
use cnpg_ha.Base.Tests.{if◌then◌else◌}

abbrev pub Map : Type 0 → Type 0
Map V = List (String × V)

module _ {V : Type 0} where
  -- v, ok := m[k]
  unfoldable pub lookup : String → Map V → Option V
  lookup key [] = none
  lookup key (entry ∷ rest) = if entry.0 == key then some entry.1 else lookup key rest

  -- m[k] = v
  unfoldable pub insert : String → V → Map V → Map V
  insert key value [] = (key, value) ∷ []
  insert key value (entry ∷ rest) =
      let later = insert key value rest in
      if entry.0 == key then (key, value) ∷ rest else entry ∷ later

  -- delete(m, k)
  unfoldable pub delete : String → Map V → Map V
  delete key [] = []
  delete key (entry ∷ rest) =
      let later = delete key rest in if entry.0 == key then later else entry ∷ later

  pub lookup-insert :
      (key sought : String) (value : V) (m : Map V)
      → lookup sought (insert key value m) ≡ (if key == sought then some value else lookup sought m)
  unfolding lookup insert
  lookup-insert key sought value [] = refl
  lookup-insert key sought value (entry ∷ rest) = ground (
    arith,
    lookup-insert key sought value rest,
    eq_iff entry.0 sought,
    eq_iff entry.0 key,
    eq_iff key sought,
  )

  pub lookup-delete :
      (key sought : String) (m : Map V)
      → lookup sought (delete key m) ≡ (if key == sought then none else lookup sought m)
  unfolding lookup delete
  lookup-delete key sought [] = ground arith
  lookup-delete key sought (entry ∷ rest) = ground (
    arith,
    lookup-delete key sought rest,
    eq_iff entry.0 sought,
    eq_iff entry.0 key,
    eq_iff key sought,
  )

abbrev pub text_or_empty : Option String → String
text_or_empty none = ""
text_or_empty (some s) = s

-- m[k] of a map of strings: the empty string when the key is absent.
unfoldable pub value_at : String → Map String → String
value_at k m = text_or_empty (lookup k m)

pub value_at-insert :
    (k j v : String) (m : Map String)
    → value_at j (insert k v m) ≡ (if k == j then v else value_at j m)
unfolding value_at
value_at-insert k j v m = ground (arith, lookup-insert k j v m)

pub value_at-insert_self : (k v : String) (m : Map String) → value_at k (insert k v m) ≡ v
value_at-insert_self k v m = rw (value_at-insert, eq_refl)
