-- ===== src/Postgres/Lsn/Order.antt =====
-- The number that stands for an LSN: its range, and its order.
use Prim.Native.Char.{code}
use cnpg_ha.Base.{
  ℕ, ◌+◌, ◌*◌, ◌^◌, ◌<◌, String, some, ◌≡◌, ap, sym, ◌∙◌, ◌↔◌, ◌⊎◌, arith, Bool-cases, Option-cases,
  inl, inr, ltb, ◌==◌,
}
use cnpg_ha.Base.Exec.{ok, Result-cases}
use cnpg_ha.Postgres.Lsn.{
  cut_slash, hex_digit, hex_from, parse_uint_16_32, words_lsn, parts_lsn, parse_lsn,
}

hex_from_bound : (n : ℕ) (s : String) (v : ℕ) → n < 2 ^ 32 → hex_from n s ≡ ok v → v < 2 ^ 32
unfolding hex_from
hex_from_bound n String.[] v b h = ground arith
hex_from_bound n (String.◌∷◌ c s) v b h = elim (Option-cases (hex_digit (code c))) [
  | inl e ↦ absurd (ground (arith, (rw (hex_from, e) at h)))
  | inr (d, e) ↦ elim (Bool-cases (ltb (n * 16 + d) (2 ^ 32))) [
    | inl l ↦ hex_from_bound (n * 16 + d) s v (ground (arith, l)) (rw (hex_from, e, l) at h)
    | inr g ↦ absurd (ground (arith, (rw (hex_from, e, g) at h)))
  ]
]

word_bound : (s : String) (v : ℕ) → parse_uint_16_32 s ≡ ok v → v < 2 ^ 32
unfolding parse_uint_16_32
word_bound s v h = elim (Bool-cases (s == "")) [
  | inl e ↦ ground arith
  | inr n ↦ hex_from_bound 0 s v (omega arith) (ground arith)
]

-- No arithmetic of the two words wraps.
words_exact :
    (hi lo : ℕ) → hi < 2 ^ 32 → lo < 2 ^ 32 → words_lsn (ok hi) (ok lo) ≡ ok (hi * 2 ^ 32 + lo)
words_exact hi lo b c = ap ok (omega arith)

-- The text is two hexadecimal words, with these values, that a slash joins.
abbrev pub ReadsAs : String → ℕ → ℕ → Type 0
ReadsAs s high low =
    (hi : String) × (lo : String) × (cut_slash s ≡ some (hi, lo))
    × (parse_uint_16_32 hi ≡ ok high)
    × (parse_uint_16_32 lo ≡ ok low)
    × (high < 2 ^ 32)
    × (low < 2 ^ 32)

read_parts :
    (s hi lo : String) (v : ℕ)
    → cut_slash s ≡ some (hi, lo)
    → parts_lsn (some (hi, lo)) ≡ ok v
    → (high : ℕ) × (low : ℕ) × ReadsAs s high low × (v ≡ high * 2 ^ 32 + low)
read_parts s hi lo v c h = elim (Result-cases (parse_uint_16_32 hi)) [
  | inr (e, f) ↦ absurd (ground (arith, f))
  | inl (high, f) ↦ elim (Result-cases (parse_uint_16_32 lo)) [
    | inr (e, g) ↦ absurd (ground (arith, f, g))
    | inl (low, g) ↦
        let b = word_bound hi high f in
        let d = word_bound lo low g in
        (high, low, (hi, lo, c, f, g, b, d), ground (arith, f, g, words_exact high low b d))
  ]
]

abbrev Value : String → ℕ → Type 0
Value s v = (high : ℕ) × (low : ℕ) × ReadsAs s high low × (v ≡ high * 2 ^ 32 + low)

-- A text that ParseLSN accepts is two words of 32 bits, and its number is the one that these spell:
-- the sum in 64 bits does not wrap.
pub parse_lsn_value : (s : String) (v : ℕ) → parse_lsn s ≡ ok v → Value s v
unfolding parse_lsn
parse_lsn_value s v h = elim (Option-cases (cut_slash s)) [
  | inl n ↦ absurd (ground (arith, n))
  | inr ((hi, lo), c) ↦ read_parts s hi lo v c (sym (ap parts_lsn c) ∙ h)
]

-- Numbers of LSNs are in the order of their words, the high ones first.
pub parse_lsn_order :
    (s t : String) (v w : ℕ)
    → parse_lsn s ≡ ok v
    → parse_lsn t ≡ ok w
    → (high : ℕ) × (low : ℕ) × (high' : ℕ) × (low' : ℕ) × ReadsAs s high low
      × ReadsAs t high' low'
      × ((v < w) ↔ ((high < high') ⊎ ((high ≡ high') × (low < low'))))
parse_lsn_order s t v w h k =
    let (high, low, r, e) = parse_lsn_value s v h in
    let (high', low', r', e') = parse_lsn_value t w k in
    let (_, _, _, _, _, _, b) = r in
    let (_, _, _, _, _, _, b') = r' in
    (high, low, high', low', r, r', ((λ x. omega arith), (λ x. omega arith)))
