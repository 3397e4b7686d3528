-- ===== src/Postgres/Lsn.antt =====
-- ParseLSN, with strings.Cut and strconv.ParseUint(s, 16, 32) as it uses them.
pub mod Order
use Prim.Native.Char.{code}
use cnpg_ha.Base.{
  ℕ, ◌+◌, ◌-◌, ◌*◌, ◌^◌, ◌%◌, String, ◌≡◌, refl, ◌&&◌, ◌||◌, Option, none, some, ltb, leb, nat_eq,
  ◌==◌, if◌then◌else◌,
}
use cnpg_ha.Base.Message.{errorf, wrapf, str, arg, end}
use cnpg_ha.Base.Exec.{Result, ok, err, wrapped}

-- before, after, found := strings.Cut(s, "/")
unfoldable pub cut_slash : String → Option (String × String)
cut_slash String.[] = none
cut_slash (String.◌∷◌ c s) =
    let rest = cut_slash s in
    if nat_eq (code c) b'/'
    then some (String.[], s)
    else elim rest [ none ↦ none | some (a, b) ↦ some (String.◌∷◌ c a, b) ]

-- The value of a hexadecimal digit, in either case.
unfoldable pub hex_digit : ℕ → Option ℕ
hex_digit c =
    if leb b'0' c && leb c b'9'
    then some (c - b'0')
    else if leb b'a' c && leb c b'f'
    then some (c - b'a' + 10)
    else if leb b'A' c && leb c b'F'
    then some (c - b'A' + 10)
    else none

-- One round of the loop of ParseUint, on the digit that was read: one that is none is a syntax error
-- at once, and a value past 32 bits a range error at once.
abbrev pub hex_round : Option ℕ → ℕ → (ℕ → Result ℕ) → Result ℕ
hex_round none n rest = err (errorf "invalid syntax" end)
hex_round (some d) n rest =
    if ltb (n * 16 + d) (2 ^ 32) then rest (n * 16 + d) else err (errorf "value out of range" end)

unfoldable pub hex_from : ℕ → String → Result ℕ
unfolding hex_digit
hex_from n String.[] = ok n
hex_from n (String.◌∷◌ c s) = hex_round (hex_digit (code c)) n (λ m. hex_from m s)

unfoldable pub parse_uint_16_32 : String → Result ℕ
unfolding hex_from
parse_uint_16_32 s =
    wrapped "strconv.ParseUint: parsing %q: %w" (arg (str s) end)
      (if s == "" then err (errorf "invalid syntax" end) else hex_from 0 s)

abbrev pub words_lsn : Result ℕ → Result ℕ → Result ℕ
words_lsn (err e) _ = err (wrapf "parse high word: %w" end e)
words_lsn (ok hi) (err e) = err (wrapf "parse low word: %w" end e)
words_lsn (ok hi) (ok lo) = ok ((hi * 2 ^ 32 % 2 ^ 64 + lo) % 2 ^ 64)

abbrev pub parts_lsn : Option (String × String) → Result ℕ
parts_lsn none = err (errorf "expected <hex>/<hex>" end)
parts_lsn (some (hi, lo)) =
    if hi == "" || lo == ""
    then err (errorf "expected <hex>/<hex>" end)
    else words_lsn (parse_uint_16_32 hi) (parse_uint_16_32 lo)

unfoldable pub parse_lsn : String → Result ℕ
unfolding cut_slash parse_uint_16_32
parse_lsn s = parts_lsn (cut_slash s)

parse_lsn_sample : parse_lsn "0/16B6C50" ≡ ok 23817296
unfolding parse_lsn
parse_lsn_sample = refl
