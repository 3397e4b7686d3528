-- ===== src/Postgres/Endpoint.antt =====
-- net.JoinHostPort, with which ConnUrl's host and port become one text, and normalizeHostPort that
-- takes such a text apart.
use Prim.Native.Char.{Char, code}
use Prim.Native.String.{◌++◌}
use text.Mathlib.TextLemmas.{nil-append, cons-append}
use cnpg_ha.Base.{
  ℕ, String, ◌≡◌, refl, sym, ap, ◌∙◌, true, false, Bool, ◌||◌, none, some, has_code, nat_eq, arith,
  if◌then◌else◌, Bool-cases, inl, inr,
}
use cnpg_ha.Base.Int.{ℤ}
use cnpg_ha.Platform.{named}
use cnpg_ha.Postgres.Probe.{cut_at, split_host_port, normalize_host_port}

-- net.JoinHostPort.
abbrev pub join_host_port : String → String → String
join_host_port host port =
    if has_code b':' host
    then String.◌∷◌ "[" (host ++ String.◌∷◌ "]" (String.◌∷◌ ":" port))
    else host ++ String.◌∷◌ ":" port

or_assoc : (a b c : Bool) → (a || (b || c)) ≡ (a || b || c)
or_assoc true b c = refl
or_assoc false b c = refl

has_code-append : (n : ℕ) (s t : String) → has_code n (s ++ t) ≡ (has_code n s || has_code n t)
has_code-append n String.[] t = ap (has_code n) (nil-append t)
has_code-append n (String.◌∷◌ c s) t =
    ap (has_code n) (cons-append c s t)
    ∙ ap (λ b. nat_eq (code c) n || b) (has_code-append n s t)
    ∙ or_assoc (nat_eq (code c) n) (has_code n s) (has_code n t)

-- A text without a code: its first character and the others.
without :
    (n : ℕ) (c : Char) (s : String)
    → has_code n (String.◌∷◌ c s) ≡ false
    → (nat_eq (code c) n ≡ false) × (has_code n s ≡ false)
without n c s h = ground arith

cut_here :
    (n : ℕ) (c : Char) (s : String)
    → nat_eq (code c) n ≡ true
    → cut_at n (String.◌∷◌ c s) ≡ some (String.[], s)
unfolding cut_at
cut_here n c s h = rw h refl

cut_later :
    (n : ℕ) (c : Char) (s a b : String)
    → nat_eq (code c) n ≡ false
    → cut_at n s ≡ some (a, b)
    → cut_at n (String.◌∷◌ c s) ≡ some (String.◌∷◌ c a, b)
unfolding cut_at
cut_later n c s a b h e =
    ap
      (λ o.
        if nat_eq (code c) n
        then some (String.[], s)
        else elim o [ none ↦ none | some (x, y) ↦ some (String.◌∷◌ c x, y) ])
      e
    ∙ rw h refl

-- A text is cut at its first separator.
cut_at-append :
    (n : ℕ) (c : Char) (s t : String)
    → nat_eq (code c) n ≡ true
    → has_code n s ≡ false
    → cut_at n (s ++ String.◌∷◌ c t) ≡ some (s, t)
cut_at-append n c String.[] t same h = ap (cut_at n) (nil-append _) ∙ cut_here n c t same
cut_at-append n c (String.◌∷◌ d s) t same h =
    let (other, rest) = without n d s h in
    ap (cut_at n) (cons-append d s _)
    ∙ cut_later n d (s ++ String.◌∷◌ c t) s t other (cut_at-append n c s t same rest)

-- The parts that an endpoint is joined from.
abbrev pub IsPlain : String → String → Type 0
IsPlain host port =
    (has_code b'[' host ≡ false)
    × (has_code b']' host ≡ false)
    × (has_code b':' port ≡ false)
    × (has_code b'[' port ≡ false)
    × (has_code b']' port ≡ false)

split_bracketed :
    (host port : String)
    → IsPlain host port
    → split_host_port (String.◌∷◌ "[" (host ++ String.◌∷◌ "]" (String.◌∷◌ ":" port)))
      ≡ some (host, port)
unfolding split_host_port
split_bracketed host port (open_h, close_h, colon, open_p, close_p) =
    rw
      (
        cut_at-append b']' "]" host (String.◌∷◌ ":" port) refl close_h,
        open_h,
        colon,
        open_p,
        close_p,
      )
      refl

-- The same of a text that begins with no bracket.
plain_split :
    (c : Char) (s host port : String)
    → nat_eq (code c) b'[' ≡ false
    → cut_at b':' (String.◌∷◌ c s) ≡ some (host, port)
    → has_code b':' port ≡ false
    → has_code b'[' (String.◌∷◌ c s) ≡ false
    → has_code b']' (String.◌∷◌ c s) ≡ false
    → split_host_port (String.◌∷◌ c s) ≡ some (host, port)
unfolding split_host_port
plain_split c s host port n e colon open_s close_s = rw (n, e, colon, open_s, close_s) refl

bracket_free :
    (n : ℕ) (host port : String)
    → nat_eq b':' n ≡ false
    → has_code n host ≡ false
    → has_code n port ≡ false
    → has_code n (host ++ String.◌∷◌ ":" port) ≡ false
bracket_free n host port m h g = has_code-append n host (String.◌∷◌ ":" port) ∙ rw (h, m, g) refl

split_plain :
    (host port : String)
    → has_code b':' host ≡ false
    → IsPlain host port
    → split_host_port (host ++ String.◌∷◌ ":" port) ≡ some (host, port)
split_plain String.[] port free (open_h, close_h, colon, open_p, close_p) =
    ap split_host_port (nil-append _)
    ∙ plain_split ":" port String.[] port refl (cut_here b':' ":" port refl) colon open_p close_p
split_plain (String.◌∷◌ c host) port free (open_h, close_h, colon, open_p, close_p) =
    let whole = cons-append c host (String.◌∷◌ ":" port) in
    ap split_host_port whole
    ∙ plain_split c (host ++ String.◌∷◌ ":" port) (String.◌∷◌ c host) port
        (without b'[' c host open_h).0
        (ap (cut_at b':') (sym whole) ∙ cut_at-append b':' ":" (String.◌∷◌ c host) port refl free)
        colon
        (ap (has_code b'[') (sym whole)
          ∙ bracket_free b'[' (String.◌∷◌ c host) port refl open_h open_p)
        (ap (has_code b']') (sym whole)
          ∙ bracket_free b']' (String.◌∷◌ c host) port refl close_h close_p)

-- normalizeHostPort takes apart what net.JoinHostPort joins: of a host, which may be an IPv6
-- address, and a port, both without brackets and the port without a colon, it returns these two,
-- whatever port is the default.
pub normalize-join_host_port :
    (host port : String) (default : ℤ)
    → IsPlain host port
    → normalize_host_port (join_host_port host port) default ≡ (host, named port)
unfolding normalize_host_port
normalize-join_host_port host port default plain = elim (Bool-cases (has_code b':' host)) [
  | inl h ↦ rw (h, split_bracketed host port plain) refl
  | inr h ↦ rw (h, split_plain host port h plain) refl
]
