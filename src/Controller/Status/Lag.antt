-- ===== src/Controller/Status/Lag.antt =====
-- The WAL bytes by which a site is behind.
use cnpg_ha.Base.{
  ℕ, ◌+◌, ◌≤◌, ◌<◌, ◌^◌, String, true, false, Option, none, some, ◌≡◌, refl, ◌↔◌, ◌⊎◌, arith, ◌==◌,
}
use cnpg_ha.Controller.Observation.{SiteObservation}
use cnpg_ha.Controller.Status.{minus_uint64, bytes_behind}

-- The LSN of the primary is known and so is that of the site; the bytes are 0 for the primary itself
-- and a site that is not behind it, and otherwise what the site's LSN lacks to that of the primary.
abbrev pub IsBehindBy : String → Option ℕ → SiteObservation → ℕ → Type 0
IsBehindBy primary lsn obs bytes =
    (head : ℕ) × (lsn ≡ some head)
    × (obs.lsn_known ≡ true)
    × (((bytes ≡ 0) × (((obs.name == primary) ≡ true) ⊎ (head ≤ obs.lsn_value)))
        ⊎ (((obs.name == primary) ≡ false)
            × (obs.lsn_value ≤ head)
            × (obs.lsn_value + bytes ≡ head)))

abbrev pub IsUint64 : Option ℕ → Type 0
IsUint64 none = Unit {0}
IsUint64 (some n) = n < 2 ^ 64

-- Where nothing is borrowed, the difference does not wrap.
minus_uint64_lem : (a b : ℕ) → b ≤ a → a < 2 ^ 64 → b + minus_uint64 a b ≡ a
minus_uint64_lem a b h k = omega arith

-- For LSNs that are uint64, a lag in bytes is reported just where the LSNs of the primary and of the
-- site are both known. It is 0 for the primary itself and for a site that is not behind it, and
-- otherwise the difference, which does not wrap.
pub bytes_behind_iff :
    (primary : String) (lsn : Option ℕ) (obs : SiteObservation) (bytes : ℕ)
    → IsUint64 lsn
    → obs.lsn_value < 2 ^ 64
    → (bytes_behind primary lsn obs ≡ some bytes) ↔ IsBehindBy primary lsn obs bytes
unfolding bytes_behind
bytes_behind_iff primary none obs bytes u v =
    (λ h. absurd (ground arith), λ (head, h, k, c). absurd (ground arith))
bytes_behind_iff primary (some lsn) obs bytes u v = (
  λ h. (lsn, refl, ground arith, ground (arith, minus_uint64_lem lsn obs.lsn_value)),
  λ (head, h, k, c). ground (arith, minus_uint64_lem lsn obs.lsn_value),
)
