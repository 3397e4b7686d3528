-- ===== src/Controller/Timing.antt =====
-- The failure threshold, the health interval and the stabilization cooldown. Durations are
-- nanoseconds; the fields are int32, so no product of theirs leaves the range of an int64.
use cnpg_ha.Base.{ℕ, ◌*◌, ◌^◌, ◌≤◌, ◌<◌, ◌≡◌, ◌⊎◌, arith, ltb, if◌then◌else◌}
use cnpg_ha.Base.Int.{pos, pos_part, ltb_ℤ}
use cnpg_ha.Api.{FailoverSpec}

abbrev pub second : ℕ
second = 1000000000

abbrev pub requeue_period : ℕ
requeue_period = 30 * second

abbrev pub default_failure_threshold : ℕ
default_failure_threshold = 3

abbrev pub default_health_check_interval : ℕ
default_health_check_interval = 10 * second

abbrev pub min_stabilization_cooldown : ℕ
min_stabilization_cooldown = 30 * second

unfoldable pub effective_failure_threshold : FailoverSpec → ℕ
effective_failure_threshold f =
    if ltb_ℤ f.failure_threshold (pos 2)
    then default_failure_threshold
    else pos_part f.failure_threshold

unfoldable pub effective_health_interval : FailoverSpec → ℕ
effective_health_interval f =
    if ltb_ℤ f.health_check_interval_seconds (pos 1)
    then default_health_check_interval
    else pos_part f.health_check_interval_seconds * second

unfoldable pub stabilization_cooldown : FailoverSpec → ℕ
unfolding effective_health_interval
stabilization_cooldown f =
    let c = 3 * effective_health_interval f in
    if ltb min_stabilization_cooldown c then c else min_stabilization_cooldown

-- One failed observation is never enough, whatever the spec says.
pub threshold-ge-two : (f : FailoverSpec) → 2 ≤ effective_failure_threshold f
unfolding effective_failure_threshold
threshold-ge-two f = ground arith

-- The cooldown is the greater of 30 seconds and three health intervals, and both lie in the range
-- of an int64 for every int32 interval.
pub cooldown_bounds :
    (f : FailoverSpec)
    → pos_part f.health_check_interval_seconds < 2 ^ 31
    → (30 * second ≤ stabilization_cooldown f)
      × (3 * effective_health_interval f ≤ stabilization_cooldown f)
      × ((stabilization_cooldown f ≡ 30 * second)
          ⊎ (stabilization_cooldown f ≡ 3 * effective_health_interval f))
      × (stabilization_cooldown f < 2 ^ 63)
unfolding stabilization_cooldown
cooldown_bounds f h = ground arith
