-- ===== src/Controller/Target/Advance.antt =====
-- moreAdvanced as a comparison of observations.
use cnpg_ha.Base.{◌<◌, ◌≡◌, ◌⊎◌, true, false, arith, ◌↔◌}
use cnpg_ha.Base.Int.{◌<ℤ◌}
use cnpg_ha.Controller.Observation.{SiteObservation}
use cnpg_ha.Controller.Target.{more_advanced}

pub more_advanced_irrefl : (a : SiteObservation) → more_advanced a a ≡ false
unfolding more_advanced
more_advanced_irrefl a = ground arith

pub more_advanced_asymm :
    (a b : SiteObservation) → more_advanced a b ≡ true → more_advanced b a ≡ false
unfolding more_advanced
more_advanced_asymm a b h = ground arith

-- What is not behind stays so: if c is not ahead of b, nor b of a, then c is not ahead of a.
pub more_advanced_negative_trans :
    (a b c : SiteObservation)
    → more_advanced b a ≡ false
    → more_advanced c b ≡ false
    → more_advanced c a ≡ false
unfolding more_advanced
more_advanced_negative_trans a b c h k = ground arith

pub more_advanced_trans :
    (a b c : SiteObservation)
    → more_advanced a b ≡ true
    → more_advanced b c ≡ true
    → more_advanced a c ≡ true
unfolding more_advanced
more_advanced_trans a b c h k = ground arith

-- a is ahead of b exactly when it alone has a known LSN, or both have one and a's is greater, or
-- neither has one and the timeline of a is greater.
pub more_advanced_iff :
    (a b : SiteObservation)
    → (more_advanced a b ≡ true) ↔ (
        ((a.lsn_known ≡ true) × (b.lsn_known ≡ false))
        ⊎ ((a.lsn_known ≡ true) × (b.lsn_known ≡ true) × (b.lsn_value < a.lsn_value))
        ⊎ ((a.lsn_known ≡ false) × (b.lsn_known ≡ false) × (b.timeline_id <ℤ a.timeline_id)))
unfolding more_advanced
more_advanced_iff a b = ground arith
