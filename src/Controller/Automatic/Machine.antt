-- ===== src/Controller/Automatic/Machine.antt =====
-- The automatic failover as an abstract machine: the primary of the status, the failures in a row
-- and the time of the last failover, and what one reconcile makes of them.
pub mod Refinement
use cnpg_ha.Base.{
  ℕ, ◌+◌, String, Bool, true, false, not, Option, none, some, List, ltb, ◌==◌, if◌then◌else◌, ◌≡◌,
  refl, sym, ap, ◌∙◌, subst, inl, inr, Bool-cases,
}
use cnpg_ha.Base.Message.{Err, wrapf, str, end, arg}
use cnpg_ha.Base.Exec.{Result, ok, err}
use cnpg_ha.Api.{Time, failover_mode_automatic}
use cnpg_ha.Platform.{Platform}
use cnpg_ha.Controller.Observation.{SiteObservation}
use cnpg_ha.Controller.Target.{Candidate, choose_target}
use cnpg_ha.Controller.Timing.{effective_failure_threshold}
use cnpg_ha.Controller.Effect.{PromotionEffect, no_effect}
use cnpg_ha.Controller.State.{
  Reconciler, State, ha_key, bumped, event, publish, set_status_condition, set_failover_in_progress,
  bump_fail_count, reset_fail_count,
}
use cnpg_ha.Controller.Frame.{SiteFrame, PromotionFrame, site_promotion}
use cnpg_ha.Controller.Frame.Sites.{run_promotion-Moves}
use cnpg_ha.Controller.Failover.{run_promotion}
use cnpg_ha.Controller.Manual.{record_failover, report_failure}
use cnpg_ha.Controller.Automatic.{
  current_name, is_suspended, announce_automatically, automatic_failure, conclude_automatically,
  promote_automatically, count_failure, handle_automatic_failover,
}
use cnpg_ha.Controller.Automatic.Guards.{counted, bumped_self, forgotten_self}

pub record View : Type 0 where
  pub primary : String
  pub failures : ℕ
  pub last_failover : Option Time

-- A promotion that is tried: of which site, how the sequence ends, and when.
pub record Trial : Type 0 where
  pub target : String
  pub outcome : Result (Unit {0})
  pub finished : Time

-- What one reconcile finds.
pub record Finding : Type 0 where
  pub automatic : Bool
  pub suspended : Bool
  pub threshold : ℕ
  pub current : String
  pub trial : Option Trial

abbrev pub Turn : Type 0
Turn = Result PromotionEffect × View

-- The end of a trial, by its outcome.
abbrev pub ended : String → Trial → Result (Unit {0}) → View → Turn
ended current t (err e) v =
    (err (wrapf "automatic failover to %q: %w" (arg (str t.target) end) e), v)
ended current t (ok x) v = (
  ok (record { demoted = current; promoted = t.target }),
  record { primary = t.target; failures = 0; last_failover = some t.finished },
)

abbrev pub tried : String → Option Trial → View → Turn
tried current none v = (ok no_effect, v)
tried current (some t) v = ended current t t.outcome v

-- One reconcile of the machine.
abbrev pub turn : Finding → View → Turn
turn f v =
    if not f.automatic
    then (ok no_effect, v)
    else if f.suspended
    then (ok no_effect, record v { failures = 0 })
    else if ltb (v.failures + 1) f.threshold
    then (ok no_effect, record v { failures = v.failures + 1 })
    else tried f.current f.trial (record v { failures = v.failures + 1 })

abbrev pub view_of : (p : Platform) → State p → View
view_of p s = record {
  primary = s.ha.status.current_primary_site;
  failures = s.fail_count (ha_key s.ha);
  last_failover = s.ha.status.last_failover_time;
}

module _ (p : Platform) (r : Reconciler p) where
  abbrev SameView : State p → State p → Type 0
  SameView s t = view_of p t ≡ view_of p s

  instance abbrev same_view_frame : SiteFrame p r SameView
  same_view_frame = record {
    clients = record {
      order = record { stay = λ s. refl; chain = λ s t u a b. b ∙ a };
      served = λ namespace secret_ref s. refl;
      evented = λ e s. refl;
    };
    wrote = λ k c o s. refl;
  }

  instance abbrev same_view_promotion : PromotionFrame p r SameView
  same_view_promotion = site_promotion p r SameView

  announce_view :
      (current : String) (n : ℕ) (target : String) (s : State p)
      → SameView s (announce_automatically p r current n target s).1
  unfolding announce_automatically event set_failover_in_progress set_status_condition
  announce_view current n target s = elim (Bool-cases r.has_recorder) [
    | inl h ↦ rw h refl
    | inr h ↦ rw h refl
  ]

  -- What the handler returns and what the machine sees of the state after it.
  abbrev pub seen : Result PromotionEffect × State p → Turn
  seen (x, s) = (x, view_of p s)

  failure_seen :
      (target : String) (e : Err) (s : State p)
      → ((automatic_failure p r target e s).0
          ≡ err (wrapf "automatic failover to %q: %w" (arg (str target) end) e))
        × SameView s (automatic_failure p r target e s).1
  unfolding automatic_failure report_failure event set_failover_in_progress set_status_condition
  failure_seen target e s = elim (Bool-cases r.has_recorder) [
    | inl h ↦ rw h (refl, refl)
    | inr h ↦ rw h (refl, refl)
  ]

  conclude_seen :
      (current target : String) (start : Time) (s : State p)
      → seen (conclude_automatically p r current target start s) ≡ (
        ok (record { demoted = current; promoted = target }),
        record { primary = target; failures = 0; last_failover = some (p.now s.world) },
      )
  unfolding conclude_automatically record_failover publish set_failover_in_progress
      set_status_condition event reset_fail_count
  conclude_seen current target start s = elim (Bool-cases r.has_recorder) [
    | inl h ↦ rw (h, forgotten_self (ha_key s.ha) s.fail_count) refl
    | inr h ↦ rw (h, forgotten_self (ha_key s.ha) s.fail_count) refl
  ]

  -- The trial that the handler makes of the target, from a state on.
  abbrev pub trial_of : String → ℕ → State p → Option Candidate → Option Trial
  trial_of current n s none = none
  trial_of current n s (some c) =
      let announced = (announce_automatically p r current n c.site.name s).1 in
      let (x, s') = run_promotion p r current c.site announced in
      some (record { target = c.site.name; outcome = x; finished = p.now s'.world })

  announce_ok :
      (current : String) (n : ℕ) (target : String) (s : State p)
      → (announce_automatically p r current n target s).0 ≡ ok tt
  unfolding announce_automatically event set_failover_in_progress set_status_condition
  announce_ok current n target s = refl

  no_candidate_seen :
      (current : String) (n : ℕ) (s : State p)
      → seen (promote_automatically p r current n none s) ≡ (ok no_effect, view_of p s)
  unfolding promote_automatically event
  no_candidate_seen current n s = elim (Bool-cases r.has_recorder) [
    | inl h ↦ rw h refl
    | inr h ↦ rw h refl
  ]

  -- The trial by its outcome.
  pub tried_seen :
      (current : String) (n : ℕ) (c : Candidate) (s : State p) (x : Result (Unit {0}))
      → let announced = (announce_automatically p r current n c.site.name s).1 in
        let run = run_promotion p r current c.site announced in
        run.0 ≡ x
        → seen (promote_automatically p r current n (some c) s)
          ≡ ended current
              (record { target = c.site.name; outcome = x; finished = p.now run.1.world })
              x
              (view_of p s)
  unfolding promote_automatically
  tried_seen current n c s (ok x) e =
      rw (announce_ok current n c.site.name s, e) (conclude_seen current c.site.name _ _)
  tried_seen current n c s (err x) e =
      let announced = (announce_automatically p r current n c.site.name s).1 in
      let run = run_promotion p r current c.site announced in
      let (failed, same) = failure_seen c.site.name x run.1 in
      let kept : view_of p (automatic_failure p r c.site.name x run.1).1 ≡ view_of p s =
        same
        ∙ (run_promotion-Moves p r SameView current c.site).at announced
        ∙ announce_view current n c.site.name s in
      rw (announce_ok current n c.site.name s, e, failed)
        (ap (λ v. (err (wrapf "automatic failover to %q: %w" (arg (str c.site.name) end) x), v))
          kept)

  pub promote_seen :
      (current : String) (n : ℕ) (s : State p) (o : Option Candidate)
      → seen (promote_automatically p r current n o s)
        ≡ tried current (trial_of current n s o) (view_of p s)
  promote_seen current n s none = no_candidate_seen current n s
  promote_seen current n s (some c) = tried_seen current n c s _ refl
