-- ===== src/Controller/Reconcile/Promoted.antt =====
-- A reconcile whose automatic failover succeeds, from the choice of the target to the report.
use cnpg_ha.Base.{
  ℕ, suc, String, Bool, true, false, ◌&&◌, Option, none, some, List, [], ◌∷◌, ◌==◌, ◌≡◌, refl, sym,
  ap, ◌∙◌, subst, inl, inr, arith, Bool-cases, lookup, text-cases, eq_iff,
}
use cnpg_ha.Base.Exec.{Result, ok}
use cnpg_ha.Api.{HaCluster, ReplicaSite}
use cnpg_ha.Platform.{Platform}
use cnpg_ha.Controller.Observation.{SiteObservation, find_among}
use cnpg_ha.Controller.Primary.{decide_current_primary}
use cnpg_ha.Controller.Target.{
  Candidate, is_eligible, more_advanced, round, choose_from, choose_target,
}
use cnpg_ha.Controller.Effect.{PromotionEffect, did_promote, apply_promotion_effect}
use cnpg_ha.Controller.Effect.Mirror.{IsUnique, IsOnly, decide-apply_promotion_effect}
use cnpg_ha.Controller.State.{Reconciler, State, annotation_promote}
use cnpg_ha.Controller.Manual.{handle_promote_annotation, handle_annotation}
use cnpg_ha.Controller.Automatic.{current_name, handle_automatic_failover}
use cnpg_ha.Controller.Automatic.Success.{sequence, IsPromoted, auto_seen}
use cnpg_ha.Controller.Reconcile.{or_prior, failover, failover_after, report}
use cnpg_ha.Controller.Reconcile.Report.{SentAs, report_sends}

-- The best candidate so far, where there is one, is eligible.
abbrev AreEligible : String → Option Candidate → Type 0
AreEligible failed none = Unit {0}
AreEligible failed (some c) = is_eligible failed c ≡ true

round-AreEligible :
    (most : Bool) (failed : String) (best : Option Candidate) (c : Candidate)
    → AreEligible failed best
    → AreEligible failed (round most failed best c).0
unfolding round
round-AreEligible most failed none c h = elim (Bool-cases (is_eligible failed c)) [
  | inl e ↦ rw e e
  | inr e ↦ rw e tt
]
round-AreEligible most failed (some b) c h =
    elim (Bool-cases (is_eligible failed c && more_advanced c.obs b.obs)) [
      | inl e ↦ let fit : is_eligible failed c ≡ true = ground arith in rw e fit
      | inr e ↦ rw e h
    ]

chosen-AreEligible :
    (most : Bool) (failed : String) (i : ℕ) (best : Option Candidate) (reps : List ReplicaSite)
    (obs : List SiteObservation)
    → AreEligible failed best
    → AreEligible failed (choose_from most failed i best reps obs)
unfolding choose_from
chosen-AreEligible most failed i best [] obs h = h
chosen-AreEligible most failed i best (rep ∷ reps) [] h = h
chosen-AreEligible most failed i best (rep ∷ reps) (o ∷ obs) h =
    let c : Candidate = record { index = i; site = rep; obs = o } in
    let next = round-AreEligible most failed best c h in
    elim (Bool-cases (round most failed best c).1) [
      | inl e ↦ rw e next
      | inr e ↦
          rw e (chosen-AreEligible most failed (suc i) (round most failed best c).0 reps obs next)
    ]

choose_target-IsEligible :
    (ha : HaCluster) (obs : List SiteObservation) (failed : String) (c : Candidate)
    → choose_target ha obs failed ≡ some c
    → is_eligible failed c ≡ true
unfolding choose_target
choose_target-IsEligible ha obs failed c h =
    subst (AreEligible failed) h (chosen-AreEligible _ failed 0 none ha.spec.replicas obs tt)

module _ (p : Platform) (r : Reconciler p) (primary_obs : SiteObservation)
    (replica_obs : List SiteObservation) (s : State p) (c : Candidate) where
  abbrev current : String
  current = current_name s.ha

  abbrev effect : PromotionEffect
  effect = record { demoted = current; promoted = c.site.name }

  abbrev auto : Result PromotionEffect × State p
  auto = handle_automatic_failover p r primary_obs replica_obs s

  auto_lem : IsPromoted p r primary_obs replica_obs s c → auto.0 ≡ ok effect
  auto_lem h = ap (λ x. x.0) (auto_seen p r primary_obs replica_obs s c h)

  failover_lem :
      lookup annotation_promote s.ha.annotations ≡ none
      → (c.site.name == "") ≡ false
      → auto.0 ≡ ok effect
      → failover p r primary_obs replica_obs s ≡ (ok (effect, ok tt), auto.1)
  unfolding failover failover_after handle_promote_annotation handle_annotation did_promote
  failover_lem n named a = rw (n, a, named) refl

  apart : choose_target s.ha replica_obs current ≡ some c → (current == c.site.name) ≡ false
  apart h =
      let fit = choose_target-IsEligible s.ha replica_obs current c h in
      elim (text-cases current c.site.name) [
        | inl e ↦ absurd (ground (arith, (eq_iff c.site.name current).1 (sym e)))
        | inr n ↦ n
      ]

  decided :
      IsPromoted p r primary_obs replica_obs s c
      → IsUnique (primary_obs ∷ replica_obs)
      → IsOnly current (primary_obs ∷ replica_obs)
      → (c.site.name == "") ≡ false
      → find_among c.site.name (primary_obs ∷ replica_obs) ≡ some c.obs
      → let (primary, replicas) = apply_promotion_effect effect (primary_obs, replica_obs) in
        decide_current_primary primary replicas ≡ (c.site.name, true)
  decided ((_, _, _, h, _), done) u only named f =
      let fit = choose_target-IsEligible s.ha replica_obs current c h in
      decide-apply_promotion_effect effect (primary_obs, replica_obs) c.obs u only named (apart h) f
        (ground arith) (ground arith)

  reported_name :
      (prior : String) → (c.site.name == "") ≡ false → or_prior c.site.name prior ≡ c.site.name
  reported_name prior named = rw named refl

  -- Where the site names are distinct, the target has a name and is observed under it, and no site
  -- but the failed primary accepts writes, a reconcile without a request, whose automatic failover
  -- promotes the target and succeeds, reports it: the failover ends without an error, and the report
  -- after it sends a status with the target as the current primary and the time at which the
  -- sequence ended.
  pub promoted_reported :
      lookup annotation_promote s.ha.annotations ≡ none
      → IsPromoted p r primary_obs replica_obs s c
      → IsUnique (primary_obs ∷ replica_obs)
      → IsOnly current (primary_obs ∷ replica_obs)
      → (c.site.name == "") ≡ false
      → find_among c.site.name (primary_obs ∷ replica_obs) ≡ some c.obs
      → let (x, after) = failover p r primary_obs replica_obs s in
        let obs = apply_promotion_effect effect (primary_obs, replica_obs) in
        (x ≡ ok (effect, ok tt))
        × ((sent : HaCluster) × (sent.status.current_primary_site ≡ c.site.name)
            × (sent.status.last_failover_time
                ≡ some (p.now (sequence p r primary_obs replica_obs s c).1.world))
            × SentAs p r sent (report p r s.ha.status.current_primary_site obs after) after.world)
  promoted_reported n done u only named f =
      let run = failover_lem n named (auto_lem done) in
      let obs = apply_promotion_effect effect (primary_obs, replica_obs) in
      let (sent, reports, _, as_sent) =
        report_sends p r s.ha.status.current_primary_site obs auto.1 in
      let prior = s.ha.status.current_primary_site in
      let primary : sent.status.current_primary_site ≡ c.site.name =
        reports.primary_reported
        ∙ ap (λ d. or_prior d.0 prior) (decided done u only named f)
        ∙ reported_name prior named in
      let at =
        reports.failover_kept
        ∙ ap (λ x. x.1.last_failover) (auto_seen p r primary_obs replica_obs s c done) in
      rw run (refl, (sent, primary, at, as_sent))
