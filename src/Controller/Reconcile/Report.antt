-- ===== src/Controller/Reconcile/Report.antt =====
-- What a reconcile writes to the status, and how it ends after a failed promotion.
use cnpg_ha.Base.{String, List, ◌∷◌, ◌≡◌, refl, sym, subst, ◌⊎◌, inl, inr}
use cnpg_ha.Base.Message.{Err, wrapf, end}
use cnpg_ha.Base.Exec.{Result, ok, err, Result-cases}
use cnpg_ha.Api.{HaCluster, SiteStatus}
use cnpg_ha.Platform.{Platform}
use cnpg_ha.Controller.Observation.{SiteObservation}
use cnpg_ha.Controller.Primary.{decide_current_primary, detect_split_brain}
use cnpg_ha.Controller.Effect.{PromotionEffect, Observations, apply_promotion_effect}
use cnpg_ha.Controller.State.{Reconciler, State, set_status_condition, publish}
use cnpg_ha.Controller.Status.{
  build_site_statuses, set_conditions, available_condition, split_brain_condition,
  degraded_condition,
}
use cnpg_ha.Controller.Reconcile.{
  or_prior, failover, refresh_status, status_updated, update_status, report, converge_topology, act,
}

module _ (p : Platform) (r : Reconciler p) where
  -- The HACluster that differs from `before` in its status only, and there reports the primary
  -- and the sites.
  pub record Reports (before : HaCluster) (primary : String) (sites : List SiteStatus)
      (sent : HaCluster) : Type 0 where
    pub spec_kept : sent.spec ≡ before.spec
    pub annotations_kept : sent.annotations ≡ before.annotations
    pub primary_reported : sent.status.current_primary_site ≡ primary
    pub sites_reported : sent.status.sites ≡ sites
    pub generation_observed : sent.status.observed_generation ≡ before.generation
    pub failover_kept : sent.status.last_failover_time ≡ before.status.last_failover_time

  -- The three conditions of the observations, one after the other, on those of before.
  abbrev pub Conditioned : Observations → State p → HaCluster → Type 0
  Conditioned (primary, replicas) s sent =
      let now = p.now s.world in
      (seen : HaCluster) × (sent.status.conditions
        ≡ p.set_condition (degraded_condition (primary ∷ replicas) seen now) (
            p.set_condition (split_brain_condition (detect_split_brain primary replicas) seen now) (
              p.set_condition
                (available_condition (decide_current_primary primary replicas).1 seen now)
                s.ha.status.conditions)))

  abbrev Prepared : String → Observations → State p → State p → Type 0
  Prepared prior obs s s' =
      (report p r prior obs s ≡ update_status p r s')
      × (s'.world ≡ s.world)
      × Reports s.ha (or_prior (decide_current_primary obs.0 obs.1).0 prior)
          (build_site_statuses p (p.now s.world) obs.0 obs.1) s'.ha
      × Conditioned obs s s'.ha

  prepared :
      (prior : String) (obs : Observations) (s : State p) → (s' : State p) × Prepared prior obs s s'
  unfolding report refresh_status set_conditions set_status_condition publish
  prepared prior obs s = (
    _,
    (
      refl,
      refl,
      record {
        spec_kept = refl;
        annotations_kept = refl;
        primary_reported = refl;
        sites_reported = refl;
        generation_observed = refl;
        failover_kept = refl;
      },
      ((refresh_status p r prior (decide_current_primary obs.0 obs.1).0 obs s).1.ha, refl),
    ),
  )

  -- One status update, and its error wrapped.
  abbrev pub SentAs : HaCluster → Result (Unit {0}) × State p → p.World → Type 0
  SentAs sent x w =
      (x.1.world ≡ (p.update_status sent w).1)
      × ((((ha : HaCluster) × ((p.update_status sent w).0 ≡ ok ha)) × (x.0 ≡ ok tt))
          ⊎ ((e : Err) × ((p.update_status sent w).0 ≡ err e)
              × (x.0 ≡ err (wrapf "update status: %w" end e))))

  update_SentAs : (s : State p) → SentAs s.ha (update_status p r s) s.world
  unfolding update_status status_updated
  update_SentAs s = elim (Result-cases (p.update_status s.ha s.world).0) [
    | inl (ha, h) ↦ rw h (refl, inl ((ha, refl), refl))
    | inr (e, h) ↦ rw h (refl, inr (e, refl, refl))
  ]

  -- The report is one status update.
  pub report_sends :
      (prior : String) (obs : Observations) (s : State p)
      → (sent : HaCluster) × Reports s.ha
          (or_prior (decide_current_primary obs.0 obs.1).0 prior)
          (build_site_statuses p (p.now s.world) obs.0 obs.1)
          sent
        × Conditioned obs s sent
        × SentAs sent (report p r prior obs s) s.world
  report_sends prior obs s =
      let (s', (same, w, reports, conditions)) = prepared prior obs s in
      (
        s'.ha,
        reports,
        conditions,
        subst (SentAs s'.ha (report p r prior obs s)) w
            (subst (λ x. SentAs s'.ha x s'.world) (sym same) (update_SentAs s')),
      )

  -- The state in which the report starts: the observations are made and the failover is over.
  module _ (primary_obs : SiteObservation) (replica_obs : List SiteObservation) (s : State p)
      (effect : PromotionEffect) (outcome : Result (Unit {0})) (after : State p)
      (ended : failover p r primary_obs replica_obs s ≡ (ok (effect, outcome), after)) where
    abbrev pub reported : Result (Unit {0}) × State p
    reported =
        report p r s.ha.status.current_primary_site
          (apply_promotion_effect effect (primary_obs, replica_obs)) after

    -- A reconcile whose failover failed still sends the status, then returns the error, or that of
    -- the status update, and does nothing else: no site's topology is touched.
    pub failed_reported :
        (e : Err)
        → outcome ≡ err e
        → ((act p r primary_obs replica_obs s).1 ≡ reported.1)
          × (((reported.0 ≡ ok tt) × ((act p r primary_obs replica_obs s).0 ≡ err e))
              ⊎ ((e' : Err) × (reported.0 ≡ err e')
                  × ((act p r primary_obs replica_obs s).0 ≡ err e')))
    unfolding act converge_topology
    failed_reported e h = elim (Result-cases reported.0) [
      | inl (x, g) ↦ rw (ended, g, h) (refl, inl (refl, refl))
      | inr (e', g) ↦ rw (ended, g) (refl, inr (e', refl, refl))
    ]
