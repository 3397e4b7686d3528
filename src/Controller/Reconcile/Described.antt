-- ===== src/Controller/Reconcile/Described.antt =====
-- What the status that a reconcile sends says of the sites.
use cnpg_ha.Base.{◌≤◌, String, some, List, ◌∷◌, All, ◌≡◌, refl, sym, ap, ◌∙◌, subst, ◌↔◌}
use cnpg_ha.Api.{HaCluster, Condition, Time}
use cnpg_ha.Platform.{Platform}
use cnpg_ha.Platform.Laws.{ConditionLaws, find_condition}
use cnpg_ha.Controller.Primary.{decide_current_primary, detect_split_brain}
use cnpg_ha.Controller.Primary.Verdicts.{writers}
use cnpg_ha.Controller.Effect.{Observations}
use cnpg_ha.Controller.State.{Reconciler, State}
use cnpg_ha.Controller.Status.{
  build_site_statuses, available_condition, split_brain_condition, degraded_condition,
}
use cnpg_ha.Controller.Status.Health.{IsUp, degraded_iff}
use cnpg_ha.Controller.Reconcile.{or_prior, report}
use cnpg_ha.Controller.Reconcile.Report.{Reports, Conditioned, SentAs, report_sends}
use cnpg_ha.Controller.Status.Sites.{AllDescribed, statuses_of-AllDescribed}
use cnpg_ha.Controller.Status.Conditions.{available_said, split_brain_said}

-- The condition of the type is there, and its status is "True" just where this holds.
abbrev pub Says : String → List Condition → Type 0 → Type 0
Says kind cs P = (d : Condition) × (find_condition kind cs ≡ some d) × ((d.status ≡ "True") ↔ P)

abbrev pub Denies : String → List Condition → Type 0 → Type 0
Denies kind cs P = (d : Condition) × (find_condition kind cs ≡ some d) × ((d.status ≡ "False") ↔ P)

-- What the status that is sent says of the observations: a status for each site in their order, and
-- the three conditions.
pub record DescribesAll (p : Platform) (now : Time) (obs : Observations) (sent : HaCluster)
    : Type 0 where
  pub sites : AllDescribed p now (obs.0 ∷ obs.1) sent.status.sites
  pub available : Says "Available" sent.status.conditions (writers (obs.0 ∷ obs.1) ≡ 1)
  pub split_brain : Says "SplitBrain" sent.status.conditions (2 ≤ writers (obs.0 ∷ obs.1))
  pub degraded : Denies "Degraded" sent.status.conditions (All IsUp (obs.0 ∷ obs.1))

module _ (p : Platform) (laws : ConditionLaws p) where
  -- A condition that is found as another says what that one says.
  found_as :
      (status : String) (P : Type 0) (kind : String) (cs : List Condition) (t : String)
      → ((d : Condition) × (find_condition kind cs ≡ some d) × (d.status ≡ t))
      → (t ≡ status) ↔ P
      → (d : Condition) × (find_condition kind cs ≡ some d) × ((d.status ≡ status) ↔ P)
  found_as status P kind cs t (d, f, e) says = (d, f, (λ h. says.0 (sym e ∙ h), λ h. e ∙ says.1 h))

  module _ (r : Reconciler p) (obs : Observations) (s : State p) (sent : HaCluster)
      (conditioned : Conditioned p r obs s sent) where
    abbrev now : Time
    now = p.now s.world

    abbrev seen : HaCluster
    seen = conditioned.0

    abbrev first : Condition
    first = available_condition (decide_current_primary obs.0 obs.1).1 seen now

    abbrev second : Condition
    second = split_brain_condition (detect_split_brain obs.0 obs.1) seen now

    abbrev third : Condition
    third = degraded_condition (obs.0 ∷ obs.1) seen now

    abbrev with_first : List Condition
    with_first = p.set_condition first s.ha.status.conditions

    abbrev with_second : List Condition
    with_second = p.set_condition second with_first

    abbrev Finds : String → Condition → Type 0
    Finds kind c =
        (d : Condition) × (find_condition kind sent.status.conditions ≡ some d)
        × (d.status ≡ c.status)

    Finds-third : Finds "Degraded" third
    unfolding degraded_condition
    Finds-third =
        let (d, f, e, _, _) = laws.find-set_condition third with_second in
        (d, ap (find_condition "Degraded") conditioned.1 ∙ f, e)

    Finds-second : Finds "SplitBrain" second
    unfolding degraded_condition split_brain_condition
    Finds-second =
        let (d, f, e, _, _) = laws.find-set_condition second with_first in
        (
          d,
          ap (find_condition "SplitBrain") conditioned.1
              ∙ laws.find-set_condition_other third "SplitBrain" with_second refl
              ∙ f,
          e,
        )

    Finds-first : Finds "Available" first
    unfolding degraded_condition split_brain_condition available_condition
    Finds-first =
        let (d, f, e, _, _) = laws.find-set_condition first s.ha.status.conditions in
        (
          d,
          ap (find_condition "Available") conditioned.1
              ∙ laws.find-set_condition_other third "Available" with_second refl
              ∙ laws.find-set_condition_other second "Available" with_first refl
              ∙ f,
          e,
        )

  -- The report of a reconcile writes to the world once, by one status update, and fails just when
  -- that update fails. It sends the HACluster with the primary that is decided on, or the prior one
  -- where none is, with one status for each site, in their order, that has its role, its health, its
  -- LSN and its lag, and with three conditions: Available is True just where one site accepts
  -- writes, SplitBrain just where several do, and Degraded is False just where every site is
  -- reachable and ready.
  pub report_sent :
      (r : Reconciler p) (prior : String) (obs : Observations) (s : State p)
      → (sent : HaCluster) × Reports p r s.ha
          (or_prior (decide_current_primary obs.0 obs.1).0 prior)
          (build_site_statuses p (p.now s.world) obs.0 obs.1)
          sent
        × DescribesAll p (p.now s.world) obs sent
        × SentAs p r sent (report p r prior obs s) s.world
  unfolding build_site_statuses
  report_sent r prior obs s =
      let (sent, reports, conditioned, as_sent) = report_sends p r prior obs s in
      let now = p.now s.world in
      let all = obs.0 ∷ obs.1 in
      (
        sent,
        reports,
        record {
          sites =
              subst (AllDescribed p now all) (sym reports.sites_reported)
                (statuses_of-AllDescribed p now all);
          available =
              found_as "True" (writers all ≡ 1) "Available" sent.status.conditions _
                (Finds-first r obs s sent conditioned)
                (available_said obs.0 obs.1 conditioned.0 now);
          split_brain =
              found_as "True" (2 ≤ writers all) "SplitBrain" sent.status.conditions _
                (Finds-second r obs s sent conditioned)
                (split_brain_said obs.0 obs.1 conditioned.0 now);
          degraded =
              found_as "False" (All IsUp all) "Degraded" sent.status.conditions _
                (Finds-third r obs s sent conditioned) (degraded_iff all conditioned.0 now);
        },
        as_sent,
      )
