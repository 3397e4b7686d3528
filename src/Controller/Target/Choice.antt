-- ===== src/Controller/Target/Choice.antt =====
-- The choice against the list of eligible replicas.
use mathlib.Core.List.{head?}
use cnpg_ha.Base.{
  String, ◌≡◌, ◌↔◌, inl, inr, sym, ◌∙◌, false, none, some, List, [], ◌==◌, Bool-cases,
}
use cnpg_ha.Api.{HaCluster, promotion_policy_most_advanced_lsn}
use cnpg_ha.Controller.Observation.{SiteObservation}
use cnpg_ha.Controller.Target.{Candidate, choose_target}
use cnpg_ha.Controller.Target.Champion.{
  eligible, IsFirstBest, choose_most_advanced_lem, choose_ordered_lem, champion_of-IsFirstBest,
  champion_of-none_iff, head-none_iff,
}

module _ (ha : HaCluster) (replica_obs : List SiteObservation) (failed : String) where
  abbrev pub eligible_replicas : List Candidate
  eligible_replicas = eligible failed 0 ha.spec.replicas replica_obs

  -- Under MostAdvancedLSN the target is eligible, no eligible replica is ahead of it, and it is
  -- ahead of every eligible replica that stands before it in the spec.
  pub choose_target_most_advanced :
      (c : Candidate)
      → ha.spec.failover.promotion_policy ≡ promotion_policy_most_advanced_lsn
      → choose_target ha replica_obs failed ≡ some c
      → IsFirstBest c eligible_replicas
  unfolding choose_target
  choose_target_most_advanced c policy h =
      champion_of-IsFirstBest eligible_replicas c
        (sym (choose_most_advanced_lem failed 0 ha.spec.replicas replica_obs) ∙ (rw policy at h))

  -- Under every other policy the target is the first eligible replica of the spec.
  pub choose_target_ordered :
      (ha.spec.failover.promotion_policy == promotion_policy_most_advanced_lsn) ≡ false
      → choose_target ha replica_obs failed ≡ head? eligible_replicas
  unfolding choose_target
  choose_target_ordered other = rw other (choose_ordered_lem failed 0 ha.spec.replicas replica_obs)

  -- Under every policy there is no target exactly when no replica is eligible.
  pub choose_target-none_iff :
      (choose_target ha replica_obs failed ≡ none) ↔ (eligible_replicas ≡ [])
  unfolding choose_target
  choose_target-none_iff =
      elim (Bool-cases (ha.spec.failover.promotion_policy == promotion_policy_most_advanced_lsn)) [
        | inl most ↦
            rw (most, choose_most_advanced_lem failed 0 ha.spec.replicas replica_obs)
              (champion_of-none_iff eligible_replicas)
        | inr other ↦
            rw (other, choose_ordered_lem failed 0 ha.spec.replicas replica_obs)
              (head-none_iff eligible_replicas)
      ]
