-- ===== src/Examples/Decisions.antt =====
-- The primary, the target and the reports.
use mathlib.Core.List.{head?}
use cnpg_ha.Base.Int.{◌<ℤ◌}
use cnpg_ha.Controller.Target.Advance.{more_advanced_iff}
use cnpg_ha.Base.{
  ◌⊎◌, ◌<◌, false, arith, ◌≤◌, ◌<◌, ◌^◌, ◌*◌, true, none, some, ◌∷◌, All, ◌≡◌, ◌↔◌, ◌⊎◌, refl, inr,
}
use cnpg_ha.Controller.Observation.{find_among}
use cnpg_ha.Controller.Primary.{decide_current_primary, candidates_among}
use cnpg_ha.Controller.Primary.Verdicts.{Verdict, verdicts}
use cnpg_ha.Controller.Target.{Candidate, choose_target, more_advanced, choose_from, round}
use cnpg_ha.Controller.Target.Champion.{IsFirstBest}
use cnpg_ha.Controller.Target.Choice.{
  eligible_replicas, choose_target_most_advanced, choose_target_ordered,
}
use cnpg_ha.Controller.Timing.{
  second, stabilization_cooldown, effective_health_interval, cooldown_bounds,
}
use cnpg_ha.Controller.Effect.{PromotionEffect, apply_promotion_effect}
use cnpg_ha.Controller.Effect.Mirror.{decide-apply_promotion_effect}
use cnpg_ha.Controller.Status.{degraded_condition, bytes_behind, publish_metrics}
use cnpg_ha.Controller.Status.Health.{IsUp, degraded_iff}
use cnpg_ha.Controller.Status.Lag.{IsBehindBy, bytes_behind_iff}
use cnpg_ha.Api.{HaCluster, failover_mode_automatic, promotion_policy_ordered}
use cnpg_ha.Controller.Status.Gauges.Published.{IsScraped, publish_metrics-IsScraped}
use cnpg_ha.Metrics.Registry.{serve_all}
use cnpg_ha.Sim.{sim}
use cnpg_ha.Sim.Collectors.{sim_registry, sim-RegistryLaws}
use cnpg_ha.Examples.Sites.{
  replicas, hub_up, hub_down, east_up, west_up, automatic_ha, cluster_of, west_site,
}

verdicts_example : Verdict hub_up replicas
verdicts_example = verdicts hub_up replicas

abbrev west_candidate : Candidate
west_candidate = record { index = 1; site = west_site; obs = west_up }

choose_target_most_advanced_example :
    IsFirstBest west_candidate (eligible_replicas automatic_ha replicas "hub")
unfolding choose_target choose_from round more_advanced
choose_target_most_advanced_example =
    choose_target_most_advanced automatic_ha replicas "hub" west_candidate refl refl

abbrev ordered_ha : HaCluster
ordered_ha = cluster_of failover_mode_automatic promotion_policy_ordered

choose_target_ordered_example :
    choose_target ordered_ha replicas "hub" ≡ head? (eligible_replicas ordered_ha replicas "hub")
choose_target_ordered_example = choose_target_ordered ordered_ha replicas "hub" refl

cooldown_bounds_example :
    let f = automatic_ha.spec.failover in
    (30 * second ≤ stabilization_cooldown f)
    × (3 * effective_health_interval f ≤ stabilization_cooldown f)
    × ((stabilization_cooldown f ≡ 30 * second)
        ⊎ (stabilization_cooldown f ≡ 3 * effective_health_interval f))
    × (stabilization_cooldown f < 2 ^ 63)
cooldown_bounds_example = cooldown_bounds automatic_ha.spec.failover (omega arith)

abbrev effect : PromotionEffect
effect = record { demoted = "hub"; promoted = "west" }

decide-apply_promotion_effect_example :
    let (primary, others) = apply_promotion_effect effect (hub_up, replicas) in
    decide_current_primary primary others ≡ ("west", true)
unfolding find_among candidates_among
decide-apply_promotion_effect_example =
    decide-apply_promotion_effect effect (hub_up, replicas) west_up (refl, (refl, (refl, tt)))
      (inr refl) refl refl refl refl refl

degraded_iff_example :
    ((degraded_condition (hub_down ∷ replicas) automatic_ha 5).status ≡ "False")
    ↔ All IsUp (hub_down ∷ replicas)
degraded_iff_example = degraded_iff (hub_down ∷ replicas) automatic_ha 5

bytes_behind_iff_example :
    (bytes_behind "west" (some 200) east_up ≡ some 100) ↔ IsBehindBy "west" (some 200) east_up 100
bytes_behind_iff_example =
    bytes_behind_iff "west" (some 200) east_up 100 (omega arith) (omega arith)

more_advanced_iff_example : (more_advanced west_up east_up ≡ true) ↔ (
    ((west_up.lsn_known ≡ true) × (east_up.lsn_known ≡ false))
    ⊎ ((west_up.lsn_known ≡ true)
        × (east_up.lsn_known ≡ true)
        × (east_up.lsn_value < west_up.lsn_value))
    ⊎ ((west_up.lsn_known ≡ false)
        × (east_up.lsn_known ≡ false)
        × (east_up.timeline_id <ℤ west_up.timeline_id)))
more_advanced_iff_example = more_advanced_iff west_up east_up

publish_metrics-IsScraped_example :
    IsScraped sim automatic_ha "hub" false hub_up replicas
      (λ c xs. none)
      (sim_registry.read (
        serve_all sim_registry
          (publish_metrics sim automatic_ha "hub" false hub_up replicas)
          (λ c xs. none)))
unfolding find_among
publish_metrics-IsScraped_example =
    publish_metrics-IsScraped sim automatic_ha sim_registry sim-RegistryLaws "hub" false hub_up
      replicas (λ c xs. none) (refl, (refl, (refl, tt)))
