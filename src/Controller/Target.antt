-- ===== src/Controller/Target.antt =====
-- chooseTarget and moreAdvanced: which replica an automatic failover promotes.
pub mod Advance
pub mod Champion
pub mod Choice
use cnpg_ha.Base.{
  ℕ, suc, String, Bool, true, false, not, ◌&&◌, Option, none, some, List, [], ◌∷◌, ltb, ◌==◌,
  if◌then◌else◌,
}
use cnpg_ha.Base.Int.{ltb_ℤ}
use cnpg_ha.Api.{ReplicaSite, HaCluster, promotion_policy_most_advanced_lsn}
use cnpg_ha.Controller.Observation.{SiteObservation}

abbrev pub same_flag : Bool → Bool → Bool
same_flag true b = b
same_flag false b = not b

unfoldable pub more_advanced : SiteObservation → SiteObservation → Bool
more_advanced candidate current =
    if not (same_flag candidate.lsn_known current.lsn_known)
    then candidate.lsn_known
    else if candidate.lsn_known
    then ltb current.lsn_value candidate.lsn_value
    else ltb_ℤ current.timeline_id candidate.timeline_id

-- A position `i`, with ha.Spec.Replicas[i] and replicaObs[i].
pub record Candidate : Type 0 where
  pub index : ℕ
  pub site : ReplicaSite
  pub obs : SiteObservation

abbrev pub is_eligible : String → Candidate → Bool
is_eligible failed_primary c =
    not (c.site.name == failed_primary) && (c.obs.reachable && (c.obs.ready && not c.obs.primary))

-- One round of the loop: the new `best`, and whether the loop breaks.
unfoldable pub round : Bool → String → Option Candidate → Candidate → Option Candidate × Bool
round most_advanced failed_primary none c =
    if is_eligible failed_primary c then (some c, not most_advanced) else (none, false)
round most_advanced failed_primary (some b) c =
    if is_eligible failed_primary c && more_advanced c.obs b.obs
    then (some c, false)
    else (some b, false)

-- The observations are those of the replicas, one for each; where they run out, Go panics.
unfoldable pub choose_from :
    Bool
    → String
    → ℕ
    → Option Candidate
    → List ReplicaSite
    → List SiteObservation
    → Option Candidate
choose_from most_advanced failed_primary i best [] obs = best
choose_from most_advanced failed_primary i best (rep ∷ reps) [] = best
choose_from most_advanced failed_primary i best (rep ∷ reps) (o ∷ obs) =
    let (best', stop) =
      round most_advanced failed_primary best (record { index = i; site = rep; obs = o }) in
    let rest = choose_from most_advanced failed_primary (suc i) best' reps obs in
    if stop then best' else rest

unfoldable pub choose_target : HaCluster → List SiteObservation → String → Option Candidate
unfolding choose_from
choose_target ha replica_obs failed_primary =
    choose_from (ha.spec.failover.promotion_policy == promotion_policy_most_advanced_lsn)
      failed_primary 0 none ha.spec.replicas replica_obs
