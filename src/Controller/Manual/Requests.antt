-- ===== src/Controller/Manual/Requests.antt =====
-- Which requests for a promotion are followed, and what the others leave behind.
use cnpg_ha.Base.{
  ℕ, String, true, false, not, ◌||◌, none, some, List, ◌≡◌, refl, sym, ap, subst, ◌⊎◌, inl, inr,
  arith, Bool-cases, Option-cases, text-cases, eq_iff, lookup,
}
use cnpg_ha.Base.Message.{Text}
use cnpg_ha.Base.Exec.{Result, ok, Result-cases}
use cnpg_ha.Api.{ReplicaSite, failover_mode_manual}
use cnpg_ha.Platform.{Platform}
use cnpg_ha.Controller.Observation.{SiteObservation, find_replica}
use cnpg_ha.Controller.Primary.{detect_split_brain, is_split, current_primary_for_promotion}
use cnpg_ha.Controller.Effect.{PromotionEffect, no_effect}
use cnpg_ha.Controller.State.{Reconciler, State, annotation_promote}
use cnpg_ha.Controller.Manual.{
  obs_at, reject, promote_manually, promote_from, promote_replica, handle_annotation,
  handle_promote_annotation,
}

module _ (p : Platform) (r : Reconciler p) (primary_obs : SiteObservation)
    (replica_obs : List SiteObservation) (s : State p) where
  abbrev pub Ended : Type 0
  Ended = Result PromotionEffect × State p

  abbrev pub IsRejected : Ended → Type 0
  IsRejected x = (msg : Text) × (x ≡ reject p r msg s)

  -- A request that is followed: the mode is Manual, the target is a replica in the spec, its site
  -- is reachable, ready and no primary, there is no split-brain, and the code goes on to promote.
  pub record IsFollowed (target : String) (x : Ended) : Type 0 where
    pub rep : ReplicaSite
    pub idx : ℕ
    pub old : String
    pub manual : s.ha.spec.failover.mode ≡ failover_mode_manual
    pub found : find_replica s.ha target ≡ some (rep, idx)
    pub reachable : (obs_at replica_obs idx).reachable ≡ true
    pub ready : (obs_at replica_obs idx).ready ≡ true
    pub standby : (obs_at replica_obs idx).primary ≡ false
    pub single : is_split (detect_split_brain primary_obs replica_obs) ≡ false
    pub demotes : current_primary_for_promotion s.ha primary_obs replica_obs ≡ ok old
    pub promotes : x ≡ promote_manually p r target rep old (obs_at replica_obs idx) s

  abbrev pub Answer : String → Ended → Type 0
  Answer target x = IsRejected x ⊎ IsFollowed target x

  not_split :
      (old : String)
      → current_primary_for_promotion s.ha primary_obs replica_obs ≡ ok old
      → is_split (detect_split_brain primary_obs replica_obs) ≡ false
  unfolding current_primary_for_promotion
  not_split old h = ground arith

  Answer-of :
      (target : String) (rep : ReplicaSite) (idx : ℕ)
      → s.ha.spec.failover.mode ≡ failover_mode_manual
      → find_replica s.ha target ≡ some (rep, idx)
      → Answer target (promote_replica p r target primary_obs replica_obs (some (rep, idx)) s)
  unfolding promote_replica promote_from
  Answer-of target rep idx m f =
      let o = obs_at replica_obs idx in
      elim (Bool-cases (not o.reachable || (not o.ready || o.primary))) [
        | inl bad ↦ inl (rw bad (_, refl))
        | inr good ↦
            elim (Result-cases (current_primary_for_promotion s.ha primary_obs replica_obs)) [
              | inr (e, h) ↦ inl (rw (good, h) (_, refl))
              | inl (old, h) ↦ inr (record {
                rep = rep;
                idx = idx;
                old = old;
                manual = m;
                found = f;
                reachable = ground arith;
                ready = ground arith;
                standby = ground arith;
                single = not_split old h;
                demotes = h;
                promotes = rw (good, h) refl;
              })
            ]
      ]

  Answer-found :
      (target : String)
      → s.ha.spec.failover.mode ≡ failover_mode_manual
      → Answer target
          (promote_replica p r target primary_obs replica_obs (find_replica s.ha target) s)
  unfolding promote_replica
  Answer-found target m = elim (Option-cases (find_replica s.ha target)) [
    | inl n ↦ inl (rw n (_, refl))
    | inr ((rep, idx), f) ↦
        subst (Answer target)
          (sym (ap (λ x. promote_replica p r target primary_obs replica_obs x s) f))
          (Answer-of target rep idx m f)
  ]

  in_manual_mode :
      (target : String)
      → s.ha.spec.failover.mode ≡ failover_mode_manual
      → handle_annotation p r primary_obs replica_obs (some target) s
        ≡ promote_replica p r target primary_obs replica_obs (find_replica s.ha target) s
  unfolding handle_annotation
  in_manual_mode target m = rw ((eq_iff s.ha.spec.failover.mode failover_mode_manual).1 m) refl

  Answer-any :
      (target : String)
      → Answer target (handle_annotation p r primary_obs replica_obs (some target) s)
  unfolding handle_annotation
  Answer-any target = elim (text-cases s.ha.spec.failover.mode failover_mode_manual) [
    | inr n ↦ inl (rw n (_, refl))
    | inl m ↦ subst (Answer target) (sym (in_manual_mode target m)) (Answer-found target m)
  ]

  -- Without the annotation nothing happens. A request is rejected, with an event and without the
  -- promotion, or all that a promotion needs holds and it is followed.
  pub request_answered :
      ((lookup annotation_promote s.ha.annotations ≡ none)
        × (handle_promote_annotation p r primary_obs replica_obs s ≡ (ok no_effect, s)))
      ⊎ ((target : String) × (lookup annotation_promote s.ha.annotations ≡ some target)
          × Answer target (handle_promote_annotation p r primary_obs replica_obs s))
  unfolding handle_promote_annotation handle_annotation
  request_answered = elim (Option-cases (lookup annotation_promote s.ha.annotations)) [
    | inl n ↦ inl (n, rw n refl)
    | inr (target, h) ↦ inr (
      target,
      h,
      subst (Answer target) (sym (ap (λ x. handle_annotation p r primary_obs replica_obs x s) h))
          (Answer-any target),
    )
  ]
