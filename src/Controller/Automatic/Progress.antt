-- ===== src/Controller/Automatic/Progress.antt =====
-- The automatic failover over consecutive reconciles that all find the primary failed.
use cnpg_ha.Base.{
  ℕ, ◌+◌, ◌≤◌, ◌<◌, false, some, List, [], ◌∷◌, length, All, ltb, ◌≡◌, sym, subst, ◌⊎◌, inl, inr,
  arith, Bool-cases,
}
use cnpg_ha.Api.{failover_mode_automatic}
use cnpg_ha.Platform.{Platform, Ref}
use cnpg_ha.Controller.Target.{Candidate, choose_target}
use cnpg_ha.Controller.Timing.{effective_failure_threshold}
use cnpg_ha.Controller.State.{Reconciler, State, ha_key}
use cnpg_ha.Controller.Automatic.{current_name, is_suspended, handle_automatic_failover}
use cnpg_ha.Controller.Automatic.Guards.{IsDue, IsDue-at, count_below}
use cnpg_ha.Controller.Automatic.Patience.{Sight, see}

module _ (p : Platform) (r : Reconciler p) where
  -- The sight is of the HACluster with the key: its mode is Automatic, no guard suspends the
  -- failover, its threshold is `n` at most, and there is a replica to promote.
  abbrev pub IsFailing : Ref → ℕ → Sight p r → Type 0
  IsFailing key n x =
      (ha_key x.ha ≡ key)
      × (x.ha.spec.failover.mode ≡ failover_mode_automatic)
      × (is_suspended p r x.ha (p.now x.world) x.primary_obs x.replica_obs ≡ false)
      × (effective_failure_threshold x.ha.spec.failover ≤ n)
      × ((c : Candidate) × (choose_target x.ha x.replica_obs (current_name x.ha) ≡ some c))

  -- At one of the sights, one after the other, automatic failover is due.
  abbrev pub Acts : List (Sight p r) → State p → Type 0
  Acts [] s = ⊥
  Acts (x ∷ xs) s =
      ((c : Candidate) × IsDue p r x.primary_obs x.replica_obs (see p r x s) c)
      ⊎ Acts xs (handle_automatic_failover p r x.primary_obs x.replica_obs (see p r x s)).1

  acts :
      (key : Ref) (n : ℕ) (xs : List (Sight p r)) (s : State p)
      → 1 ≤ length xs
      → All (IsFailing key n) xs
      → n ≤ s.fail_count key + length xs
      → Acts xs s
  acts key n [] s some_left failing h = absurd (omega arith)
  acts key n (x ∷ xs) s some_left ((at, m, g, t, (c, e)), failing) h =
      let next = (handle_automatic_failover p r x.primary_obs x.replica_obs (see p r x s)).1 in
      let counted_at : (k : Ref) → Type 0 = λ k.
        s.fail_count k + 1 < effective_failure_threshold x.ha.spec.failover
        → next.fail_count k ≡ s.fail_count k + 1 in
      elim (Bool-cases
        (ltb (s.fail_count key + 1) (effective_failure_threshold x.ha.spec.failover))) [
          | inr b ↦ inl (
            c,
            IsDue-at p r x.primary_obs x.replica_obs (see p r x s) c m g
                (subst (λ k. effective_failure_threshold x.ha.spec.failover ≤ s.fail_count k + 1)
                  (sym at) (ground arith))
                e,
          )
          | inl b ↦
              let one : next.fail_count key ≡ s.fail_count key + 1 =
                subst counted_at at (count_below p r x.primary_obs x.replica_obs (see p r x s) m g)
                  (ground arith) in
              inr (acts key n xs next (ground arith) failing (ground arith))
        ]

  -- Automatic failover acts: where consecutive reconciles of an HACluster all find its failover
  -- Automatic and not suspended, with a replica to promote, and they and the failures counted before
  -- reach the threshold, the promotion is run in one of them.
  pub automatic-Acts :
      (key : Ref) (n : ℕ) (x : Sight p r) (xs : List (Sight p r)) (s : State p)
      → All (IsFailing key n) (x ∷ xs)
      → n ≤ s.fail_count key + length (x ∷ xs)
      → Acts (x ∷ xs) s
  automatic-Acts key n x xs s failing h = acts key n (x ∷ xs) s (omega arith) failing h
