-- ===== src/Controller/Topology/Rounds.antt =====
-- What one round of the topology leaves at a site.
use cnpg_ha.Base.{
  String, ◌≡◌, refl, sym, subst, ◌⊎◌, inl, inr, true, false, arith, Bool-cases, text-cases, eq_iff,
  ◌==◌,
}
use cnpg_ha.Base.Message.{Text, Args}
use cnpg_ha.Base.Exec.{Result, ok, Exec, Result-cases, wrap, ◌>>◌}
use cnpg_ha.Api.{RejoinPolicy, rejoin_policy_auto_replica}
use cnpg_ha.Health.{SiteHealth}
use cnpg_ha.Platform.{Platform, Ref}
use cnpg_ha.Platform.Laws.{ObjectLaws, ServerLaws}
use cnpg_ha.Promotion.{fence, reconfigure}
use cnpg_ha.Promotion.Fencing.{IsFenced, fence-IsFenced}
use cnpg_ha.Promotion.Repointing.{IsFollower}
use cnpg_ha.Promotion.Following.{reconfigure-IsFollower}
use cnpg_ha.Controller.State.{Reconciler, State, EventType, on_world, event}
use cnpg_ha.Controller.Topology.{converge}

module _ (p : Platform) (r : Reconciler p) where
  open p use {World}

  pub event_kept :
      (kind : EventType) (reason : String) (message : Text) (s : State p)
      → (event p r kind reason message s).1.world ≡ s.world
  unfolding event
  event_kept kind reason message s = elim (Bool-cases r.has_recorder) [
    | inl h ↦ rw h refl
    | inr h ↦ rw h refl
  ]

  -- An action and an event after it: where they succeed so did the action, and the world is the one
  -- that it left.
  noted_ok :
      (f : String) (a : Args) (m : Exec World (Unit {0})) (kind : EventType) (reason : String)
      (message : Text) (s : State p) (P : World → Type 0)
      → ((m s.world).0 ≡ ok tt → P (m s.world).1)
      → ((wrap f a (on_world p r m) >> event p r kind reason message) s).0 ≡ ok tt
      → P ((wrap f a (on_world p r m) >> event p r kind reason message) s).1.world
  noted_ok f a m kind reason message s P done = elim (Result-cases (m s.world).0) [
    | inl (x, e) ↦ rw e (λ h. subst P (sym (event_kept kind reason message _)) (done e))
    | inr (x, e) ↦ rw e (λ h. absurd (ground arith))
  ]

  module _ (server : p.Client → String) (ol : ObjectLaws p) (sl : ServerLaws p server)
      (effective_primary endpoint : String) (rejoin : RejoinPolicy) (name : String) (cli : p.Client)
      (ref : Ref) (fresh : SiteHealth) (s : State p) where
    abbrev pub round_of : Result (Unit {0}) × State p
    round_of = converge p r effective_primary endpoint rejoin name cli ref fresh s

    -- By what the fresh probe found: an unreachable site is left alone; a replica, and a stray primary
    -- under AutoReplica, follows the endpoint; a stray primary under another policy is fenced.
    abbrev pub IsConverged : World → Type 0
    IsConverged v =
        ((fresh.reachable ≡ false) × (v ≡ s.world))
        ⊎ ((fresh.primary ≡ false) × IsFollower p cli ref endpoint v)
        ⊎ ((fresh.primary ≡ true)
            × (rejoin ≡ rejoin_policy_auto_replica)
            × IsFollower p cli ref endpoint v)
        ⊎ ((fresh.primary ≡ true)
            × ((rejoin == rejoin_policy_auto_replica) ≡ false)
            × IsFenced p cli ref v)

    follows :
        (reconfigure p cli ref endpoint s.world).0 ≡ ok tt
        → IsFollower p cli ref endpoint (reconfigure p cli ref endpoint s.world).1
    follows = reconfigure-IsFollower p server ol sl cli ref endpoint s.world

    abbrev Ends : (World → Type 0) → Type 0
    Ends P = round_of.0 ≡ ok tt → P round_of.1.world

    at_replica :
        (P : World → Type 0)
        → fresh.reachable ≡ true
        → fresh.primary ≡ false
        → ((reconfigure p cli ref endpoint s.world).0 ≡ ok tt
            → P (reconfigure p cli ref endpoint s.world).1)
        → Ends P
    unfolding converge
    at_replica P u n done = rw (u, n) (λ h. done (ground arith))

    at_rejoining :
        (P : World → Type 0)
        → fresh.reachable ≡ true
        → fresh.primary ≡ true
        → (rejoin == rejoin_policy_auto_replica) ≡ true
        → ((reconfigure p cli ref endpoint s.world).0 ≡ ok tt
            → P (reconfigure p cli ref endpoint s.world).1)
        → Ends P
    unfolding converge
    at_rejoining P u n a done =
        rw (u, n, a) (noted_ok _ _ (reconfigure p cli ref endpoint) _ _ _ s P done)

    at_stray :
        (P : World → Type 0)
        → fresh.reachable ≡ true
        → fresh.primary ≡ true
        → (rejoin == rejoin_policy_auto_replica) ≡ false
        → ((fence p cli ref s.world).0 ≡ ok tt → P (fence p cli ref s.world).1)
        → Ends P
    unfolding converge
    at_stray P u n m done = rw (u, n, m) (noted_ok _ _ (fence p cli ref) _ _ _ s P done)

    unreachable_kept : fresh.reachable ≡ false → Ends IsConverged
    unfolding converge
    unreachable_kept u = rw u (λ h. inl (refl, refl))

    -- A round that succeeds has done at the site what its fresh probe and the policy ask for.
    pub converge-IsConverged : round_of.0 ≡ ok tt → IsConverged round_of.1.world
    converge-IsConverged = elim (Bool-cases fresh.reachable) [
      | inr u ↦ unreachable_kept u
      | inl u ↦ elim (Bool-cases fresh.primary) [
        | inr n ↦ at_replica IsConverged u n (λ h. inr (inl (n, follows h)))
        | inl n ↦ elim (text-cases rejoin rejoin_policy_auto_replica) [
          | inl a ↦
              at_rejoining IsConverged u n ((eq_iff _ _).1 a)
                (λ h. inr (inr (inl (n, a, follows h))))
          | inr m ↦
              at_stray IsConverged u n m
                (λ h. inr (inr (inr (n, m, fence-IsFenced p server ol sl cli ref s.world h))))
        ]
      ]
    ]
