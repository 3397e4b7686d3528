-- ===== src/Controller/Topology/Writers.antt =====
-- The topology and the clusters that accept writes.
use cnpg_ha.Base.{
  String, true, false, List, [], ◌∷◌, none, some, ◌≡◌, refl, sym, ap, ◌∙◌, subst, inl, inr, arith,
  Bool-cases, ◌==◌,
}
use cnpg_ha.Base.Exec.{Exec, Result-cases, wrap, ◌>>◌}
use cnpg_ha.Base.Message.{Text, Args}
use cnpg_ha.Api.{RejoinPolicy, rejoin_policy_auto_replica}
use cnpg_ha.Health.{SiteHealth, health_of, probe, probe_kept}
use cnpg_ha.Platform.{Platform, Ref, cnpg_cluster}
use cnpg_ha.Platform.Places.{text-cases_ne, ref-cases}
use cnpg_ha.Platform.Laws.{ObjectLaws, ServerLaws, Untouched}
use cnpg_ha.Promotion.{fence, reconfigure}
use cnpg_ha.Promotion.Fencing.{probe-fence, fence-Untouched}
use cnpg_ha.Promotion.Role.{HasPrimary}
use cnpg_ha.Promotion.Following.{reconfigure-Untouched}
use cnpg_ha.Controller.Observation.{replication_endpoint_for, SiteObservation}
use cnpg_ha.Controller.State.{Reconciler, State, EventType, on_world, event}
use cnpg_ha.Controller.Failover.Places.{place_world}
use cnpg_ha.Controller.Failover.{Place}
use cnpg_ha.Controller.Topology.Rounds.{event_kept}
use cnpg_ha.Controller.Topology.{
  rejoin_policy_of, converge, converge_at, converge_site, converge_all, reconcile_replica_topology,
}

module _ (p : Platform) (server : p.Client → String) (ol : ObjectLaws p) (sl : ServerLaws p server)
    (c : p.Client) (at : Ref) where
  open p use {World, Client}

  abbrev IsWriting : World → Type 0
  IsWriting w = HasPrimary p true c at w

  same_probe :
      (cli : Client) (ref : Ref)
      → server cli ≡ server c
      → ref ≡ at
      → (w : World) → probe p cli ref w ≡ probe p c at w
  unfolding probe
  same_probe cli ref e e' w =
      ap (λ r. probe p cli r w) e' ∙ ap (health_of p at) (sl.get_server cnpg_cluster cli c at w e)

  carried : (w v : World) → probe p c at v ≡ probe p c at w → IsWriting w → IsWriting v
  carried w v e h = subst (λ x. (x.reachable ≡ true) × (x.primary ≡ true)) (sym e) h

  -- A step at one cluster that leaves all others alone, and that does not change the probe of its
  -- own where that is the cluster in question.
  step_keeps :
      (cli : Client) (ref : Ref) (w v : World)
      → Untouched p server cnpg_cluster cli ref w v
      → ((probe p cli ref w ≡ probe p c at w) → probe p cli ref v ≡ probe p cli ref w)
      → IsWriting w
      → IsWriting v
  step_keeps cli ref w v un here h = elim (text-cases_ne (server cli) (server c)) [
    | inr n ↦ carried w v (probe_kept p c at v w (un cnpg_cluster c at (inr (inl n)))) h
    | inl e ↦ elim (ref-cases ref at) [
      | inr n ↦ carried w v (probe_kept p c at v w (un cnpg_cluster c at (inr (inr n)))) h
      | inl e' ↦
          let same = same_probe cli ref e e' in
          carried w v (sym (same v) ∙ here (same w) ∙ same w) h
    ]
  ]

  fence_keeps :
      (cli : Client) (ref : Ref) (w : World) → IsWriting w → IsWriting (fence p cli ref w).1
  fence_keeps cli ref w =
      step_keeps cli ref w (fence p cli ref w).1 (fence-Untouched p server ol sl cli ref w)
        (λ same. probe-fence p server ol sl cli ref w)

  -- Reconfigure is called where the probe finds no primary.
  reconfigure_keeps :
      (cli : Client) (ref : Ref) (host : String) (w : World)
      → (probe p cli ref w).primary ≡ false
      → IsWriting w
      → IsWriting (reconfigure p cli ref host w).1
  reconfigure_keeps cli ref host w n h =
      step_keeps cli ref w (reconfigure p cli ref host w).1
        (reconfigure-Untouched p server ol sl cli ref host w)
        (λ same. absurd (ground (arith, n, h, ap (λ x. x.primary) same))) h

  module _ (r : Reconciler p) (effective_primary endpoint : String) (rejoin : RejoinPolicy) where
    -- The world after an action and an event that follows its success.
    noted_world :
        (f : String) (a : Args) (m : Exec World (Unit {0})) (kind : EventType) (reason : String)
        (message : Text) (s : State p)
        → ((wrap f a (on_world p r m) >> event p r kind reason message) s).1.world ≡ (m s.world).1
    noted_world f a m kind reason message s = elim (Result-cases (m s.world).0) [
      | inl (x, e) ↦ rw e (event_kept p r kind reason message _)
      | inr (x, e) ↦ rw e refl
    ]

    -- An action on the state that leaves the cluster in question a primary.
    abbrev Keeps : Exec (State p) (Unit {0}) → State p → Type 0
    Keeps m s = IsWriting s.world → IsWriting (m s).1.world

    converge-Keeps :
        (name : String) (cli : Client) (ref : Ref) (s : State p) (fresh : SiteHealth)
        → probe p cli ref s.world ≡ fresh
        → (rejoin == rejoin_policy_auto_replica) ≡ false
        → Keeps (converge p r effective_primary endpoint rejoin name cli ref fresh) s
    unfolding converge
    converge-Keeps name cli ref s fresh e manual h = elim (Bool-cases fresh.reachable) [
      | inr u ↦ rw u h
      | inl u ↦ elim (Bool-cases fresh.primary) [
        | inr n ↦
            rw (u, n) (reconfigure_keeps cli ref endpoint s.world (ap (λ x. x.primary) e ∙ n) h)
        | inl n ↦
            rw (u, n, manual, noted_world _ _ (fence p cli ref) _ _ _ s)
              (fence_keeps cli ref s.world h)
      ]
    ]

    converge_at-Keeps :
        (name : String) (place : Place p r) (s : State p)
        → (rejoin == rejoin_policy_auto_replica) ≡ false
        → Keeps (converge_at p r effective_primary endpoint rejoin name place) s
    unfolding converge_at
    converge_at-Keeps name none s manual h = h
    converge_at-Keeps name (some (cli, ref)) s manual h =
        converge-Keeps name cli ref s (probe p cli ref s.world) refl manual h

    converge_site-Keeps :
        (obs : SiteObservation) (s : State p)
        → (rejoin == rejoin_policy_auto_replica) ≡ false
        → Keeps (converge_site p r effective_primary endpoint rejoin obs) s
    unfolding converge_site
    converge_site-Keeps obs s manual h = elim (Bool-cases (obs.name == effective_primary)) [
      | inl e ↦ rw e h
      | inr n ↦
          let ((place, at_place), same) = place_world p r obs.name s in
          rw (n, at_place)
            (converge_at-Keeps obs.name place _ manual (subst IsWriting (sym same) h))
    ]

    converge_all-Keeps :
        (sites : List SiteObservation) (s : State p)
        → (rejoin == rejoin_policy_auto_replica) ≡ false
        → Keeps (converge_all p r effective_primary endpoint rejoin sites) s
    unfolding converge_all
    converge_all-Keeps [] s manual h = h
    converge_all-Keeps (obs ∷ rest) s manual h =
        let one = converge_site p r effective_primary endpoint rejoin obs s in
        elim (Result-cases one.0) [
          | inl (x, e) ↦
              rw e (converge_all-Keeps rest one.1 manual (converge_site-Keeps obs s manual h))
          | inr (x, e) ↦ rw e (converge_site-Keeps obs s manual h)
        ]

  -- Unless the rejoin policy is AutoReplica, converging the topology demotes no writer: a cluster
  -- whose probe finds a primary before it is one whose probe finds a primary after it, whatever
  -- site is the effective primary and however the pass ends.
  pub topology_keeps_writers :
      (r : Reconciler p) (effective_primary : String) (primary_obs : SiteObservation)
      (replica_obs : List SiteObservation) (s : State p)
      → (rejoin_policy_of s.ha.spec.failover == rejoin_policy_auto_replica) ≡ false
      → HasPrimary p true c at s.world
      → HasPrimary p true c at
          (reconcile_replica_topology p r effective_primary primary_obs replica_obs s).1.world
  unfolding reconcile_replica_topology
  topology_keeps_writers r effective_primary primary_obs replica_obs s manual h =
      let endpoint = replication_endpoint_for s.ha effective_primary in
      elim (Bool-cases (effective_primary == "")) [
        | inl e ↦ rw e h
        | inr n ↦ elim (Bool-cases (endpoint == "")) [
          | inl e ↦ rw (n, e) h
          | inr m ↦
              rw (n, m)
                (converge_all-Keeps r effective_primary endpoint
                  (rejoin_policy_of s.ha.spec.failover) (primary_obs ∷ replica_obs) s manual h)
        ]
      ]
