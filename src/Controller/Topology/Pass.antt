-- ===== src/Controller/Topology/Pass.antt =====
-- What a whole pass of the topology leaves at all sites, the work of its earlier rounds included.
use cnpg_ha.Base.{
  String, List, [], ◌∷◌, none, some, ◌≡◌, refl, sym, ap, ◌∙◌, subst, ◌⊎◌, inl, inr, true, false,
  ◌==◌, eq_iff, Bool-cases,
}
use cnpg_ha.Base.Exec.{ok, seq_ok}
use cnpg_ha.Api.{RejoinPolicy, rejoin_policy_auto_replica}
use cnpg_ha.Health.{SiteHealth, probe}
use cnpg_ha.Platform.{Platform, Ref}
use cnpg_ha.Platform.Laws.{ObjectLaws, ServerLaws}
use cnpg_ha.Promotion.Fencing.{IsFenced}
use cnpg_ha.Promotion.Repointing.{IsFollower}
use cnpg_ha.Promotion.Standing.{Stands, fence-Stands, reconfigure-Stands}
use cnpg_ha.Controller.Observation.{SiteObservation, replication_endpoint_for}
use cnpg_ha.Controller.State.{Reconciler, State}
use cnpg_ha.Controller.Failover.Places.{place_world}
use cnpg_ha.Controller.Failover.{Place, site_client_and_ref}
use cnpg_ha.Controller.Frame.{PassFrame}
use cnpg_ha.Controller.Frame.Sites.{converge_all-Moves}
use cnpg_ha.Controller.Topology.Rounds.{converge-IsConverged}
use cnpg_ha.Controller.Topology.{
  rejoin_policy_of, converge_at, converge_site, converge_all, reconcile_replica_topology,
}

module _ (p : Platform) (r : Reconciler p) (server : p.Client → String) (ol : ObjectLaws p)
    (sl : ServerLaws p server) (effective_primary endpoint : String) (rejoin : RejoinPolicy) where
  open p use {World, Client}

  -- What stands at a place, by what the probe of its round found: an unreachable site was left
  -- alone, a stray primary under another policy than AutoReplica is fenced, any other site follows
  -- the endpoint.
  abbrev pub IsSettled : Client → Ref → SiteHealth → World → Type 0
  IsSettled cli ref fresh v =
      (fresh.reachable ≡ false)
      ⊎ IsFollower p cli ref endpoint v
      ⊎ ((fresh.primary ≡ true)
          × ((rejoin == rejoin_policy_auto_replica) ≡ false)
          × IsFenced p cli ref v)

  -- The site of a round that starts in this state: the effective primary, a site without a client,
  -- or one that is settled.
  abbrev pub SettledAt : SiteObservation → State p → World → Type 0
  SettledAt obs s v =
      (obs.name ≡ effective_primary)
      ⊎ ((site_client_and_ref p r obs.name s).0 ≡ ok none)
      ⊎ ((cli : Client) × (ref : Ref) × ((site_client_and_ref p r obs.name s).0
            ≡ ok (some (cli, ref)))
          × IsSettled cli ref (probe p cli ref s.world) v)

  -- The same of the sites of a pass, round by round, all in one last world.
  abbrev pub Settled : List SiteObservation → State p → World → Type 0
  Settled [] s v = Unit {0}
  Settled (obs ∷ rest) s v =
      SettledAt obs s v
      × Settled rest (converge_site p r effective_primary endpoint rejoin obs s).1 v

  converge_at-IsSettled :
      (name : String) (cli : Client) (ref : Ref) (s : State p)
      → let round = converge_at p r effective_primary endpoint rejoin name (some (cli, ref)) s in
        round.0 ≡ ok tt → IsSettled cli ref (probe p cli ref s.world) round.1.world
  unfolding converge_at
  converge_at-IsSettled name cli ref s h =
      elim (converge-IsConverged p r server ol sl effective_primary endpoint rejoin name cli ref
        (probe p cli ref s.world) s h) [
          | inl (u, _) ↦ inl u
          | inr (inl (_, f)) ↦ inr (inl f)
          | inr (inr (inl (_, _, f))) ↦ inr (inl f)
          | inr (inr (inr (n, m, f))) ↦ inr (inr (n, m, f))
        ]

  settled_there :
      (obs : SiteObservation) (s : State p) (place : Place p r)
      → (site_client_and_ref p r obs.name s).0 ≡ ok place
      → (site_client_and_ref p r obs.name s).1.world ≡ s.world
      → let t = (site_client_and_ref p r obs.name s).1 in
        let round = converge_at p r effective_primary endpoint rejoin obs.name place t in
        round.0 ≡ ok tt → SettledAt obs s round.1.world
  settled_there obs s none e same h = inr (inl e)
  settled_there obs s (some (cli, ref)) e same h =
      let round =
        converge_at p r effective_primary endpoint rejoin obs.name (some (cli, ref))
          (site_client_and_ref p r obs.name s).1 in
      inr (
        inr (
          cli,
          ref,
          e,
          subst (λ w. IsSettled cli ref (probe p cli ref w) round.1.world) same
              (converge_at-IsSettled obs.name cli ref _ h),
        ))

  placed_round :
      (obs : SiteObservation) (s : State p) (place : Place p r)
      → (obs.name == effective_primary) ≡ false
      → (site_client_and_ref p r obs.name s).0 ≡ ok place
      → converge_site p r effective_primary endpoint rejoin obs s
        ≡ converge_at p r effective_primary endpoint rejoin obs.name place
            (site_client_and_ref p r obs.name s).1
  unfolding converge_site
  placed_round obs s place n at = rw (n, at) refl

  converge_site-SettledAt :
      (obs : SiteObservation) (s : State p)
      → (converge_site p r effective_primary endpoint rejoin obs s).0 ≡ ok tt
      → SettledAt obs s (converge_site p r effective_primary endpoint rejoin obs s).1.world
  converge_site-SettledAt obs s h = elim (Bool-cases (obs.name == effective_primary)) [
    | inl e ↦ inl ((eq_iff _ _).0 e)
    | inr n ↦
        let ((place, at), same) = place_world p r obs.name s in
        let step = placed_round obs s place n at in
        subst (λ x. SettledAt obs s x.1.world) (sym step)
          (settled_there obs s place at same (ap (λ x. x.0) (sym step) ∙ h))
  ]

  -- The rounds of a pass do not undo what stands at a place.
  module _ (c : Client) (at : Ref) where
    abbrev Standing : State p → State p → Type 0
    Standing s t = Stands p server ol sl endpoint c at s.world t.world

    abbrev standing_pass : (endpoint == "") ≡ false → PassFrame p r endpoint Standing
    standing_pass n = record {
      clients = record {
        order = record {
          stay = λ s. (λ h. h, λ h. h);
          chain = λ s t u (a, b) (a', b'). (λ h. a' (a h), λ h. b' (b h));
        };
        served = λ namespace secret_ref s. (λ h. h, λ h. h);
        evented = λ e s. (λ h. h, λ h. h);
      };
      fenced = λ cli ref s. fence-Stands p server ol sl endpoint cli ref s.world c at;
      repointed = λ cli ref s. reconfigure-Stands p server ol sl endpoint n cli ref s.world c at;
    }

    rest_stands :
        (endpoint == "") ≡ false
        → (rest : List SiteObservation) (s : State p)
        → Standing s (converge_all p r effective_primary endpoint rejoin rest s).1
    rest_stands n rest s =
        (converge_all-Moves p r Standing effective_primary endpoint rejoin ⦃f = standing_pass n⦄
            rest).at
          s

  still_settled :
      (endpoint == "") ≡ false
      → (obs : SiteObservation) (rest : List SiteObservation) (s t : State p)
      → SettledAt obs s t.world
      → SettledAt obs s (converge_all p r effective_primary endpoint rejoin rest t).1.world
  still_settled n obs rest s t (inl e) = inl e
  still_settled n obs rest s t (inr (inl e)) = inr (inl e)
  still_settled n obs rest s t (inr (inr (cli, ref, e, inl u))) = inr (inr (cli, ref, e, inl u))
  still_settled n obs rest s t (inr (inr (cli, ref, e, inr (inl f)))) =
      inr (inr (cli, ref, e, inr (inl ((rest_stands cli ref n rest t).0 f))))
  still_settled n obs rest s t (inr (inr (cli, ref, e, inr (inr (m, k, f))))) =
      inr (inr (cli, ref, e, inr (inr (m, k, (rest_stands cli ref n rest t).1 f))))

  converge_all-Settled :
      (endpoint == "") ≡ false
      → (sites : List SiteObservation) (s : State p)
      → (converge_all p r effective_primary endpoint rejoin sites s).0 ≡ ok tt
      → Settled sites s (converge_all p r effective_primary endpoint rejoin sites s).1.world
  unfolding converge_all
  converge_all-Settled n [] s h = tt
  converge_all-Settled n (obs ∷ rest) s h =
      let one = converge_site p r effective_primary endpoint rejoin obs in
      let others = converge_all p r effective_primary endpoint rejoin rest in
      let (done, step) = seq_ok one others s h in
      subst (λ x. Settled (obs ∷ rest) s x.1.world) (sym step)
        (
          still_settled n obs rest s (one s).1 (converge_site-SettledAt obs s done),
          converge_all-Settled n rest (one s).1 (ap (λ x. x.0) (sym step) ∙ h),
        )

module _ (p : Platform) (r : Reconciler p) (server : p.Client → String) (ol : ObjectLaws p)
    (sl : ServerLaws p server) where
  -- After a pass of the topology without an error, where the effective primary has an endpoint, every
  -- other site whose client was there in its round, and whose probe reached it then, follows that
  -- endpoint, or was a stray primary under another policy than AutoReplica and is fenced: later
  -- rounds have not undone it.
  pub topology-Settled :
      (effective_primary : String) (primary_obs : SiteObservation)
      (replica_obs : List SiteObservation) (s : State p)
      → let endpoint = replication_endpoint_for s.ha effective_primary in
        let pass = reconcile_replica_topology p r effective_primary primary_obs replica_obs s in
        (effective_primary == "") ≡ false
        → (endpoint == "") ≡ false
        → pass.0 ≡ ok tt
        → Settled p r server ol sl effective_primary endpoint
            (rejoin_policy_of s.ha.spec.failover)
            (primary_obs ∷ replica_obs)
            s
            pass.1.world
  unfolding reconcile_replica_topology
  topology-Settled effective_primary primary_obs replica_obs s n m =
      rw (n, m)
        (converge_all-Settled p r server ol sl effective_primary
          (replication_endpoint_for s.ha effective_primary) (rejoin_policy_of s.ha.spec.failover) m
          (primary_obs ∷ replica_obs) s)
