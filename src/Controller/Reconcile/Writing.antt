-- ===== src/Controller/Reconcile/Writing.antt =====
-- A whole reconcile and the clusters that accept writes.
use cnpg_ha.Base.{String, List, ◌≡◌, refl, sym, ap, ◌∙◌, subst, inl, true, false, ◌==◌}
use cnpg_ha.Base.Exec.{Result, ok, err, gets, ◌>>=◌}
use cnpg_ha.Base.Moves.{bind_keeps}
use cnpg_ha.Api.{rejoin_policy_auto_replica}
use cnpg_ha.Health.{probe, health_of}
use cnpg_ha.Platform.{Platform, Ref, cnpg_cluster}
use cnpg_ha.Platform.Laws.{ObjectLaws, ServerLaws, HubWriteLaws}
use cnpg_ha.Promotion.{ServiceRole, fence, promote, flip_cilium_service}
use cnpg_ha.Promotion.Fencing.{probe-fence, fence-Untouched}
use cnpg_ha.Promotion.Role.{HasPrimary, promote_keeps_primary, promote-Untouched}
use cnpg_ha.Promotion.Service.{flip-Untouched}
use cnpg_ha.Promotion.Standing.{IsOfObject, kept_everywhere}
use cnpg_ha.Controller.Observation.{SiteObservation}
use cnpg_ha.Controller.State.{Reconciler, State}
use cnpg_ha.Controller.Frame.{ClientFrame, Frame}
use cnpg_ha.Controller.Frame.Whole.{failover-Moves, report-Moves}
use cnpg_ha.Controller.Effect.{Observations, apply_promotion_effect}
use cnpg_ha.Controller.Topology.{rejoin_policy_of, reconcile_replica_topology}
use cnpg_ha.Controller.Topology.Writers.{topology_keeps_writers}
use cnpg_ha.Controller.Frame.Sites.{observe_replicas-Moves}
use cnpg_ha.Controller.Primary.{decide_current_primary}
use cnpg_ha.Controller.Observe.{observe_primary, observe_replicas}
use cnpg_ha.Controller.Reconcile.{
  or_prior, requeue_after, failover, report, converge_topology, act, reconcile_ha,
}

module _ (p : Platform) (server : p.Client → String) (ol : ObjectLaws p) (sl : ServerLaws p server)
    (hub : HubWriteLaws p) (c : p.Client) (at : Ref) (r : Reconciler p) where
  open p use {World, Client}

  abbrev IsWriting : World → Type 0
  IsWriting w = HasPrimary p true c at w

  HasPrimary-IsOfObject : IsOfObject p server ol sl (HasPrimary p true)
  unfolding probe
  HasPrimary-IsOfObject c c' r w v same h =
      subst (λ x. (x.reachable ≡ true) × (x.primary ≡ true)) (ap (health_of p r) (sym same)) h

  fence_kept :
      (cli : Client) (ref : Ref) (w : World) → IsWriting w → IsWriting (fence p cli ref w).1
  fence_kept cli ref w =
      kept_everywhere p server ol sl (HasPrimary p true) HasPrimary-IsOfObject cli ref w _
        (fence-Untouched p server ol sl cli ref w)
        (subst (λ x. (x.reachable ≡ true) × (x.primary ≡ true))
          (sym (probe-fence p server ol sl cli ref w)))
        c at

  promote_kept :
      (cli : Client) (ref : Ref) (w : World) → IsWriting w → IsWriting (promote p cli ref w).1
  promote_kept cli ref w =
      kept_everywhere p server ol sl (HasPrimary p true) HasPrimary-IsOfObject cli ref w _
        (promote-Untouched p server ol sl cli ref w)
        (promote_keeps_primary p server ol sl cli ref w) c at

  flip_kept :
      (cli : Client) (ref : Ref) (role : ServiceRole) (w : World)
      → IsWriting w
      → IsWriting (flip_cilium_service p cli ref role w).1
  flip_kept cli ref role w h =
      HasPrimary-IsOfObject c c at w _
        (flip-Untouched p server ol sl cli ref w role cnpg_cluster c at (inl (λ e. cc))) h

  -- The cluster in question stays a primary, and the spec of the HACluster stays as it is.
  abbrev Keeps : State p → State p → Type 0
  Keeps s t = (IsWriting s.world → IsWriting t.world) × (t.ha.spec ≡ s.ha.spec)

  instance abbrev keeps_clients : ClientFrame p r Keeps
  keeps_clients = record {
    order = record {
      stay = λ s. (λ h. h, refl);
      chain = λ s t u (a, e) (b, g). (λ h. b (a h), g ∙ e);
    };
    served = λ namespace secret_ref s. (λ h. h, refl);
    evented = λ e s. (λ h. h, refl);
  }

  instance abbrev keeps_frame : Frame p r Keeps
  keeps_frame = record {
    promotions = record {
      clients = keeps_clients;
      steps = record {
        order = record {
          stay = λ w s. (λ h. h, refl);
          chain = λ w v u a b s. (λ h. (b s).0 ((a s).0 h), refl);
        };
        fenced = λ cli ref w s. (fence_kept cli ref w, refl);
        promoted = λ cli ref w s. (promote_kept cli ref w, refl);
        flipped = λ cli ref role w s. (flip_kept cli ref role w, refl);
      };
    };
    published = λ calls s. (λ h. h, refl);
    stated = λ st s. (λ h. h, refl);
    failed_once = λ s. (λ h. h, refl);
    healed = λ s. (λ h. h, refl);
    annotated = λ s ha e. (
      HasPrimary-IsOfObject c c at s.world _
          (hub.get-remove_annotation _ s.ha cnpg_cluster c at s.world),
      hub.spec-remove_annotation _ s.ha ha s.world e,
    );
    annotation_refused = λ s e g. (
      HasPrimary-IsOfObject c c at s.world _
          (hub.get-remove_annotation _ s.ha cnpg_cluster c at s.world),
      refl,
    );
    status_stored = λ s ha e. (
      HasPrimary-IsOfObject c c at s.world _ (hub.get-update_status s.ha cnpg_cluster c at s.world),
      hub.spec-update_status s.ha ha s.world e,
    );
    status_refused = λ s e g. (
      HasPrimary-IsOfObject c c at s.world _ (hub.get-update_status s.ha cnpg_cluster c at s.world),
      refl,
    );
  }

  -- The rejoin policy of the spec is not AutoReplica.
  abbrev IsCautious : State p → Type 0
  IsCautious s = (rejoin_policy_of s.ha.spec.failover == rejoin_policy_auto_replica) ≡ false

  still-IsCautious : (s t : State p) → Keeps s t → IsCautious s → IsCautious t
  still-IsCautious s t (_, e) h =
      subst (λ x. (rejoin_policy_of x.failover == rejoin_policy_auto_replica) ≡ false) (sym e) h

  abbrev Writes : State p → Type 0
  Writes s = IsWriting s.world

  converge_topology_kept :
      (prior : String) (obs : Observations) (outcome : Result (Unit {0})) (s : State p)
      → IsCautious s
      → Writes s
      → Writes (converge_topology p r prior obs outcome s).1
  unfolding converge_topology
  converge_topology_kept prior obs (err e) s m h = h
  converge_topology_kept prior (primary_obs, replica_obs) (ok x) s m h =
      let kept =
        topology_keeps_writers p server ol sl c at r
          (or_prior (decide_current_primary primary_obs replica_obs).0 prior) primary_obs
          replica_obs s m h in
      bind_keeps Writes
        (reconcile_replica_topology p r
          (or_prior (decide_current_primary primary_obs replica_obs).0 prior) primary_obs
          replica_obs)
        (λ x. gets (λ s. requeue_after s.ha.spec.failover)) s kept (λ x. kept)

  -- From the report on.
  reported_kept :
      (prior : String) (obs : Observations) (outcome : Result (Unit {0})) (s : State p)
      → IsCautious s
      → Writes s
      → Writes ((report p r prior obs >>= λ x. converge_topology p r prior obs outcome) s).1
  reported_kept prior obs outcome s m h =
      let moved = (report-Moves p r Keeps prior obs).at s in
      bind_keeps Writes (report p r prior obs) (λ x. converge_topology p r prior obs outcome) s
        (moved.0 h)
        (λ x.
          converge_topology_kept prior obs outcome (report p r prior obs s).1
            (still-IsCautious s (report p r prior obs s).1 moved m) (moved.0 h))

  act_kept :
      (primary_obs : SiteObservation) (replica_obs : List SiteObservation) (s : State p)
      → IsCautious s
      → Writes s
      → Writes (act p r primary_obs replica_obs s).1
  unfolding act
  act_kept primary_obs replica_obs s m h =
      let moved = (failover-Moves p r Keeps primary_obs replica_obs).at s in
      let t = (failover p r primary_obs replica_obs s).1 in
      bind_keeps Writes (failover p r primary_obs replica_obs) _ s (moved.0 h) (λ (effect, outcome).
        reported_kept s.ha.status.current_primary_site
          (apply_promotion_effect effect (primary_obs, replica_obs)) outcome t
          (still-IsCautious s t moved m) (moved.0 h))

  -- Unless the rejoin policy is AutoReplica, a whole reconcile demotes no writer: a cluster whose
  -- probe finds a primary before it is one whose probe finds a primary after it, whatever the
  -- reconcile observes, promotes and reports, and however it ends.
  pub reconcile_keeps_writers :
      (s : State p)
      → (rejoin_policy_of s.ha.spec.failover == rejoin_policy_auto_replica) ≡ false
      → HasPrimary p true c at s.world
      → HasPrimary p true c at (reconcile_ha p r s).1.world
  unfolding reconcile_ha observe_primary
  reconcile_keeps_writers s m h =
      let moved = (observe_replicas-Moves p r Keeps s.ha.spec.replicas).at s in
      let t = (observe_replicas p r s.ha.spec.replicas s).1 in
      bind_keeps Writes (observe_replicas p r s.ha.spec.replicas) _ s (moved.0 h)
        (λ replica_obs. act_kept _ replica_obs t (still-IsCautious s t moved m) (moved.0 h))
