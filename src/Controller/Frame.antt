-- ===== src/Controller/Frame.antt =====
-- What each part of the controller may change, from the platform's writes up: a relation that has
-- every write of a part has every run of it.
pub mod Sites
pub mod Handlers
pub mod Whole
use cnpg_ha.Base.{String, List, ◌++◌, [], ◌∷◌, delete, ◌≡◌, inl, inr, Bool-cases}
use cnpg_ha.Base.Message.{Err, Text}
use cnpg_ha.Base.Exec.{Result, ok, err, Exec}
use cnpg_ha.Base.Moves.{Order, Moves}
use cnpg_ha.Api.{HaCluster, HaClusterStatus, SecretKeySelector}
use cnpg_ha.Platform.{Platform, Kind, Ref}
use cnpg_ha.Metrics.{Call}
use cnpg_ha.Promotion.{fence, reconfigure}
use cnpg_ha.Promotion.Writes.{
  HasUpdates, HasSteps, steps_of_updates, fence-Moves, reconfigure-Moves,
}
use cnpg_ha.Remote.{get_or_create}
use cnpg_ha.Controller.State.{
  Reconciler, State, Event, EventType, annotation_promote, ha_key, bumped, forgotten, with_status,
  event, on_world, remote_client,
}

module _ (p : Platform) (r : Reconciler p) where
  open p use {World, Client, Object}

  -- A relation that has the calls of the cache of clients and the events.
  pub record ClientFrame (R : State p → State p → Type 0) : Type 0 where
    pub order : Order R
    pub served :
        (namespace : String) (secret_ref : SecretKeySelector) (s : State p)
        → R s
            (record s { cache = (get_or_create p r.client namespace secret_ref s.world s.cache).1 })
    pub evented : (e : Event) (s : State p) → R s (record s { events = s.events ++ e ∷ [] })

  -- And the two actions of a topology pass to one endpoint.
  pub record PassFrame (endpoint : String) (R : State p → State p → Type 0) : Type 0 where
    pub clients : ClientFrame R
    pub fenced :
        (cli : Client) (ref : Ref) (s : State p)
        → R s (record s { world = (fence p cli ref s.world).1 })
    pub repointed :
        (cli : Client) (ref : Ref) (s : State p)
        → R s (record s { world = (reconfigure p cli ref endpoint s.world).1 })

  -- The same relation of the world alone.
  abbrev pub WorldOf : (State p → State p → Type 0) → World → World → Type 0
  WorldOf R w v = (s : State p) → R (record s { world = w }) (record s { world = v })

  -- And the actions of a promotion.
  pub record PromotionFrame (R : State p → State p → Type 0) : Type 0 where
    pub clients : ClientFrame R
    pub steps : HasSteps p (WorldOf R)

  -- And all writes at the sites.
  pub record SiteFrame (R : State p → State p → Type 0) : Type 0 where
    pub clients : ClientFrame R
    pub wrote :
        (k : Kind) (c : Client) (o : Object) (s : State p)
        → R s (record s { world = (p.update k c o s.world).1 })

  -- A promotion, and the reconciler's own: metrics, the status in memory, the failure counter, and the two
  -- writes of the HACluster.
  pub record Frame (R : State p → State p → Type 0) : Type 0 where
    pub promotions : PromotionFrame R
    pub published :
        (calls : List Call) (s : State p) → R s (record s { metrics = s.metrics ++ calls })
    pub stated : (st : HaClusterStatus) (s : State p) → R s (with_status p r st s)
    pub failed_once :
        (s : State p) → R s (record s { fail_count = bumped (ha_key s.ha) s.fail_count })
    pub healed :
        (s : State p) → R s (record s { fail_count = forgotten (ha_key s.ha) s.fail_count })
    pub annotated :
        (s : State p) (ha : HaCluster)
        → (p.remove_annotation annotation_promote s.ha s.world).0 ≡ ok ha
        → R s (record s {
          world = (p.remove_annotation annotation_promote s.ha s.world).1;
          ha = record ha { annotations = delete annotation_promote ha.annotations };
        })
    pub annotation_refused :
        (s : State p) (e : Err)
        → (p.remove_annotation annotation_promote s.ha s.world).0 ≡ err e
        → R s (record s { world = (p.remove_annotation annotation_promote s.ha s.world).1 })
    pub status_stored :
        (s : State p) (ha : HaCluster)
        → (p.update_status s.ha s.world).0 ≡ ok ha
        → R s (record s { world = (p.update_status s.ha s.world).1; ha = ha })
    pub status_refused :
        (s : State p) (e : Err)
        → (p.update_status s.ha s.world).0 ≡ err e
        → R s (record s { world = (p.update_status s.ha s.world).1 })

  -- And the passes of the topology: all that a reconcile does.
  pub record WholeFrame (R : State p → State p → Type 0) : Type 0 where
    pub handlers : Frame R
    pub passes : (endpoint : String) → PassFrame endpoint R

  module _ (R : State p → State p → Type 0) ⦃f : ClientFrame R⦄ where
    pub remote_client-Moves :
        (namespace : String) (secret_ref : SecretKeySelector)
        → Moves R (remote_client p r namespace secret_ref)
    unfolding remote_client
    remote_client-Moves namespace secret_ref = record { at = f.served namespace secret_ref }

    pub event-Moves :
        (kind : EventType) (reason : String) (message : Text)
        → Moves R (event p r kind reason message)
    unfolding event
    event-Moves kind reason message = record {
      at = λ s. elim (Bool-cases r.has_recorder) [
        | inl h ↦ rw h (f.evented _ s)
        | inr h ↦ rw h (f.order.stay s)
      ];
    }

  module _ (R : State p → State p → Type 0) ⦃f : SiteFrame R⦄ where
    abbrev world_updates : HasUpdates p (WorldOf R)
    world_updates = record {
      order = record {
        stay = λ w s. f.clients.order.stay _;
        chain = λ w v u a b s. f.clients.order.chain _ _ _ (a s) (b s);
      };
      updated = λ k c o w s. f.wrote k c o (record s { world = w });
    }

    abbrev pub site_promotion : PromotionFrame R
    site_promotion = record {
      clients = f.clients;
      steps = steps_of_updates p (WorldOf R) ⦃f = world_updates⦄;
    }

    pub site_pass : (endpoint : String) → PassFrame endpoint R
    site_pass endpoint = record {
      clients = f.clients;
      fenced = λ cli ref s. (fence-Moves p (WorldOf R) ⦃f = world_updates⦄ cli ref).at s.world s;
      repointed = λ cli ref s.
          (reconfigure-Moves p (WorldOf R) ⦃f = world_updates⦄ cli ref endpoint).at s.world s;
    }
