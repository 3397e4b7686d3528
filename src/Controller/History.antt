-- ===== src/Controller/History.antt =====
-- The operator over time: it starts, reconciles in any order and restarts, while the world outside
-- changes between its steps.
pub mod Currency
pub mod Isolation
use cnpg_ha.Base.{[]}
use cnpg_ha.Platform.{Platform, Ref}
use cnpg_ha.Remote.{new_cache}
use cnpg_ha.Controller.State.{Reconciler}
use cnpg_ha.Controller.Reconcile.{Memory, reconcile}

module _ (p : Platform) (r : Reconciler p) where
  open p use {World}

  -- The reconciler as SetupWithManager leaves it: an empty cache of clients, and no failure counted.
  unfoldable pub set_up : World → Memory p r
  set_up w = record {
    world = w;
    cache = new_cache p;
    fail_count = λ key. 0;
    events = [];
    metrics = [];
  }

  -- One step, with the worlds that the outside may lead to.
  pub data Turn (IsAllowed : World → Type 0) : Memory p r → Memory p r → Type 0 where
    outside : (m : Memory p r) (w : World) → IsAllowed w → Turn IsAllowed m (record m { world = w })
    reconciled : (m : Memory p r) (req : Ref) → Turn IsAllowed m (reconcile p r req m).1
    restarted : (m : Memory p r) → Turn IsAllowed m (set_up m.world)

  pub data History (IsAllowed : World → Type 0) (w : World) : Memory p r → Type 0 where
    begun : History IsAllowed w (set_up w)
    turned : {m n : Memory p r} → History IsAllowed w m → Turn IsAllowed m n → History IsAllowed w n
