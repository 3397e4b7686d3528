-- ===== src/Promotion/Writes.antt =====
-- The four promotion actions change the world by updates of objects only.
use cnpg_ha.Base.{String, none, some, Option, ℕ}
use cnpg_ha.Base.Moves.{Order, Moves, moves_rules, bind-Moves, pure-Moves}
use cnpg_ha.Value.{Items, Fields}
use cnpg_ha.Platform.{Platform, Kind, Ref}
use cnpg_ha.Promotion.{
  ServiceRole, store, fence, promote, repoint, reconfigure_at, reconfigure, flip_cilium_service,
}

module _ (p : Platform) where
  open p use {World, Client, Object}

  -- A relation of worlds that every update of an object, accepted or refused, is in.
  pub record HasUpdates (Q : World → World → Type 0) : Type 0 where
    pub order : Order Q
    pub updated : (k : Kind) (c : Client) (o : Object) (w : World) → Q w (p.update k c o w).1

  -- A relation of worlds that every run of the three actions of a promotion is in.
  pub record HasSteps (Q : World → World → Type 0) : Type 0 where
    pub order : Order Q
    pub fenced : (cli : Client) (ref : Ref) (w : World) → Q w (fence p cli ref w).1
    pub promoted : (cli : Client) (ref : Ref) (w : World) → Q w (promote p cli ref w).1
    pub flipped :
        (cli : Client) (ref : Ref) (role : ServiceRole) (w : World)
        → Q w (flip_cilium_service p cli ref role w).1

  module _ (Q : World → World → Type 0) ⦃f : HasUpdates Q⦄ where
    instance abbrev pub world_order : Order Q
    world_order = f.order

    store-Moves : (k : Kind) (cli : Client) (o : Object) → Moves Q (store p k cli o)
    store-Moves k cli o = bind-Moves _ _ (record { at = f.updated k cli o }) (λ x. pure-Moves tt)

    pub fence-Moves : (cli : Client) (ref : Ref) → Moves Q (fence p cli ref)
    unfolding fence
    fence-Moves cli ref = search (moves_rules, store-Moves) depth 12

    pub promote-Moves : (cli : Client) (ref : Ref) → Moves Q (promote p cli ref)
    unfolding promote
    promote-Moves cli ref = search (moves_rules, store-Moves) depth 12

    repoint-Moves :
        (cli : Client) (ref : Ref) (externals : Items) (u : Object)
        → Moves Q (repoint p cli ref externals u)
    unfolding repoint
    repoint-Moves cli ref externals u = search (moves_rules, store-Moves) depth 12

    reconfigure_at-Moves :
        (cli : Client) (ref : Ref) (host : String) (externals : Items) (idx : ℕ)
        (ext : Option Fields) (u : Object)
        → Moves Q (reconfigure_at p cli ref host externals idx ext u)
    unfolding reconfigure_at
    reconfigure_at-Moves cli ref host externals idx none u = search moves_rules
    reconfigure_at-Moves cli ref host externals idx (some ext) u =
        search (moves_rules, repoint-Moves)

    pub reconfigure-Moves :
        (cli : Client) (ref : Ref) (host : String) → Moves Q (reconfigure p cli ref host)
    unfolding reconfigure
    reconfigure-Moves cli ref host = search (moves_rules, reconfigure_at-Moves) depth 12

    pub flip-Moves :
        (cli : Client) (ref : Ref) (role : ServiceRole)
        → Moves Q (flip_cilium_service p cli ref role)
    unfolding flip_cilium_service
    flip-Moves cli ref role = search (moves_rules, store-Moves) depth 12

    abbrev pub steps_of_updates : HasSteps Q
    steps_of_updates = record {
      order = f.order;
      fenced = λ cli ref. (fence-Moves cli ref).at;
      promoted = λ cli ref. (promote-Moves cli ref).at;
      flipped = λ cli ref role. (flip-Moves cli ref role).at;
    }
