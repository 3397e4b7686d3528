-- ===== src/Controller/Failover/Places.antt =====
-- siteClientAndRef: where a site is, a read of the world.
use cnpg_ha.Base.{String, ◌≡◌, refl, inl, inr, Bool-cases, Option-cases, ◌==◌}
use cnpg_ha.Base.Exec.{ok}
use cnpg_ha.Platform.{Platform}
use cnpg_ha.Controller.Observation.{find_replica}
use cnpg_ha.Controller.State.{Reconciler, State, remote_client}
use cnpg_ha.Controller.Failover.{Place, site_client_and_ref, replica_place}

pub place_world :
    (p : Platform) (r : Reconciler p) (name : String) (s : State p)
    → ((place : Place p r) × ((site_client_and_ref p r name s).0 ≡ ok place))
      × ((site_client_and_ref p r name s).1.world ≡ s.world)
unfolding site_client_and_ref replica_place remote_client
place_world p r name s = elim (Bool-cases (name == s.ha.spec.primary.name)) [
  | inl e ↦ rw e ((_, refl), refl)
  | inr n ↦ elim (Option-cases (find_replica s.ha name)) [
    | inl f ↦ rw (n, f) ((_, refl), refl)
    | inr (x, f) ↦ rw (n, f) ((_, refl), refl)
  ]
]
