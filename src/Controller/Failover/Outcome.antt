-- ===== src/Controller/Failover/Outcome.antt =====
-- What a promotion that runPromotion has carried out leaves at the two sites.
use cnpg_ha.Base.{
  String, ◌≡◌, ◌≢◌, refl, sym, subst, ◌⊎◌, inl, inr, true, some, ◌==◌, arith, Bool-cases,
}
use cnpg_ha.Base.Exec.{Result, ok}
use cnpg_ha.Api.{ReplicaSite}
use cnpg_ha.Platform.{Platform, Ref}
use cnpg_ha.Platform.Laws.{ObjectLaws, ServerLaws}
use cnpg_ha.Promotion.{role_local}
use cnpg_ha.Promotion.Role.{HasPrimary}
use cnpg_ha.Promotion.Service.{HasRole}
use cnpg_ha.Controller.State.{Reconciler, State, remote_client}
use cnpg_ha.Controller.Failover.{
  ref_of, promotion_steps, site_client_and_ref, run_with, run_promotion,
}
use cnpg_ha.Controller.Failover.Steps.{FenceEnd, promotion_steps_done}

module _ (p : Platform) (r : Reconciler p) (old_name : String) (target : ReplicaSite) (s : State p)
    (old_cli : p.Client) (old_ref : Ref) (new_cli : p.Client) where
  -- The state once the client of the old primary is there.
  abbrev pub resolved : State p
  resolved = (site_client_and_ref p r old_name s).1

  -- And once the client of the target is.
  abbrev pub ready : State p
  ready = (remote_client p r resolved.ha.namespace target.kubeconfig_secret_ref resolved).1

  abbrev steps : Result (Unit {0}) × p.World
  steps = promotion_steps p old_cli old_ref new_cli (ref_of target.cluster_ref) ready.world

  ran :
      (site_client_and_ref p r old_name s).0 ≡ ok (some (old_cli, old_ref))
      → (remote_client p r resolved.ha.namespace target.kubeconfig_secret_ref resolved).0
        ≡ ok new_cli
      → (run_promotion p r old_name target s).0 ≡ ok tt
      → (steps.0 ≡ ok tt) × ((run_promotion p r old_name target s).1.world ≡ steps.1)
  unfolding run_promotion run_with
  ran a b = elim (Bool-cases (old_name == "")) [
    | inl e ↦ rw e (λ h. absurd (ground arith))
    | inr n ↦ elim (Bool-cases (old_name == target.name)) [
      | inl e ↦ rw (n, e) (λ h. absurd (ground arith))
      | inr m ↦ rw (n, m, a, b) (λ h. (h, refl))
    ]
  ]

  -- A promotion that succeeds: where the clients of both sites are those given, and their clusters
  -- are different ones, the old primary is fenced, or its fence met a NotFound, the probe of the
  -- target finds a primary, and the Service of the target has the local role.
  pub run_promotion_done :
      (server : p.Client → String) (ol : ObjectLaws p) (sl : ServerLaws p server)
      → (site_client_and_ref p r old_name s).0 ≡ ok (some (old_cli, old_ref))
      → (remote_client p r resolved.ha.namespace target.kubeconfig_secret_ref resolved).0
        ≡ ok new_cli
      → (server old_cli ≢ server new_cli) ⊎ (old_ref ≢ ref_of target.cluster_ref)
      → (run_promotion p r old_name target s).0 ≡ ok tt
      → let after = (run_promotion p r old_name target s).1.world in
        FenceEnd p server ol sl old_cli old_ref new_cli
          (ref_of target.cluster_ref)
          ready.world
          after
        × HasPrimary p true new_cli (ref_of target.cluster_ref) after
        × HasRole p new_cli (ref_of target.cluster_ref) role_local after
  run_promotion_done server ol sl a b apart h =
      let (done, world) = ran a b h in
      subst
        (λ v.
          FenceEnd p server ol sl old_cli old_ref new_cli (ref_of target.cluster_ref) ready.world v
          × HasPrimary p true new_cli (ref_of target.cluster_ref) v
          × HasRole p new_cli (ref_of target.cluster_ref) role_local v)
        (sym world)
        (promotion_steps_done p server ol sl old_cli old_ref new_cli (ref_of target.cluster_ref)
          ready.world apart done)
