-- ===== src/Controller/Failover/Retry.antt =====
-- The promotion sequence once more, after it has passed.
use cnpg_ha.Base.{String, ◌≡◌, ◌≢◌, inl, inr, refl, sym, subst, ◌∙◌}
use cnpg_ha.Base.Exec.{ok}
use cnpg_ha.Platform.{Platform, Ref, cnpg_cluster, service}
use cnpg_ha.Platform.Laws.{ObjectLaws, ServerLaws}
use cnpg_ha.Promotion.{role_local, role_remote, rw_service, fence, flip_cilium_service}
use cnpg_ha.Promotion.Fencing.{IsFenced, fence-IsFenced, fence_of_IsFenced}
use cnpg_ha.Promotion.Service.{HasRole, flip-HasRole, flip-Untouched, flip_of_HasRole}
use cnpg_ha.Promotion.Role.{IsWriter, promote-IsWriter, promote-Untouched, promote_of_IsWriter}
use cnpg_ha.Controller.Failover.{promotion_steps}
use cnpg_ha.Controller.Failover.Steps.{w1, w2, w3, w4, passed, old_cluster_kept}

module _ (p : Platform) (server : p.Client → String) (ol : ObjectLaws p) (sl : ServerLaws p server)
    (old_cli : p.Client) (old_ref : Ref) (new_cli : p.Client) (new_ref : Ref) (w : p.World) where
  open p use {World}

  abbrev after1 : World
  after1 = w1 p server ol sl old_cli old_ref new_cli new_ref w

  abbrev after2 : World
  after2 = w2 p server ol sl old_cli old_ref new_cli new_ref w

  abbrev after3 : World
  after3 = w3 p server ol sl old_cli old_ref new_cli new_ref w

  abbrev after4 : World
  after4 = w4 p server ol sl old_cli old_ref new_cli new_ref w

  -- All that the four steps look at is in place.
  abbrev InPlace : World → Type 0
  InPlace v =
      IsFenced p old_cli old_ref v
      × HasRole p old_cli old_ref role_remote v
      × IsWriter p new_cli new_ref v
      × HasRole p new_cli new_ref role_local v

  steps_of_InPlace :
      (v : World) → InPlace v → promotion_steps p old_cli old_ref new_cli new_ref v ≡ (ok tt, v)
  unfolding promotion_steps
  steps_of_InPlace v (f, old, writer, new) =
      rw
        (
          fence_of_IsFenced p old_cli old_ref v f,
          flip_of_HasRole p old_cli old_ref role_remote v old,
          promote_of_IsWriter p new_cli new_ref v writer,
          flip_of_HasRole p new_cli new_ref role_local v new,
        )
        refl

  old_service_kept :
      server old_cli ≢ server new_cli
      → p.get service old_cli (rw_service old_ref) after4
        ≡ p.get service old_cli (rw_service old_ref) after2
  old_service_kept apart =
      flip-Untouched p server ol sl new_cli new_ref after3 role_local service old_cli
        (rw_service old_ref) (inr (inl (λ e. apart (sym e))))
      ∙ promote-Untouched p server ol sl new_cli new_ref after2 service old_cli (rw_service old_ref)
          (inl (λ e. cc))

  new_cluster_kept :
      p.get cnpg_cluster new_cli new_ref after4 ≡ p.get cnpg_cluster new_cli new_ref after3
  new_cluster_kept =
      flip-Untouched p server ol sl new_cli new_ref after3 role_local cnpg_cluster new_cli new_ref
        (inl (λ e. cc))

  -- Where the two sites are on different API servers, a promotion that has succeeded, with its
  -- fence and its flip at the old primary done and not skipped, can be run again: it succeeds
  -- and changes nothing.
  pub promotion_steps_idem :
      server old_cli ≢ server new_cli
      → (fence p old_cli old_ref w).0 ≡ ok tt
      → (flip_cilium_service p old_cli old_ref role_remote after1).0 ≡ ok tt
      → (promotion_steps p old_cli old_ref new_cli new_ref w).0 ≡ ok tt
      → let v = (promotion_steps p old_cli old_ref new_cli new_ref w).1 in
        promotion_steps p old_cli old_ref new_cli new_ref v ≡ (ok tt, v)
  promotion_steps_idem apart f s h =
      let (_, m, last, e) = passed p server ol sl old_cli old_ref new_cli new_ref w h in
      let (o, g, a) = fence-IsFenced p server ol sl old_cli old_ref w f in
      let (o', g', mesh, role) = flip-HasRole p server ol sl old_cli old_ref after1 role_remote s in
      let (u, found, flag) = promote-IsWriter p server ol sl new_cli new_ref after2 m in
      let kept = old_cluster_kept p server ol sl old_cli old_ref new_cli new_ref w (inl apart) in
      subst (λ v. promotion_steps p old_cli old_ref new_cli new_ref v ≡ (ok tt, v)) (sym e)
        (steps_of_InPlace after4 (
          (o, kept ∙ g, a),
          (o', old_service_kept apart ∙ g', mesh, role),
          (u, new_cluster_kept ∙ found, flag),
          flip-HasRole p server ol sl new_cli new_ref after3 role_local last,
        ))
