-- ===== src/Controller/Failover/Steps.antt =====
-- What the four steps of a promotion leave behind.
use cnpg_ha.Base.{
  String, ◌≡◌, ◌≢◌, ◌⊎◌, inl, inr, refl, sym, ap, subst, ◌∙◌, true, arith, Bool-cases,
}
use cnpg_ha.Base.Message.{Err, end, is_not_found}
use cnpg_ha.Base.Exec.{Result, ok, err, Exec, wrap, seq_ok, ◌>>◌}
use cnpg_ha.Health.{probe_kept}
use cnpg_ha.Platform.{Platform, Ref, cnpg_cluster}
use cnpg_ha.Platform.Laws.{ObjectLaws, ServerLaws}
use cnpg_ha.Promotion.{role_local, role_remote, fence, promote, flip_cilium_service}
use cnpg_ha.Promotion.Fencing.{IsFenced, fence-IsFenced}
use cnpg_ha.Promotion.Service.{HasRole, flip-HasRole, flip-Untouched}
use cnpg_ha.Promotion.Role.{HasPrimary, promote-HasPrimary, promote-Untouched}
use cnpg_ha.Controller.Failover.{tolerated, unless_not_found, promotion_steps}

-- A tolerated step that passes succeeded, or met a NotFound.
pub tolerated_ok :
    (f : String) (r : Result (Unit {0}))
    → tolerated f r ≡ ok tt
    → (r ≡ ok tt) ⊎ ((e : Err) × (r ≡ err e) × (is_not_found e ≡ true))
tolerated_ok f (ok x) h = inl refl
tolerated_ok f (err e) h = elim (Bool-cases (is_not_found e)) [
  | inl n ↦ inr (e, refl, n)
  | inr n ↦ absurd (ground arith)
]

wrap_ok :
    {W : Type 0} (f : String) (m : Exec W (Unit {0})) (w : W)
    → (wrap f end m w).0 ≡ ok tt
    → (m w).0 ≡ ok tt
wrap_ok f m w h = ground arith

module _ (p : Platform) (server : p.Client → String) (ol : ObjectLaws p) (sl : ServerLaws p server)
    (old_cli : p.Client) (old_ref : Ref) (new_cli : p.Client) (new_ref : Ref) (w : p.World) where
  open p use {World}

  abbrev pub after : World
  after = (promotion_steps p old_cli old_ref new_cli new_ref w).1

  -- A first step that passes in any of the two ways leaves its own mark, or the world as it was.
  abbrev pub FenceEnd : World → Type 0
  FenceEnd v =
      IsFenced p old_cli old_ref v
      ⊎ ((e : Err) × ((fence p old_cli old_ref w).0 ≡ err e) × (is_not_found e ≡ true))

  -- The worlds after each step, where the steps before it passed.
  abbrev pub w1 : World
  w1 = (fence p old_cli old_ref w).1

  abbrev pub w2 : World
  w2 = (flip_cilium_service p old_cli old_ref role_remote w1).1

  abbrev pub w3 : World
  w3 = (promote p new_cli new_ref w2).1

  abbrev pub w4 : World
  w4 = (flip_cilium_service p new_cli new_ref role_local w3).1

  -- What a promotion that succeeds has behind it.
  abbrev pub Passed : Type 0
  Passed =
      (tolerated "fence old primary: %w" (fence p old_cli old_ref w).0 ≡ ok tt)
      × ((promote p new_cli new_ref w2).0 ≡ ok tt)
      × ((flip_cilium_service p new_cli new_ref role_local w3).0 ≡ ok tt)
      × (after ≡ w4)

  pub passed : (promotion_steps p old_cli old_ref new_cli new_ref w).0 ≡ ok tt → Passed
  unfolding promotion_steps
  passed h =
      let fence1 = unless_not_found "fence old primary: %w" (fence p old_cli old_ref) in
      let flip1 =
        unless_not_found "flip old primary service to remote: %w"
          (flip_cilium_service p old_cli old_ref role_remote) in
      let promote1 = wrap "promote target: %w" end (promote p new_cli new_ref) in
      let flip2 =
        wrap "flip target service to local: %w" end
          (flip_cilium_service p new_cli new_ref role_local) in
      let (h1, e1) = seq_ok fence1 (flip1 >> (promote1 >> flip2)) w h in
      let (h2, e2) = seq_ok flip1 (promote1 >> flip2) w1 (ap (λ x. x.0) (sym e1) ∙ h) in
      let (h3, e3) = seq_ok promote1 flip2 w2 (ap (λ x. x.0) (sym (e1 ∙ e2)) ∙ h) in
      let e = e1 ∙ e2 ∙ e3 in
      (
        h1,
        wrap_ok "promote target: %w" (promote p new_cli new_ref) w2 h3,
        wrap_ok "flip target service to local: %w"
            (flip_cilium_service p new_cli new_ref role_local) w3 (ap (λ x. x.0) (sym e) ∙ h),
        ap (λ x. x.1) e,
      )

  turned :
      (server old_cli ≢ server new_cli) ⊎ (old_ref ≢ new_ref)
      → (server new_cli ≢ server old_cli) ⊎ (new_ref ≢ old_ref)
  turned (inl n) = inl (λ e. n (sym e))
  turned (inr n) = inr (λ e. n (sym e))

  -- The cluster of the old primary is not touched after its fence.
  pub old_cluster_kept :
      (server old_cli ≢ server new_cli) ⊎ (old_ref ≢ new_ref)
      → p.get cnpg_cluster old_cli old_ref w4 ≡ p.get cnpg_cluster old_cli old_ref w1
  old_cluster_kept apart =
      flip-Untouched p server ol sl new_cli new_ref w3 role_local cnpg_cluster old_cli old_ref
        (inl (λ e. cc))
      ∙ promote-Untouched p server ol sl new_cli new_ref w2 cnpg_cluster old_cli old_ref
          (inr (turned apart))
      ∙ flip-Untouched p server ol sl old_cli old_ref w1 role_remote cnpg_cluster old_cli old_ref
          (inl (λ e. cc))

  fence_end :
      (server old_cli ≢ server new_cli) ⊎ (old_ref ≢ new_ref)
      → tolerated "fence old primary: %w" (fence p old_cli old_ref w).0 ≡ ok tt
      → FenceEnd w4
  fence_end apart f = elim (tolerated_ok "fence old primary: %w" (fence p old_cli old_ref w).0 f) [
    | inl h ↦
        let (o, g, a) = fence-IsFenced p server ol sl old_cli old_ref w h in
        inl (o, old_cluster_kept apart ∙ g, a)
    | inr h ↦ inr h
  ]

  primary_end : (promote p new_cli new_ref w2).0 ≡ ok tt → HasPrimary p true new_cli new_ref w4
  primary_end m =
      subst (λ h. (h.reachable ≡ true) × (h.primary ≡ true))
        (sym (
          probe_kept p new_cli new_ref w4 w3 (
            flip-Untouched p server ol sl new_cli new_ref w3 role_local cnpg_cluster new_cli new_ref
              (inl (λ e. cc)))))
        (promote-HasPrimary p server ol sl new_cli new_ref w2 m)

  -- Where the cluster of the old primary is not that of the new site, a promotion that succeeds has
  -- fenced the old primary, or its fence met a NotFound; the probe of the new site finds a primary;
  -- and the Service of the new site has the local role.
  pub promotion_steps_done :
      (server old_cli ≢ server new_cli) ⊎ (old_ref ≢ new_ref)
      → (promotion_steps p old_cli old_ref new_cli new_ref w).0 ≡ ok tt
      → FenceEnd after
        × HasPrimary p true new_cli new_ref after
        × HasRole p new_cli new_ref role_local after
  promotion_steps_done apart h =
      let (f, m, s, e) = passed h in
      subst
        (λ v.
          FenceEnd v × HasPrimary p true new_cli new_ref v × HasRole p new_cli new_ref role_local v)
        (sym e)
        (
          fence_end apart f,
          primary_end m,
          flip-HasRole p server ol sl new_cli new_ref w3 role_local s,
        )
