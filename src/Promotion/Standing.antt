-- ===== src/Promotion/Standing.antt =====
-- What Fence and Reconfigure keep of the work of earlier calls, at the same cluster and at others.
use cnpg_ha.Base.{String, ◌≡◌, sym, ◌∙◌, subst, inl, inr, false, ◌==◌}
use cnpg_ha.Base.Exec.{ok}
use cnpg_ha.Platform.{Platform, Ref, cnpg_cluster}
use cnpg_ha.Platform.Places.{text-cases_ne, ref-cases}
use cnpg_ha.Platform.Laws.{ObjectLaws, ServerLaws, Untouched}
use cnpg_ha.Promotion.{fence, reconfigure}
use cnpg_ha.Promotion.Outcome.{Outcome-any}
use cnpg_ha.Promotion.Fencing.{IsFenced, fence_of_IsFenced, fence-Outcome, fence-Untouched}
use cnpg_ha.Promotion.Repointing.{IsFollower, reconfigure_of_IsFollower, reconfigure-Outcome}
use cnpg_ha.Promotion.Following.{reconfigure-Untouched}

module _ (p : Platform) (server : p.Client → String) (ol : ObjectLaws p)
    (sl : ServerLaws p server) where
  open p use {World, Client, Object}

  -- A property of a cluster that is one of the object that is read there.
  abbrev pub IsOfObject : (Client → Ref → World → Type 0) → Type 0
  IsOfObject P =
      (c c' : Client) (r : Ref) (w v : World)
      → p.get cnpg_cluster c' r v ≡ p.get cnpg_cluster c r w
      → P c r w
      → P c' r v

  IsFenced-IsOfObject : IsOfObject (IsFenced p)
  IsFenced-IsOfObject c c' r w v same (o, g, f) = (o, same ∙ g, f)

  IsFollower-IsOfObject : (host : String) → IsOfObject (λ c r w. IsFollower p c r host w)
  IsFollower-IsOfObject host c c' r w v same (o, externals, idx, ext, g, sel, b, h) =
      (o, externals, idx, ext, same ∙ g, sel, b, h)

  -- A step at the cluster of `cli` and `ref` that keeps the property there, and leaves all other
  -- objects alone, keeps it everywhere.
  pub kept_everywhere :
      (P : Client → Ref → World → Type 0)
      → IsOfObject P
      → (cli : Client) (ref : Ref) (w v : World) → Untouched p server cnpg_cluster cli ref w v
      → (P cli ref w → P cli ref v)
      → (c : Client) (at : Ref) → P c at w
      → P c at v
  kept_everywhere P of cli ref w v un here c at h =
      let kept : p.get cnpg_cluster c at v ≡ p.get cnpg_cluster c at w → P c at v =
        λ same. of c c at w v same h in
      elim (text-cases_ne (server cli) (server c)) [
        | inr n ↦ kept (un cnpg_cluster c at (inr (inl n)))
        | inl e ↦ elim (ref-cases ref at) [
          | inr n ↦ kept (un cnpg_cluster c at (inr (inr n)))
          | inl e' ↦
              let there = subst (λ x. P c x w) (sym e') h in
              subst (λ x. P c x v) e'
                (of cli c ref v v (sl.get_server cnpg_cluster c cli ref v (sym e))
                  (here (of c cli ref w w (sl.get_server cnpg_cluster cli c ref w e) there)))
        ]
      ]

  ok_inj : (u o : Object) → ok u ≡ ok o → u ≡ o
  ok_inj u o h = cc

  fence-IsFollower :
      (host : String) (cli : Client) (ref : Ref) (w : World)
      → IsFollower p cli ref host w
      → IsFollower p cli ref host (fence p cli ref w).1
  fence-IsFollower host cli ref w (o, externals, idx, ext, g, sel, b, h) =
      Outcome-any (IsFollower p cli ref host) (o, externals, idx, ext, g, sel, b, h)
        (λ v (u, g', (o', at, _, _, _, (bools, strings, slices))).
          let same = ok_inj u o (sym g' ∙ g) in
          (
            o',
            externals,
            idx,
            ext,
            at,
            record {
              externals_read = rw (slices, same) sel.externals_read;
              nonempty = sel.nonempty;
              index_found = rw (strings, same) sel.index_found;
              object_at = sel.object_at;
            },
            rw (bools, same) b,
            h,
          ))
        (fence-Outcome p server ol sl cli ref w)

  reconfigure-IsFenced :
      (host : String) (cli : Client) (ref : Ref) (w : World)
      → IsFenced p cli ref w
      → IsFenced p cli ref (reconfigure p cli ref host w).1
  reconfigure-IsFenced host cli ref w (o, g, f) =
      Outcome-any (IsFenced p cli ref) (o, g, f)
        (λ v (u, o', externals, idx, ext, g', at, s, sl', so, b, ann, _).
          (o', at, rw (ann, ok_inj u o (sym g' ∙ g)) f))
        (reconfigure-Outcome p server ol sl cli ref host w)

  -- What stands at a cluster in the first world stands there in the second.
  abbrev pub Stands : String → Client → Ref → World → World → Type 0
  Stands host c at w v =
      (IsFollower p c at host w → IsFollower p c at host v)
      × (IsFenced p c at w → IsFenced p c at v)

  pub fence-Stands :
      (host : String) (cli : Client) (ref : Ref) (w : World) (c : Client) (at : Ref)
      → Stands host c at w (fence p cli ref w).1
  fence-Stands host cli ref w c at =
      let un = fence-Untouched p server ol sl cli ref w in
      (
        kept_everywhere (λ c r v. IsFollower p c r host v) (IsFollower-IsOfObject host) cli ref w _
            un (fence-IsFollower host cli ref w) c at,
        kept_everywhere (IsFenced p) IsFenced-IsOfObject cli ref w _ un
            (λ h. subst (λ x. IsFenced p cli ref x.1) (sym (fence_of_IsFenced p cli ref w h)) h) c
            at,
      )

  pub reconfigure-Stands :
      (host : String)
      → (host == "") ≡ false
      → (cli : Client) (ref : Ref) (w : World) (c : Client) (at : Ref)
      → Stands host c at w (reconfigure p cli ref host w).1
  reconfigure-Stands host n cli ref w c at =
      let un = reconfigure-Untouched p server ol sl cli ref host w in
      (
        kept_everywhere (λ c r v. IsFollower p c r host v) (IsFollower-IsOfObject host) cli ref w _
            un
            (λ h.
              subst (λ x. IsFollower p cli ref host x.1)
                (sym (reconfigure_of_IsFollower p cli ref host w n h)) h)
            c at,
        kept_everywhere (IsFenced p) IsFenced-IsOfObject cli ref w _ un
            (reconfigure-IsFenced host cli ref w) c at,
      )
