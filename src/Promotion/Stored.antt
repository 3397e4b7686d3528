-- ===== src/Promotion/Stored.antt =====
-- What the four steps share: an update of an object that was read before.
use cnpg_ha.Base.{String, ◌≡◌, subst, inl, inr, arith}
use cnpg_ha.Base.Message.{Args, wrapf}
use cnpg_ha.Base.Exec.{ok, wrap, Result-cases}
use cnpg_ha.Platform.{Platform, Ref, Kind}
use cnpg_ha.Platform.Laws.{Alike, ServerLaws, Untouched}
use cnpg_ha.Promotion.{store}
use cnpg_ha.Promotion.Outcome.{Outcome, failed, wrote}

module _ (p : Platform) (server : p.Client → String) (sl : ServerLaws p server) (cli : p.Client)
    (w : p.World) where
  open p use {World, Object}

  -- The second world holds an object that reads as `u`, and all else as the first one.
  abbrev pub Stored : Kind → Ref → Object → World → Type 0
  Stored k r u v =
      (o : Object) × (p.get k cli r v ≡ ok o) × Alike p u o × Untouched p server k cli r w v

  pub store_Outcome :
      (k : Kind) (r : Ref) (u : Object) (f : String) (a : Args)
      → p.key u ≡ r
      → Outcome (wrap f a (store p k cli u)) w ⊥ (Stored k r u)
  store_Outcome k r u f a at = elim (Result-cases (p.update k cli u w).0) [
    | inl (o, h) ↦
        let v = (p.update k cli u w).1 in
        wrote v (ground arith) (
          o,
          subst (λ x. p.get k cli x v ≡ ok o) at (sl.get-update k cli u o w h),
          sl.update-Alike k cli u o w h,
          subst (λ x. Untouched p server k cli x w v) at (sl.get-update_other k cli u w),
        )
    | inr (e, h) ↦ failed (wrapf f a e) (ground (arith, sl.get-update_refused k cli u w e h))
  ]
