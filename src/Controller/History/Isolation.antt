-- ===== src/Controller/History/Isolation.antt =====
-- What a reconcile of one HACluster leaves alone.
use cnpg_ha.Base.{List, [], ◌∷◌, ◌++◌, ◌≡◌, refl, sym, ap, ◌∙◌, subst, inl, inr, false, Bool-cases}
use mathlib.Core.List.{append-nil, append_assoc}
use cnpg_ha.Base.Message.{is_not_found}
use cnpg_ha.Base.Exec.{Result, ok, err}
use cnpg_ha.Api.{HaCluster}
use cnpg_ha.Platform.{Platform, Ref}
use cnpg_ha.Platform.Laws.{HubLaws}
use cnpg_ha.Controller.State.{Reconciler, State, same_ref, ha_key, bumped, forgotten, FailCount}
use cnpg_ha.Controller.Frame.{SiteFrame, Frame, WholeFrame, site_promotion, site_pass}
use cnpg_ha.Controller.Frame.Whole.{reconcile_ha-Moves}
use cnpg_ha.Controller.Reconcile.{Memory, reconcile, reconcile_got, with_ha}

-- The second list is the first with elements added at its end.
abbrev pub Extends : {A : Type 0} → List A → List A → Type 0
Extends {A} xs ys = (zs : List A) × (ys ≡ xs ++ zs)

module _ {A : Type 0} where
  Extends-refl : (xs : List A) → Extends xs xs
  Extends-refl xs = ([], sym (append-nil xs))

  Extends-trans : (xs ys zs : List A) → Extends xs ys → Extends ys zs → Extends xs zs
  Extends-trans xs ys zs (us, e) (vs, g) =
      (us ++ vs, g ∙ ap (λ l. l ++ vs) e ∙ append_assoc xs us vs)

-- The counters of all other keys are the same.
abbrev pub SameOthers : Ref → FailCount → FailCount → Type 0
SameOthers key c d = (k : Ref) → same_ref key k ≡ false → d k ≡ c k

bumped-SameOthers : (key : Ref) (c : FailCount) → SameOthers key c (bumped key c)
unfolding bumped
bumped-SameOthers key c k n = rw n refl

forgotten-SameOthers : (key : Ref) (c : FailCount) → SameOthers key c (forgotten key c)
unfolding forgotten
forgotten-SameOthers key c k n = rw n refl

module _ (p : Platform) (r : Reconciler p) where
  -- What a reconcile of the HACluster with the key leaves alone.
  abbrev pub Isolated : Ref → Memory p r → Memory p r → Type 0
  Isolated key m n =
      SameOthers key m.fail_count n.fail_count
      × Extends m.events n.events
      × Extends m.metrics n.metrics

module _ (p : Platform) (r : Reconciler p) (laws : HubLaws p) where
  -- The HACluster keeps its namespace and name, the other counters stay, the logs only grow.
  abbrev IsLocal : State p → State p → Type 0
  IsLocal s t =
      (ha_key t.ha ≡ ha_key s.ha)
      × SameOthers (ha_key s.ha) s.fail_count t.fail_count
      × Extends s.events t.events
      × Extends s.metrics t.metrics

  local_refl : (s : State p) → IsLocal s s
  local_refl s = (refl, λ k n. refl, Extends-refl s.events, Extends-refl s.metrics)

  local_trans : (s t u : State p) → IsLocal s t → IsLocal t u → IsLocal s u
  local_trans s t u (key, others, events, metrics) (key', others', events', metrics') = (
    key' ∙ key,
    λ k n. others' k (ap (λ x. same_ref x k) key ∙ n) ∙ others k n,
    Extends-trans _ _ _ events events',
    Extends-trans _ _ _ metrics metrics',
  )

  -- An answer of the server, which names the same HACluster.
  answered :
      (ha : HaCluster) (s : State p)
      → (ha.namespace ≡ s.ha.namespace) × (ha.name ≡ s.ha.name)
      → IsLocal s (record s { ha = ha })
  answered ha s (e, g) = (
    λ i. record { namespace = e i; name = g i },
    λ k n. refl,
    Extends-refl s.events,
    Extends-refl s.metrics,
  )

  instance abbrev local_sites : SiteFrame p r IsLocal
  local_sites = record {
    clients = record {
      order = record { stay = local_refl; chain = local_trans };
      served = λ namespace secret_ref s. local_refl s;
      evented = λ e s. (refl, λ k n. refl, (e ∷ [], refl), Extends-refl s.metrics);
    };
    wrote = λ k c o s. local_refl s;
  }

  instance abbrev local_frame : Frame p r IsLocal
  local_frame = record {
    promotions = site_promotion p r IsLocal;
    published = λ calls s. (refl, λ k n. refl, Extends-refl s.events, (calls, refl));
    stated = λ st s. local_refl s;
    failed_once = λ s. (
      refl,
      bumped-SameOthers (ha_key s.ha) s.fail_count,
      Extends-refl s.events,
      Extends-refl s.metrics,
    );
    healed = λ s. (
      refl,
      forgotten-SameOthers (ha_key s.ha) s.fail_count,
      Extends-refl s.events,
      Extends-refl s.metrics,
    );
    annotated = λ s ha e. answered ha s (laws.key-remove_annotation _ s.ha ha s.world e);
    annotation_refused = λ s e g. local_refl s;
    status_stored = λ s ha e. answered ha s (laws.key-update_status s.ha ha s.world e);
    status_refused = λ s e g. local_refl s;
  }

  instance abbrev local_whole : WholeFrame p r IsLocal
  local_whole = record { handlers = local_frame; passes = site_pass p r IsLocal }

  got-Isolated :
      (req : Ref) (x : Result HaCluster) (m : Memory p r)
      → p.get_ha req m.world ≡ x
      → Isolated p r req m (reconcile_got p r x m).1
  unfolding reconcile_got
  got-Isolated req (err e) m g = elim (Bool-cases (is_not_found e)) [
    | inl n ↦ rw n (λ k n. refl, Extends-refl m.events, Extends-refl m.metrics)
    | inr n ↦ rw n (λ k n. refl, Extends-refl m.events, Extends-refl m.metrics)
  ]
  got-Isolated req (ok ha) m g =
      let (same, name) = laws.key-get_ha req m.world ha g in
      let at : ha_key ha ≡ req = λ i. record { namespace = same i; name = name i } in
      let (_, others, events, metrics) = (reconcile_ha-Moves p r IsLocal).at (with_ha p r ha m) in
      (
        subst (λ key. SameOthers key m.fail_count (reconcile_got p r (ok ha) m).1.fail_count) at
            others,
        events,
        metrics,
      )

  -- A reconcile leaves the failure counters of all other HAClusters as they were, and adds to the
  -- events and the metrics only at their end.
  pub reconcile-Isolated : (req : Ref) (m : Memory p r) → Isolated p r req m (reconcile p r req m).1
  unfolding reconcile
  reconcile-Isolated req m = got-Isolated req (p.get_ha req m.world) m refl
