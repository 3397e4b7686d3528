-- ===== src/Controller/History/Currency.antt =====
-- The clients of the sites over the history of an operator.
use cnpg_ha.Base.{String, ◌≡◌, sym, inl, inr, Bool-cases}
use cnpg_ha.Base.Message.{is_not_found}
use cnpg_ha.Base.Exec.{Result, ok, err}
use cnpg_ha.Api.{HaCluster, SecretKeySelector}
use cnpg_ha.Platform.{Platform, Ref}
use cnpg_ha.Platform.Laws.{SecretLaws}
use cnpg_ha.Remote.{load_kubeconfig, client_from_kubeconfig, get_or_create}
use cnpg_ha.Remote.Freshness.{IsLabelled, Reached, start, call, get_or_create-current}
use cnpg_ha.Controller.State.{Reconciler, State}
use cnpg_ha.Controller.Frame.{SiteFrame, Frame, WholeFrame, site_promotion, site_pass}
use cnpg_ha.Controller.Frame.Whole.{reconcile_ha-Moves}
use cnpg_ha.Controller.Reconcile.{Memory, reconcile, reconcile_got, with_ha}
use cnpg_ha.Controller.History.{
  set_up, Turn, outside, reconciled, restarted, History, begun, turned,
}

module _ (p : Platform) (content : String → String → String) (r : Reconciler p)
    (laws : SecretLaws p) where
  open p use {World, Client}

  abbrev Labelled : World → Type 0
  Labelled = IsLabelled p content r.client

  Labelled-kept :
      (w v : World)
      → ((c : Client) (ref : Ref) → p.get_secret c ref v ≡ p.get_secret c ref w)
      → Labelled w
      → Labelled v
  unfolding load_kubeconfig
  Labelled-kept w v same l namespace secret_ref kubeconfig rv h =
      l namespace secret_ref kubeconfig rv
        (rw (sym (same r.client (record { namespace = namespace; name = secret_ref.name }))) h)

  -- The world labels its Secrets, and the cache is one that calls have made.
  abbrev IsCurrent : State p → Type 0
  IsCurrent s = Labelled s.world × Reached p content r.client s.cache

  abbrev Preserves : State p → State p → Type 0
  Preserves s t = IsCurrent s → IsCurrent t

  instance abbrev preserves_sites : SiteFrame p r Preserves
  preserves_sites = record {
    clients = record {
      order = record { stay = λ s h. h; chain = λ s t u a b h. b (a h) };
      served = λ namespace secret_ref s (l, h). (l, call namespace secret_ref s.world l h);
      evented = λ e s h. h;
    };
    wrote = λ k c o s (l, h).
        (Labelled-kept _ _ (λ c' ref. laws.secret-update k c c' o ref s.world) l, h);
  }

  instance abbrev preserves_frame : Frame p r Preserves
  preserves_frame = record {
    promotions = site_promotion p r Preserves;
    published = λ calls s h. h;
    stated = λ st s h. h;
    failed_once = λ s h. h;
    healed = λ s h. h;
    annotated = λ s ha e (l, h).
        (Labelled-kept _ _ (λ c ref. laws.secret-remove_annotation _ s.ha c ref s.world) l, h);
    annotation_refused = λ s e g (l, h).
        (Labelled-kept _ _ (λ c ref. laws.secret-remove_annotation _ s.ha c ref s.world) l, h);
    status_stored = λ s ha e (l, h).
        (Labelled-kept _ _ (λ c ref. laws.secret-update_status s.ha c ref s.world) l, h);
    status_refused = λ s e g (l, h).
        (Labelled-kept _ _ (λ c ref. laws.secret-update_status s.ha c ref s.world) l, h);
  }

  instance abbrev preserves_whole : WholeFrame p r Preserves
  preserves_whole = record { handlers = preserves_frame; passes = site_pass p r Preserves }

  abbrev Holds : Memory p r → Type 0
  Holds m = Labelled m.world × Reached p content r.client m.cache

  reconcile_got-Holds :
      (x : Result HaCluster) (m : Memory p r) → Holds m → Holds (reconcile_got p r x m).1
  unfolding reconcile_got
  reconcile_got-Holds (err e) m h = elim (Bool-cases (is_not_found e)) [
    | inl n ↦ rw n h
    | inr n ↦ rw n h
  ]
  reconcile_got-Holds (ok ha) m h = (reconcile_ha-Moves p r Preserves).at (with_ha p r ha m) h

  turn-Holds : {m n : Memory p r} → Turn p r Labelled m n → Holds m → Holds n
  unfolding reconcile set_up
  turn-Holds (outside m w l) (_, h) = (l, h)
  turn-Holds (reconciled m req) h = reconcile_got-Holds (p.get_ha req m.world) m h
  turn-Holds (restarted m) (l, _) = (l, start)

  History-Holds : {w : World} {m : Memory p r} → Labelled w → History p r Labelled w m → Holds m
  unfolding set_up
  History-Holds l begun = (l, start)
  History-Holds l (turned h t) = turn-Holds t (History-Holds l h)

  -- After any reconciles, restarts and outside changes, where in all worlds from outside a readable
  -- Secret holds the kubeconfig of its resource version, the operator gets for a readable Secret the
  -- client, or the error, that a build from the kubeconfig that it holds now returns.
  pub History-current :
      (w : World) (m : Memory p r) (namespace : String) (secret_ref : SecretKeySelector)
      (kubeconfig rv : String)
      → IsLabelled p content r.client w
      → History p r (IsLabelled p content r.client) w m
      → load_kubeconfig p r.client namespace secret_ref m.world ≡ ok (kubeconfig, rv)
      → (get_or_create p r.client namespace secret_ref m.world m.cache).0
        ≡ client_from_kubeconfig p kubeconfig namespace secret_ref.name
  History-current w m namespace secret_ref kubeconfig rv l h e =
      let (labelled, reached) = History-Holds l h in
      get_or_create-current p content r.client m.cache namespace secret_ref m.world kubeconfig rv
        reached (labelled namespace secret_ref kubeconfig rv e) e
