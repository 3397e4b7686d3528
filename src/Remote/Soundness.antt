-- ===== src/Remote/Soundness.antt =====
-- A cache whose clients are those that the kubeconfigs of their resource versions build.
use cnpg_ha.Base.{
  String, ◌≡◌, refl, sym, ap, subst, ◌∙◌, inl, inr, true, Option, none, some, lookup, insert,
  delete, lookup-insert, lookup-delete, ◌==◌, eq_iff, arith, text-cases, Bool-cases,
}
use mathlib.Core.Path.{subst₂}
use cnpg_ha.Base.Message.{Err}
use cnpg_ha.Base.Exec.{Result, ok, err, Result-cases}
use cnpg_ha.Api.{SecretKeySelector}
use cnpg_ha.Platform.{Platform}
use cnpg_ha.Remote.{
  CachedClient, Cache, cache_key, client_from_kubeconfig, serve_stale, serve_current, remember,
}

pub serve_stale_cache :
    (p : Platform) (e : Err) (o : Option (CachedClient p)) (c : Cache p)
    → c ≡ (serve_stale p e o c).1
unfolding serve_stale
serve_stale_cache p e none c = refl
serve_stale_cache p e (some ent) c = refl

module _ (p : Platform) where
  open p use {World, Client}

  -- The client is one that the kubeconfig builds.
  abbrev pub IsBuiltFrom : String → Client → Type 0
  IsBuiltFrom kubeconfig cli =
      (config : p.RestConfig) × (p.rest_config kubeconfig ≡ ok config)
      × (p.new_client config ≡ ok cli)

  -- `content` gives the kubeconfig that stood under a cache key at a resource version.
  abbrev pub IsSound : (content : String → String → String) → Cache p → Type 0
  IsSound content cache =
      (k : String) (ent : CachedClient p)
      → lookup k cache ≡ some ent
      → IsBuiltFrom (content k ent.resource_version) ent.cli

  built :
      (kubeconfig namespace name : String) (cli : Client)
      → client_from_kubeconfig p kubeconfig namespace name ≡ ok cli
      → IsBuiltFrom kubeconfig cli
  unfolding client_from_kubeconfig
  built kubeconfig namespace name cli h = elim (Result-cases (p.rest_config kubeconfig)) [
    | inl (config, e) ↦ (config, e, ground arith)
    | inr (x, e) ↦ absurd (ground arith)
  ]

  built_back :
      (kubeconfig namespace name : String) (cli : Client)
      → IsBuiltFrom kubeconfig cli
      → client_from_kubeconfig p kubeconfig namespace name ≡ ok cli
  unfolding client_from_kubeconfig
  built_back kubeconfig namespace name cli (config, e, n) = rw (e, n)

  insert-IsSound :
      (content : String → String → String) (cache : Cache p) (key rv : String) (cli : Client)
      → IsSound content cache
      → IsBuiltFrom (content key rv) cli
      → IsSound content (insert key (record { cli = cli; resource_version = rv }) cache)
  insert-IsSound content cache key rv cli s b k ent h = elim (text-cases key k) [
    | inl same ↦
        let e : ent ≡ record { cli = cli; resource_version = rv } = ground (
          arith,
          lookup-insert key k (record { cli = cli; resource_version = rv }) cache,
          eq_iff key k,
        ) in
        subst₂ (λ j x. IsBuiltFrom (content j x.resource_version) x.cli) same (sym e) b
    | inr other ↦
        s k ent
          (ground (arith, lookup-insert key k (record { cli = cli; resource_version = rv }) cache))
  ]

  pub delete-IsSound :
      (content : String → String → String) (cache : Cache p) (key : String)
      → IsSound content cache
      → IsSound content (delete key cache)
  delete-IsSound content cache key s k ent h = s k ent (ground (arith, lookup-delete key k cache))

-- serve_current is transparent, and keeps the cache sound, where the rebuild is one from the
-- kubeconfig of the resource version.
module _ (p : Platform) (content : String → String → String) (namespace : String)
    (secret_ref : SecretKeySelector) (cache : Cache p) (sound : IsSound p content cache)
    (kubeconfig rv : String) (c : content (cache_key namespace secret_ref) rv ≡ kubeconfig) where
  abbrev key : String
  key = cache_key namespace secret_ref

  abbrev rebuilt : Result p.Client
  rebuilt = client_from_kubeconfig p kubeconfig namespace secret_ref.name

  cached_client :
      (ent : CachedClient p)
      → lookup key cache ≡ some ent
      → (ent.resource_version == rv) ≡ true
      → rebuilt ≡ ok ent.cli
  cached_client ent l e =
      let same : content key ent.resource_version ≡ kubeconfig =
        ap (content key) ((eq_iff _ _).0 e) ∙ c in
      built_back p kubeconfig namespace secret_ref.name ent.cli
        (subst (λ x. IsBuiltFrom p x ent.cli) same (sound key ent l))

  remember_result : (r : Result p.Client) → (remember p key rv r cache).0 ≡ r
  unfolding remember
  remember_result r = ground arith

  pub serve_current_result :
      (o : Option (CachedClient p))
      → lookup key cache ≡ o
      → (serve_current p key rv o rebuilt cache).0 ≡ rebuilt
  unfolding serve_current
  serve_current_result none l = remember_result rebuilt
  serve_current_result (some ent) l = elim (Bool-cases (ent.resource_version == rv)) [
    | inl e ↦ rw e (sym (cached_client ent l e))
    | inr n ↦ rw n (remember_result rebuilt)
  ]

  remember-IsSound :
      (r : Result p.Client) → rebuilt ≡ r → IsSound p content (remember p key rv r cache).1
  unfolding remember
  remember-IsSound (err e) h = sound
  remember-IsSound (ok cli) h = insert-IsSound p content cache key rv cli sound (
      subst (λ x. IsBuiltFrom p x cli) (sym c) (built p kubeconfig namespace secret_ref.name cli h))

  pub serve_current-IsSound :
      (o : Option (CachedClient p)) → IsSound p content (serve_current p key rv o rebuilt cache).1
  unfolding serve_current
  serve_current-IsSound none = remember-IsSound rebuilt refl
  serve_current-IsSound (some ent) = elim (Bool-cases (ent.resource_version == rv)) [
    | inl e ↦ rw e sound
    | inr n ↦ rw n (remember-IsSound rebuilt refl)
  ]
