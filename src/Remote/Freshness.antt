-- ===== src/Remote/Freshness.antt =====
-- GetOrCreate against the kubeconfig that its Secret holds.
use cnpg_ha.Base.{String, ◌≡◌, refl, subst, lookup}
use cnpg_ha.Base.Exec.{Result, ok, err}
use cnpg_ha.Api.{SecretKeySelector}
use cnpg_ha.Platform.{Platform}
use cnpg_ha.Remote.{
  Cache, new_cache, cache_key, load_kubeconfig, client_from_kubeconfig, serve, get_or_create,
  invalidate,
}
use cnpg_ha.Remote.Soundness.{
  IsSound, serve_stale_cache, delete-IsSound, serve_current-IsSound, serve_current_result,
}

module _ (p : Platform) (content : String → String → String) (hub : p.Client) where
  open p use {World}

  -- In this world each readable Secret holds the kubeconfig of its resource version.
  abbrev pub IsLabelled : World → Type 0
  IsLabelled w =
      (namespace : String) (secret_ref : SecretKeySelector) (kubeconfig rv : String)
      → load_kubeconfig p hub namespace secret_ref w ≡ ok (kubeconfig, rv)
      → content (cache_key namespace secret_ref) rv ≡ kubeconfig

  -- The caches that calls make from the empty one, in whatever worlds.
  pub data Reached : Cache p → Type 0 where
    start : Reached (new_cache p)
    call :
        {c : Cache p} (namespace : String) (secret_ref : SecretKeySelector) (w : World)
        → IsLabelled w
        → Reached c
        → Reached (get_or_create p hub namespace secret_ref w c).1
    drop :
        {c : Cache p} (namespace : String) (secret_ref : SecretKeySelector)
        → Reached c
        → Reached (invalidate p namespace secret_ref c)

  serve-IsSound :
      (namespace : String) (secret_ref : SecretKeySelector) (r : Result (String × String))
      (c : Cache p)
      → ((kubeconfig rv : String)
          → r ≡ ok (kubeconfig, rv)
          → content (cache_key namespace secret_ref) rv ≡ kubeconfig)
      → IsSound p content c
      → IsSound p content (serve p namespace secret_ref r c).1
  unfolding serve
  serve-IsSound namespace secret_ref (err e) c l s =
      subst (IsSound p content)
        (serve_stale_cache p e (lookup (cache_key namespace secret_ref) c) c) s
  serve-IsSound namespace secret_ref (ok (kubeconfig, rv)) c l s =
      serve_current-IsSound p content namespace secret_ref c s kubeconfig rv (l kubeconfig rv refl)
        (lookup (cache_key namespace secret_ref) c)

  Reached-IsSound : {c : Cache p} → Reached c → IsSound p content c
  unfolding get_or_create invalidate lookup
  Reached-IsSound start = λ k ent h. cc
  Reached-IsSound (call namespace secret_ref w l r) =
      serve-IsSound namespace secret_ref (load_kubeconfig p hub namespace secret_ref w) _
        (l namespace secret_ref) (Reached-IsSound r)
  Reached-IsSound (drop namespace secret_ref r) =
      delete-IsSound p content _ (cache_key namespace secret_ref) (Reached-IsSound r)

  -- From a cache that any calls of GetOrCreate and Invalidate have made, with a readable Secret,
  -- whose kubeconfig is the one of its resource version, GetOrCreate returns the client, or the
  -- error, that a build from that kubeconfig returns.
  pub get_or_create-current :
      (c : Cache p) (namespace : String) (secret_ref : SecretKeySelector) (w : World)
      (kubeconfig rv : String)
      → Reached c
      → content (cache_key namespace secret_ref) rv ≡ kubeconfig
      → load_kubeconfig p hub namespace secret_ref w ≡ ok (kubeconfig, rv)
      → (get_or_create p hub namespace secret_ref w c).0
        ≡ client_from_kubeconfig p kubeconfig namespace secret_ref.name
  unfolding get_or_create
  get_or_create-current c namespace secret_ref w kubeconfig rv r same l = rw l (
      serve_current_result p content namespace secret_ref c (Reached-IsSound r) kubeconfig rv same
        (lookup (cache_key namespace secret_ref) c) refl)
