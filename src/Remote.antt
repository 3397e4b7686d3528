-- ===== src/Remote.antt =====
-- internal/remoteclient/remoteclient.go: the cache of clients for the remote clusters. The mutex
-- makes each lookup, insertion and deletion one step; a call is modelled with no other call of
-- the cache between its steps, as the one reconcile worker makes it.
pub mod Soundness
pub mod Freshness
pub mod Repeats
pub mod Keys
use Prim.Native.String.{◌++◌}
use cnpg_ha.Base.{
  String, Bool, Option, none, some, [], Map, lookup, insert, delete, ◌==◌, if◌then◌else◌,
}
use cnpg_ha.Base.Message.{Err, Args, errorf, wrapf, str, end, arg}
use cnpg_ha.Base.Exec.{Result, ok, err, Exec, wrapped}
use cnpg_ha.Api.{SecretKeySelector}
use cnpg_ha.Platform.{Platform, Ref, Secret}

pub err_secret_key_empty : Err
err_secret_key_empty = errorf "kubeconfig secret key is empty" end

abbrev pub name_args : String → String → Args
name_args namespace name = arg (str namespace) (arg (str name) end)

unfoldable pub cache_key : String → SecretKeySelector → String
cache_key namespace secret_ref = namespace ++ "/" ++ secret_ref.name ++ "#" ++ secret_ref.key

-- The bytes under the key, which must be there and not empty.
unfoldable pub kubeconfig_of :
    String → SecretKeySelector → Secret → Option String → Result (String × String)
kubeconfig_of namespace secret_ref secret none = err (
    wrapf "secret %s/%s key %q: %w"
      (arg (str namespace) (arg (str secret_ref.name) (arg (str secret_ref.key) end)))
      err_secret_key_empty)
kubeconfig_of namespace secret_ref secret (some bytes) =
    if bytes == ""
    then err (
        wrapf "secret %s/%s key %q: %w"
          (arg (str namespace) (arg (str secret_ref.name) (arg (str secret_ref.key) end)))
          err_secret_key_empty)
    else ok (bytes, secret.resource_version)

unfoldable pub kubeconfig_in : String → SecretKeySelector → Result Secret → Result (String × String)
kubeconfig_in namespace secret_ref (err e) =
    err (wrapf "get kubeconfig secret %s/%s: %w" (name_args namespace secret_ref.name) e)
kubeconfig_in namespace secret_ref (ok secret) =
    kubeconfig_of namespace secret_ref secret (lookup secret_ref.key secret.content)

module _ (p : Platform) where
  open p use {World, Client}

  pub record CachedClient : Type 0 where
    pub cli : Client
    pub resource_version : String

  abbrev pub Cache : Type 0
  Cache = Map CachedClient

  abbrev pub new_cache : Cache
  new_cache = []

  unfoldable pub load_kubeconfig :
      Client → String → SecretKeySelector → World → Result (String × String)
  unfolding kubeconfig_in
  load_kubeconfig hub namespace secret_ref w =
      kubeconfig_in namespace secret_ref
        (p.get_secret hub (record { namespace = namespace; name = secret_ref.name }) w)

  unfoldable pub client_of : String → String → Result p.RestConfig → Result Client
  client_of namespace name (err e) =
      err (wrapf "parse kubeconfig from secret %s/%s: %w" (name_args namespace name) e)
  client_of namespace name (ok config) =
      wrapped "build client from kubeconfig %s/%s: %w" (name_args namespace name)
        (p.new_client config)

  unfoldable pub client_from_kubeconfig : String → String → String → Result Client
  unfolding client_of
  client_from_kubeconfig kubeconfig namespace name =
      client_of namespace name (p.rest_config kubeconfig)

  -- Where the Secret cannot be read, a client of before is served.
  unfoldable pub serve_stale : Err → Option CachedClient → Cache → Result Client × Cache
  serve_stale e none cache = (err e, cache)
  serve_stale e (some ent) cache = (ok ent.cli, cache)

  -- The new client goes into the cache, a failure to build one changes nothing.
  unfoldable pub remember : String → String → Result Client → Cache → Result Client × Cache
  remember key rv (err e) cache = (err e, cache)
  remember key rv (ok cli) cache =
      (ok cli, insert key (record { cli = cli; resource_version = rv }) cache)

  -- `built` is what the rebuild returns, if it is made.
  unfoldable pub serve_current :
      String → String → Option CachedClient → Result Client → Cache → Result Client × Cache
  unfolding remember
  serve_current key rv none built cache = remember key rv built cache
  serve_current key rv (some ent) built cache =
      if ent.resource_version == rv then (ok ent.cli, cache) else remember key rv built cache

  unfoldable pub serve :
      String → SecretKeySelector → Result (String × String) → Cache → Result Client × Cache
  unfolding serve_stale serve_current
  serve namespace secret_ref (err e) cache =
      serve_stale e (lookup (cache_key namespace secret_ref) cache) cache
  serve namespace secret_ref (ok (kubeconfig, rv)) cache =
      serve_current (cache_key namespace secret_ref) rv
        (lookup (cache_key namespace secret_ref) cache)
        (client_from_kubeconfig kubeconfig namespace secret_ref.name) cache

  unfoldable pub get_or_create : Client → String → SecretKeySelector → World → Exec Cache Client
  unfolding serve
  get_or_create hub namespace secret_ref w cache =
      serve namespace secret_ref (load_kubeconfig hub namespace secret_ref w) cache

  unfoldable pub invalidate : String → SecretKeySelector → Cache → Cache
  invalidate namespace secret_ref cache = delete (cache_key namespace secret_ref) cache
