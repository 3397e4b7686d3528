-- ===== src/Remote/Repeats.antt =====
-- A call of GetOrCreate after one that returned a client.
use cnpg_ha.Base.{
  String, ◌≡◌, refl, sym, ap, subst, ◌∙◌, inl, inr, Option, none, some, lookup, lookup-insert, ◌==◌,
  eq_refl, eq_iff, arith, Bool-cases,
}
use cnpg_ha.Base.Message.{Err}
use cnpg_ha.Base.Exec.{Result, ok, err}
use cnpg_ha.Api.{SecretKeySelector}
use cnpg_ha.Platform.{Platform}
use cnpg_ha.Remote.{
  CachedClient, Cache, cache_key, load_kubeconfig, serve_stale, serve_current, serve, remember,
  get_or_create,
}

-- The Secret is not read, or is read with the resource version.
abbrev pub IsSameVersion : String → Result (String × String) → Type 0
IsSameVersion rv (err e) = Unit {0}
IsSameVersion rv (ok (kubeconfig, version)) = version ≡ rv

module _ (p : Platform) (hub : p.Client) (namespace : String) (secret_ref : SecretKeySelector) where
  abbrev key : String
  key = cache_key namespace secret_ref

  -- The cache has the client under the key, with the resource version.
  abbrev Holds : String → p.Client → Cache p → Type 0
  Holds rv cli cache = lookup key cache ≡ some (record { cli = cli; resource_version = rv })

  client_of_ok : {x y : p.Client} → ok x ≡ ok y → x ≡ y
  client_of_ok h = cc

  entry :
      (ent : CachedClient p) (rv : String) (cli : p.Client)
      → ent.resource_version ≡ rv
      → ent.cli ≡ cli
      → some ent ≡ some (record { cli = cli; resource_version = rv })
  entry ent rv cli version same = cc

  remembered :
      (rv : String) (r : Result p.Client) (cli : p.Client) (cache : Cache p)
      → (remember p key rv r cache).0 ≡ ok cli
      → Holds rv cli (remember p key rv r cache).1
  unfolding remember
  remembered rv (err e) cli cache h = absurd (ground arith)
  remembered rv (ok x) cli cache h =
      let same : x ≡ cli = ground arith in
      rw (lookup-insert, eq_refl key)
        (ap (λ (c : p.Client). some (record { cli = c; resource_version = rv })) same)

  serve_current-Holds :
      (rv : String) (o : Option (CachedClient p)) (r : Result p.Client) (cli : p.Client)
      (cache : Cache p)
      → lookup key cache ≡ o
      → (serve_current p key rv o r cache).0 ≡ ok cli
      → Holds rv cli (serve_current p key rv o r cache).1
  unfolding serve_current
  serve_current-Holds rv none r cli cache l h = remembered rv r cli cache h
  serve_current-Holds rv (some ent) r cli cache l h =
      elim (Bool-cases (ent.resource_version == rv)) [
        | inl e ↦
            rw e (
              l
              ∙ entry ent rv cli ((eq_iff ent.resource_version rv).0 e) (client_of_ok (rw e at h)))
        | inr n ↦ rw n (remembered rv r cli cache (rw n at h))
      ]

  -- Where the cache holds the client of the resource version, it is served and nothing is built.
  held :
      (kubeconfig rv : String) (cli : p.Client) (cache : Cache p)
      → Holds rv cli cache
      → serve p namespace secret_ref (ok (kubeconfig, rv)) cache ≡ (ok cli, cache)
  unfolding serve serve_current
  held kubeconfig rv cli cache h = rw (h, eq_refl rv) refl

  Holds-after :
      (w : p.World) (cache : Cache p) (kubeconfig rv : String) (cli : p.Client)
      → load_kubeconfig p hub namespace secret_ref w ≡ ok (kubeconfig, rv)
      → (get_or_create p hub namespace secret_ref w cache).0 ≡ ok cli
      → Holds rv cli (get_or_create p hub namespace secret_ref w cache).1
  unfolding get_or_create serve
  Holds-after w cache kubeconfig rv cli a =
      rw a (serve_current-Holds rv (lookup key cache) _ cli cache refl)

  served :
      (rv : String) (cli : p.Client) (cache : Cache p) (later : Result (String × String))
      → Holds rv cli cache
      → IsSameVersion rv later
      → serve p namespace secret_ref later cache ≡ (ok cli, cache)
  unfolding serve serve_stale
  served rv cli cache (err e) h same = rw h refl
  served rv cli cache (ok (kubeconfig, version)) h same =
      subst (λ x. serve p namespace secret_ref (ok (kubeconfig, x)) cache ≡ (ok cli, cache))
        (sym same) (held kubeconfig rv cli cache h)

  -- After a call that returned a client from a readable Secret, a call in any world where the
  -- Secret cannot be read, or is read with the same resource version and whatever kubeconfig,
  -- returns that client and leaves the cache as it is: the client is not built again.
  pub get_or_create_cached :
      (w v : p.World) (cache : Cache p) (kubeconfig rv : String) (cli : p.Client)
      → load_kubeconfig p hub namespace secret_ref w ≡ ok (kubeconfig, rv)
      → (get_or_create p hub namespace secret_ref w cache).0 ≡ ok cli
      → IsSameVersion rv (load_kubeconfig p hub namespace secret_ref v)
      → let after = (get_or_create p hub namespace secret_ref w cache).1 in
        get_or_create p hub namespace secret_ref v after ≡ (ok cli, after)
  unfolding get_or_create
  get_or_create_cached w v cache kubeconfig rv cli a h same =
      served rv cli (get_or_create p hub namespace secret_ref w cache).1
        (load_kubeconfig p hub namespace secret_ref v) (Holds-after w cache kubeconfig rv cli a h)
        same

  -- A call that fails leaves the cache as it was.
  pub get_or_create_error_unchanged :
      (w : p.World) (cache : Cache p) (e : Err)
      → (get_or_create p hub namespace secret_ref w cache).0 ≡ err e
      → (get_or_create p hub namespace secret_ref w cache).1 ≡ cache
  unfolding get_or_create
  get_or_create_error_unchanged w cache e h = ground arith
