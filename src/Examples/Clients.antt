-- ===== src/Examples/Clients.antt =====
-- The cache of clients, its keys, and LSNs.
use cnpg_ha.Base.Int.{pos}
use cnpg_ha.Platform.{WalRow, itoa, named}
use cnpg_ha.Postgres.{Config}
use cnpg_ha.Postgres.Probe.{normalize_host_port}
use cnpg_ha.Postgres.Endpoint.{normalize-join_host_port}
use cnpg_ha.Sim.{SimWorld}
use cnpg_ha.Base.Exec.{ok}
use cnpg_ha.Base.{
  [], ◌∷◌, true, none, some, ℕ, String, ◌≡◌, ◌⊎◌, refl, lookup, ◌<◌, ◌↔◌, ◌*◌, ◌+◌, ◌^◌,
}
use cnpg_ha.Remote.{
  load_kubeconfig, kubeconfig_of, client_from_kubeconfig, get_or_create, new_cache,
}
use cnpg_ha.Remote.Repeats.{get_or_create_cached}
use cnpg_ha.Remote.Keys.{cache_key_inj}
use cnpg_ha.Postgres.Lsn.{parse_lsn, hex_from}
use cnpg_ha.Postgres.Lsn.Order.{ReadsAs, parse_lsn_value, parse_lsn_order}
use cnpg_ha.Sim.{sim}
use cnpg_ha.Examples.Sites.{world, east_secret_ref}

abbrev kubeconfig_at : String → String → String
kubeconfig_at key rv = "east"

-- The Secret has another kubeconfig under the resource version of before.
abbrev rewritten : SimWorld
rewritten = record world {
  secrets = λ c r. some (record { content = ("kubeconfig", "west") ∷ []; resource_version = "7" });
}

get_or_create_cached_example :
    let after = (get_or_create sim "hub" "ha" east_secret_ref world (new_cache sim)).1 in
    get_or_create sim "hub" "ha" east_secret_ref rewritten after ≡ (ok "east", after)
unfolding get_or_create load_kubeconfig kubeconfig_of lookup client_from_kubeconfig
get_or_create_cached_example =
    get_or_create_cached sim "hub" "ha" east_secret_ref world rewritten (new_cache sim) "east" "7"
      "east" refl refl refl

abbrev ha_namespace : String
ha_namespace = "ha"

cache_key_inj_example :
    (ha_namespace ≡ ha_namespace)
    × (east_secret_ref.name ≡ east_secret_ref.name)
    × (east_secret_ref.key ≡ east_secret_ref.key)
cache_key_inj_example =
    cache_key_inj ha_namespace ha_namespace east_secret_ref east_secret_ref refl refl refl refl refl

parse_lsn_value_example :
    (high : ℕ) × (low : ℕ) × ReadsAs "1/A" high low × (4294967306 ≡ high * 2 ^ 32 + low)
unfolding parse_lsn hex_from
parse_lsn_value_example = parse_lsn_value "1/A" 4294967306 refl

parse_lsn_order_example :
    (high : ℕ) × (low : ℕ) × (high' : ℕ) × (low' : ℕ) × ReadsAs "0/FF" high low
    × ReadsAs "1/A" high' low'
    × ((255 < 4294967306) ↔ ((high < high') ⊎ ((high ≡ high') × (low < low'))))
unfolding parse_lsn hex_from
parse_lsn_order_example = parse_lsn_order "0/FF" "1/A" 255 4294967306 refl refl

-- A database that has replayed up to 0/FF.
abbrev reading : WalRow
reading = record { in_recovery = true; lsn = "0/FF"; lag = none }

abbrev config : Config
config = record {
  host = "east.example";
  port = pos 0;
  database = "";
  user = "probe";
  password = "secret";
  ssl_mode = "";
}

abbrev with_database : SimWorld
with_database = record world { rows = λ c. some reading }

default_port_test :
    normalize_host_port "east.example" (pos 5432) ≡ ("east.example", itoa (pos 5432))
unfolding normalize_host_port
default_port_test = refl

own_port_test : normalize_host_port "east.example:6432" (pos 5432) ≡ ("east.example", named "6432")
unfolding normalize_host_port
own_port_test = refl

bracket_test : normalize_host_port "[::1]:6432" (pos 5432) ≡ ("::1", named "6432")
unfolding normalize_host_port
bracket_test = refl

ipv6_test : normalize_host_port "::1" (pos 5432) ≡ ("::1", itoa (pos 5432))
unfolding normalize_host_port
ipv6_test = refl

normalize-join_host_port_example :
    normalize_host_port "[fd00::7]:6432" (pos 5432) ≡ ("fd00::7", named "6432")
normalize-join_host_port_example =
    normalize-join_host_port "fd00::7" "6432" (pos 5432) (refl, refl, refl, refl, refl)
