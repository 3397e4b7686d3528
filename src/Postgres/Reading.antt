-- ===== src/Postgres/Reading.antt =====
-- What a probe that succeeds has read, and where.
use cnpg_ha.Base.{ℕ, String, ◌≡◌, ◌⊎◌, false, has_code, ◌==◌}
use cnpg_ha.Base.Int.{pos}
use cnpg_ha.Base.Exec.{ok}
use cnpg_ha.Platform.{Platform, named, itoa, ConnUrl, WalRow}
use cnpg_ha.Postgres.{Config, ProbeResult}
use cnpg_ha.Postgres.Lsn.{parse_lsn}
use cnpg_ha.Postgres.Endpoint.{IsPlain, join_host_port}

-- The text is the configured one, or the default where none is configured.
abbrev pub IsConfigured : String → String → String → Type 0
IsConfigured configured default t =
    ((configured ≡ "") × (t ≡ default)) ⊎ (((configured == "") ≡ false) × (t ≡ configured))

-- The host is a name or an IPv4 address without a port.
abbrev pub IsBare : String → Type 0
IsBare host = (has_code b':' host ≡ false) × (has_code b'[' host ≡ false)

-- The URL of the configured database: the credentials, the database and the SSL mode of the
-- configuration, and its endpoint. A bare host goes with the configured port, 5432 where that is 0;
-- a host that already carries its port goes with that one.
pub record IsEndpoint (cfg : Config) (url : ConnUrl) : Type 0 where
  pub user_given : url.user ≡ cfg.user
  pub password_given : url.password ≡ cfg.password
  pub database_given : IsConfigured cfg.database "postgres" url.path
  pub ssl_given : IsConfigured cfg.ssl_mode "require" url.ssl_mode
  pub bare_host : IsBare cfg.host → url.host ≡ cfg.host
  pub bare_port : IsBare cfg.host → (cfg.port ≡ pos 0 → ⊥) → url.port ≡ itoa cfg.port
  pub default_used : IsBare cfg.host → cfg.port ≡ pos 0 → url.port ≡ itoa (pos 5432)
  pub own_port :
      (host port : String)
      → IsPlain host port
      → cfg.host ≡ join_host_port host port
      → (url.host ≡ host) × (url.port ≡ named port)

module _ (p : Platform) where
  open p use {World}

  -- The row that the probe read at the configured endpoint, and what it made of it.
  abbrev pub IsReading : Config → World → ProbeResult → Type 0
  IsReading cfg w got =
      (url : ConnUrl) × (conn : ℕ) × (row : WalRow) × IsEndpoint cfg url
      × (p.connect url w ≡ ok conn)
      × (p.query_wal conn w ≡ ok row)
      × (parse_lsn row.lsn ≡ ok got.lsn_value)
      × (got.in_recovery ≡ row.in_recovery)
      × (got.lsn ≡ row.lsn)
      × (got.lag_seconds ≡ row.lag)
