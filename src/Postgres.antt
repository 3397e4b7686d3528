-- ===== src/Postgres.antt =====
-- internal/postgres/probe.go: the probe of the WAL location.
pub mod Lsn
pub mod Probe
pub mod Endpoint
pub mod Reading
use cnpg_ha.Base.{ℕ, String, Bool, Option}
use cnpg_ha.Base.Int.{ℤ}
use cnpg_ha.Api.{Float64}

pub record Config : Type 0 where
  pub host : String
  pub port : ℤ
  pub database : String
  pub user : String
  pub password : String
  pub ssl_mode : String

pub record ProbeResult : Type 0 where
  pub in_recovery : Bool
  pub lsn : String
  pub lsn_value : ℕ
  pub lag_seconds : Option Float64
