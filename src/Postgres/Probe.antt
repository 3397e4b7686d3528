-- ===== src/Postgres/Probe.antt =====
-- SQLProber.Probe and the connection URL, with net.SplitHostPort and strings.Cut as it uses them.
use Prim.Native.Char.{code}
use cnpg_ha.Base.{
  ℕ, zero, suc, String, Bool, true, false, not, ◌||◌, ◌&&◌, Option, none, some, has_code, nat_eq,
  ◌==◌, if◌then◌else◌,
}
use cnpg_ha.Base.Int.{ℤ, pos, negsuc}
use cnpg_ha.Base.Message.{wrapf, str, end, arg}
use cnpg_ha.Base.Exec.{Result, ok, err}
use cnpg_ha.Platform.{Platform, Port, named, itoa, ConnUrl, WalRow}
use cnpg_ha.Postgres.{Config, ProbeResult}
use cnpg_ha.Postgres.Lsn.{parse_lsn}

abbrev pub default_port : ℤ
default_port = pos 5432

abbrev pub default_database : String
default_database = "postgres"

abbrev pub default_ssl_mode : String
default_ssl_mode = "require"

-- A text cut at the first character with the code, which neither part keeps.
unfoldable pub cut_at : ℕ → String → Option (String × String)
cut_at n String.[] = none
cut_at n (String.◌∷◌ c s) =
    let rest = cut_at n s in
    if nat_eq (code c) n
    then some (String.[], s)
    else elim rest [ none ↦ none | some (a, b) ↦ some (String.◌∷◌ c a, b) ]

abbrev pub HostPort : Type 0
HostPort = String × String

-- SplitHostPort of a text with no bracket in front: one colon, and no bracket.
abbrev pub plain_parts : String → Option HostPort → Option HostPort
plain_parts s none = none
plain_parts s (some (host, port)) =
    if has_code b':' port || (has_code b'[' s || has_code b']' s) then none else some (host, port)

-- What may follow the closing bracket: a colon and the port, with no colon and no bracket.
abbrev pub after_bracket : String → String → Option HostPort
after_bracket host String.[] = none
after_bracket host (String.◌∷◌ c port) =
    if nat_eq (code c) b':'
      && not (has_code b':' port || (has_code b'[' port || has_code b']' port))
    then some (host, port)
    else none

abbrev pub bracketed : Option HostPort → Option HostPort
bracketed none = none
bracketed (some (host, rest)) = if has_code b'[' host then none else after_bracket host rest

-- net.SplitHostPort, whose error the program drops.
unfoldable pub split_host_port : String → Option HostPort
unfolding cut_at
split_host_port String.[] = none
split_host_port (String.◌∷◌ c s) =
    if nat_eq (code c) b'['
    then bracketed (cut_at b']' s)
    else plain_parts (String.◌∷◌ c s) (cut_at b':' (String.◌∷◌ c s))

-- The second attempt of normalizeHostPort, and the end of it.
abbrev pub host_and_port : String → ℤ → Option HostPort → String × Port
host_and_port host port none = (host, itoa port)
host_and_port host port (some (h, p)) =
    if not (h == "") && (not (p == "") && not (has_code b':' p))
    then (h, named p)
    else (host, itoa port)

abbrev pub or_cut : String → ℤ → Option HostPort → Option HostPort → String × Port
or_cut host port (some (h, p)) _ = (h, named p)
or_cut host port none cut = host_and_port host port cut

-- The arguments of net.JoinHostPort at the end of normalizeHostPort.
unfoldable pub normalize_host_port : String → ℤ → String × Port
unfolding split_host_port
normalize_host_port host port = or_cut host port (split_host_port host) (cut_at b':' host)

abbrev pub is_zero : ℤ → Bool
is_zero (pos zero) = true
is_zero (pos (suc n)) = false
is_zero (negsuc n) = false

abbrev pub or_default : String → String → String
or_default s d = if s == "" then d else s

unfoldable pub conn_string : Config → ConnUrl
unfolding normalize_host_port
conn_string cfg =
    let (host, port) =
      normalize_host_port cfg.host (if is_zero cfg.port then default_port else cfg.port) in
    record {
      user = cfg.user;
      password = cfg.password;
      host = host;
      port = port;
      path = or_default cfg.database default_database;
      ssl_mode = or_default cfg.ssl_mode default_ssl_mode;
    }

-- The result of a row, once its LSN is parsed.
unfoldable pub parsed : WalRow → Result ℕ → Result ProbeResult
parsed row (err e) = err (wrapf "parse lsn %q: %w" (arg (str row.lsn) end) e)
parsed row (ok v) =
    ok (record {
      in_recovery = row.in_recovery;
      lsn = row.lsn;
      lsn_value = v;
      lag_seconds = row.lag;
    })

unfoldable pub scanned : Result WalRow → Result ProbeResult
unfolding parsed
scanned (err e) = err (wrapf "query wal progress: %w" end e)
scanned (ok row) = parsed row (parse_lsn row.lsn)

module _ (p : Platform) where
  open p use {World}

  unfoldable pub connected : Result ℕ → World → Result ProbeResult
  unfolding scanned
  connected (err e) w = err (wrapf "connect postgres: %w" end e)
  connected (ok conn) w = scanned (p.query_wal conn w)

  unfoldable pub sql_probe : Config → World → Result ProbeResult
  unfolding conn_string connected
  sql_probe cfg w = connected (p.connect (conn_string cfg) w) w
