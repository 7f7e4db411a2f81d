-- ===== src/Client.antt =====
-- internal/clickhouse/client.go: the connection that the settings ask for. The driver that opens it
-- is a parameter.
pub mod Dialed
use clickhouse_mcp.Config.{Config}
use clickhouse_mcp.Prelude.{ℕ, Bool, true, false, List, [], ◌∷◌, ◌++◌, Option, none, some}
use clickhouse_mcp.Query.Bound.{itoa}
use clickhouse_mcp.Text.{Text, codes}

-- `clickhouse.Auth`.
pub record ConnAuth : Type 0 where
  pub database : Text
  pub username : Text
  pub password : Text

-- `tls.Config`.
pub record TlsConfig : Type 0 where
  pub min_version : ℕ

-- `tls.VersionTLS12`, 0x0303.
abbrev pub version_tls12 : ℕ
version_tls12 = 771

-- `clickhouse.Options`; without `tls` the connection is plain.
pub record Options : Type 0 where
  pub addr : List Text
  pub auth : ConnAuth
  pub tls : Option TlsConfig

-- The driver's functions: `Open`, with a connection or an error, and the error of `Ping`.
pub data Opening (C : Type 0) : Type 0 where
  opened : C → Opening C
  not_opened : Text → Opening C

pub record Dialer (C : Type 0) : Type 0 where
  pub dial : Options → Opening C
  pub ping_error : C → Option Text

pub data ClientError : Type 0 where
  open_failed : Text → ClientError
  ping_failed : (addr why : Text) → ClientError

pub data Client (C : Type 0) : Type 0 where
  connected : C → Client C
  unconnected : ClientError → Client C

-- `fmt.Sprintf("%s:%d", cfg.Host, cfg.Port)`.
unfoldable pub host_port : Config → Text
host_port cfg = cfg.host ++ (b':' ∷ itoa cfg.port)

unfoldable pub tls_config : Bool → Option TlsConfig
tls_config true = some (record { min_version = version_tls12 })
tls_config false = none

unfoldable pub options : Config → Options
unfolding host_port tls_config
options cfg = record {
  addr = host_port cfg ∷ [];
  auth = record { database = cfg.database; username = cfg.user; password = cfg.password };
  tls = tls_config cfg.secure;
}

module _ {C : Type 0} (d : Dialer C) where
  unfoldable pub after_ping : Config → C → Option Text → Client C
  unfolding host_port
  after_ping cfg conn none = connected conn
  after_ping cfg conn (some e) = unconnected (ping_failed (host_port cfg) e)

  unfoldable pub after_open : Config → Opening C → Client C
  unfolding after_ping
  after_open cfg (not_opened e) = unconnected (open_failed e)
  after_open cfg (opened conn) = after_ping cfg conn (d.ping_error conn)

  -- `New`.
  unfoldable pub new_client : Config → Client C
  unfolding after_open
  new_client cfg = after_open cfg (d.dial (options cfg))
