-- ===== src/TestSupport.antt =====
-- internal/clickhouse/testsupport/container.go: the shared container of the integration tests. The
-- container runtime, the driver and the body of a test are left out: the first two are parameters.
pub mod Tidy
mod Nested
mod Words
use Prim.Native.Nat.{bit_xor}
use clickhouse_mcp.Client.{Dialer, ClientError, Client, connected, unconnected, new_client}
use clickhouse_mcp.Config.{Config, ServerConfig, no_oidc, no_broker, stdio, off}
use clickhouse_mcp.Prelude.{
  ℕ, zero, suc, ◌+◌, ◌*◌, ◌/◌, ◌%◌, ◌^◌, Bool, true, false, ◌&&◌, ◌||◌, List, [], ◌∷◌, ◌++◌, map,
  Option, none, some, ◌==◌, leb, ltb, if◌then◌else◌, ℤ, pos,
}
use clickhouse_mcp.Text.{Text, codes}

-- The bytes of a code point in UTF-8.
unfoldable pub utf8 : ℕ → List ℕ
utf8 c =
    if ltb c 0x80
    then c ∷ []
    else if ltb c 0x800
    then (0xC0 + c / 64) ∷ (0x80 + c % 64) ∷ []
    else if ltb c 0x10000
    then (0xE0 + c / 4096) ∷ (0x80 + c / 64 % 64) ∷ (0x80 + c % 64) ∷ []
    else (0xF0 + c / 262144) ∷ (0x80 + c / 4096 % 64) ∷ (0x80 + c / 64 % 64) ∷ (0x80 + c % 64) ∷ []

unfoldable pub all_bytes : Text → List ℕ
unfolding utf8
all_bytes [] = []
all_bytes (c ∷ s) = utf8 c ++ all_bytes s

-- `fnv.New32a`, with `Write` and `Sum32`.
unfoldable pub fnv32a : ℕ → List ℕ → ℕ
fnv32a h [] = h
fnv32a h (b ∷ bs) = fnv32a (bit_xor h b * 16777619 % 2 ^ 32) bs

unfoldable pub hex_digit : ℕ → ℕ
hex_digit n = if ltb n 10 then b'0' + n else 87 + n

-- `%08x` of a 32-bit number: as many digits as the first argument says, in front of `out`.
unfoldable pub hex : ℕ → ℕ → Text → Text
unfolding hex_digit
hex zero n out = out
hex (suc k) n out = hex k (n / 16) (hex_digit (n % 16) ∷ out)

unfoldable pub is_alphanumeric : ℕ → Bool
is_alphanumeric r =
    (leb b'a' r && leb r b'z') || (leb b'A' r && leb r b'Z') || (leb b'0' r && leb r b'9')

unfoldable pub clean : ℕ → ℕ
unfolding is_alphanumeric
clean r = if is_alphanumeric r then r else b'_'

-- `sanitize`.
unfoldable pub sanitize : Text → Text
unfolding clean all_bytes fnv32a hex
sanitize name =
    codes "test_" ++ (map clean name ++ (b'_' ∷ hex 8 (fnv32a 2166136261 (all_bytes name)) []))

-- What the container is run with.
pub record Setup : Type 0 where
  pub image : Text
  pub username : Text
  pub password : Text
  pub database : Text
  pub access_management : Bool

abbrev pub setup : Setup
setup = record {
  image = codes "clickhouse/clickhouse-server:25.6";
  username = codes "default";
  password = codes "test";
  database = codes "default";
  access_management = true;
}

-- What a call of another package gives: a value or the text of an error.
pub data Got (A : Type 0) : Type 0 where
  got : A → Got A
  not_got : Text → Got A

pub data BootError : Type 0 where
  no_container no_host no_port : Text → BootError
  no_connection : ClientError → BootError

pub data Booted (C : Type 0) : Type 0 where
  up : C → Booted C
  down : BootError → Booted C

-- The variables of the package: what `boot` gave once it has run, and the container's endpoint.
pub record Shared (C : Type 0) : Type 0 where
  pub booted : Option (Booted C)
  pub host : Text
  pub port : ℕ

-- What is done outside: a container is run, a helper or a test itself executes a statement, a
-- connection is opened or closed.
pub data Act (C : Type 0) : Type 0 where
  runs_container : Setup → Act C
  executes : C → Text → Act C
  test_executes : C → Text → Act C
  opens : C → Act C
  closes : C → Act C

-- The container runtime and the driver. The error of a statement may go by all that was done.
pub record Outside (Ctr C : Type 0) : Type 0 where
  pub run_container : Setup → Got Ctr
  pub host_of : Ctr → Got Text
  pub port_of : Ctr → (port : Text) → Got ℕ
  pub dialer : Dialer C
  pub exec_error : List (Act C) → C → Text → Option Text

-- The package's variables, what was done so far, and what `Cleanup` has registered in the test that
-- runs, the latest first.
pub record TestRun (C : Type 0) : Type 0 where
  pub shared : Shared C
  pub done : List (Act C)
  pub cleanups : List (Act C)

abbrev pub fresh : {C : Type 0} → TestRun C
fresh = record { shared = record { booted = none; host = []; port = 0 }; done = []; cleanups = [] }

-- `config.Config` with these fields; the client reads no others, which are zero there.
unfoldable pub config_of : Text → ℕ → Text → Text → Config
config_of host port user password = record {
  host = host;
  port = pos port;
  user = user;
  password = password;
  database = codes "default";
  secure = false;
  server = record {
    transport = stdio;
    http_addr = [];
    auth_mode = off;
    oidc = no_oidc;
    broker_config = no_broker;
  };
}

-- What a test helper gives: a value, or the end of the test by `Fatalf`.
pub data Given (A : Type 0) : Type 0 where
  given : A → Given A
  fatal : Given A

unfoldable pub drop_sql : Text → Text
drop_sql database = codes "DROP DATABASE IF EXISTS " ++ database

unfoldable pub create_sql : Text → Text
create_sql database = codes "CREATE DATABASE " ++ database

module _ {Ctr C : Type 0} (out : Outside Ctr C) where
  open out use {run_container, host_of, port_of, dialer, exec_error}

  unfoldable pub boot_client : Client C → Booted C
  boot_client (connected conn) = up conn
  boot_client (unconnected e) = down (no_connection e)

  unfoldable pub boot_port : Text → Got ℕ → Shared C
  unfolding boot_client config_of
  boot_port host (not_got e) = record { booted = some (down (no_port e)); host = []; port = 0 }
  boot_port host (got port) = record {
    booted =
        some (boot_client (new_client dialer (config_of host port setup.username setup.password)));
    host = host;
    port = port;
  }

  unfoldable pub boot_host : Ctr → Got Text → Shared C
  unfolding boot_port
  boot_host ctr (not_got e) = record { booted = some (down (no_host e)); host = []; port = 0 }
  boot_host ctr (got host) = boot_port host (port_of ctr (codes "9000/tcp"))

  unfoldable pub boot_container : Got Ctr → Shared C
  unfolding boot_host
  boot_container (not_got e) = record { booted = some (down (no_container e)); host = []; port = 0 }
  boot_container (got ctr) = boot_host ctr (host_of ctr)

  -- `boot`, with what it leaves in the package's variables.
  unfoldable pub boot : TestRun C → TestRun C
  unfolding boot_container
  boot w = record {
    shared = boot_container (run_container setup);
    done = w.done ++ (runs_container setup ∷ []);
    cleanups = w.cleanups;
  }

  -- `once.Do`.
  unfoldable pub once : Option (Booted C) → TestRun C → TestRun C
  unfolding boot
  once none w = boot w
  once (some b) w = w

  unfoldable pub conn_of : Option (Booted C) → Given C
  conn_of none = fatal
  conn_of (some (up conn)) = given conn
  conn_of (some (down e)) = fatal

  -- `Start`.
  unfoldable pub start : TestRun C → Given C × TestRun C
  unfolding once conn_of
  start w = let v = once w.shared.booted w in (conn_of v.shared.booted, v)

  unfoldable pub exec : C → Text → TestRun C → Option Text × TestRun C
  exec conn sql w =
      (exec_error w.done conn sql, record w { done = w.done ++ (executes conn sql ∷ []) })

  -- `t.Cleanup`.
  unfoldable pub register : Act C → TestRun C → TestRun C
  register act w = record w { cleanups = act ∷ w.cleanups }

  unfoldable pub create : C → Text → Option Text × TestRun C → Given C × TestRun C
  unfolding register drop_sql
  create conn database (some e, w) = (fatal, w)
  create conn database (none, w) = (given conn, register (executes conn (drop_sql database)) w)

  unfoldable pub reset : C → Text → Option Text × TestRun C → Given C × TestRun C
  unfolding create exec create_sql
  reset conn database (some e, w) = (fatal, w)
  reset conn database (none, w) = create conn database (exec conn (create_sql database) w)

  -- `Database` for a test of some name.
  unfoldable pub with_database : Text → Given C × TestRun C → Given C × TestRun C
  unfolding reset exec drop_sql
  with_database name (fatal, w) = (fatal, w)
  with_database name (given conn, w) =
      reset conn (sanitize name) (exec conn (drop_sql (sanitize name)) w)

  unfoldable pub connected_as : Client C → TestRun C → Given C × TestRun C
  unfolding register
  connected_as (unconnected e) w = (fatal, w)
  connected_as (connected conn) w =
      (given conn, register (closes conn) (record w { done = w.done ++ (opens conn ∷ []) }))

  -- `ConnectAs`.
  unfoldable pub connect_as : Text → Text → Given C × TestRun C → Given C × TestRun C
  unfolding connected_as config_of
  connect_as user password (fatal, w) = (fatal, w)
  connect_as user password (given conn, w) =
      connected_as (new_client dialer (config_of w.shared.host w.shared.port user password)) w

-- What a test does: it calls a helper, or executes a statement of its own.
pub data TestUse (C : Type 0) : Type 0 where
  shared_connection own_database : TestUse C
  other_user : (user password : Text) → TestUse C
  own_statement : C → Text → TestUse C

pub record Test (C : Type 0) : Type 0 where
  pub name : Text
  pub uses : List (TestUse C)

-- What follows a helper, unless that has ended the test.
unfoldable pub go_on : {C : Type 0} → (TestRun C → TestRun C) → Given C × TestRun C → TestRun C
go_on k (fatal, w) = w
go_on k (given conn, w) = k w

-- The registered functions run when a test has ended in whatever way, the latest first.
unfoldable pub clean_up : {C : Type 0} → TestRun C → TestRun C
clean_up w = record { shared = w.shared; done = w.done ++ w.cleanups; cleanups = [] }

module _ {Ctr C : Type 0} (out : Outside Ctr C) where
  unfoldable pub run_use : Text → TestUse C → TestRun C → Given C × TestRun C
  unfolding start with_database connect_as
  run_use name shared_connection w = start out w
  run_use name own_database w = with_database out name (start out w)
  run_use name (other_user user password) w = connect_as out user password (start out w)
  run_use name (own_statement conn sql) w =
      (given conn, record w { done = w.done ++ (test_executes conn sql ∷ []) })

  unfoldable pub run_uses : Text → List (TestUse C) → TestRun C → TestRun C
  unfolding run_use go_on
  run_uses name [] w = w
  run_uses name (u ∷ us) w = go_on (run_uses name us) (run_use name u w)

  unfoldable pub run_test : Test C → TestRun C → TestRun C
  unfolding run_uses clean_up
  run_test t w = clean_up (run_uses t.name t.uses w)

  -- The tests of a package, one after the other.
  unfoldable pub run_tests : List (Test C) → TestRun C → TestRun C
  unfolding run_test
  run_tests [] w = w
  run_tests (t ∷ ts) w = run_tests ts (run_test t w)
