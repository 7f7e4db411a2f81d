-- ===== src/Examples/MainWitnesses.antt =====
-- The theorems of the whole program at a concrete environment: a broker in front of Entra.
use mathlib.Core.List.{Memᴰ}
use clickhouse_mcp.Client.Dialed.{Dials, new_client-Dials}
use clickhouse_mcp.Client.{
  Options, Dialer, opened, connected, options, after_ping, after_open, new_client,
}
use clickhouse_mcp.Command.Main.Serves.{IsServed, main-IsServed}
use clickhouse_mcp.Command.Main.Closes.{IsClosed, main-IsClosed}
use clickhouse_mcp.Command.Main.{
  listens, serves_http, closes, Action, Outside, ended, then_do, finish, http_result, on_listen,
  on_handler, serve_over, on_client, on_config, main,
}
use clickhouse_mcp.Command.Shutdown.{
  cancel, turn, run_http, on_event, while_running, on_running, on_turn, choose, take_cancel,
  start_drain, wait_drained,
}
use clickhouse_mcp.Command.{
  build_http_handler, build_for, with_broker, behind_mux, bearer_gate, gate_of,
}
use clickhouse_mcp.Auth.Broker.{new_proxy}
use clickhouse_mcp.Auth.Verifier.{provided, new_verifier}
use clickhouse_mcp.Config.Blames.{Blames}
use clickhouse_mcp.Config.{Env}
use clickhouse_mcp.Examples.CommandWitnesses.{packages, served}
use clickhouse_mcp.Examples.MockServer.{entra, entra_config, entra_loads}
use clickhouse_mcp.Examples.MockWeb.{small_web}
use clickhouse_mcp.Prelude.{List, [], ◌∷◌, none, some, ◌≡◌, refl, false, if◌then◌else◌}
use clickhouse_mcp.Text.{Text, codes, equal}

-- A driver whose connections are the options that they were opened with.
abbrev driver : Dialer Options
driver = record { dial = λ o. opened o; ping_error = λ o. none }

abbrev conn : Options
conn = options entra_config

is_connected : new_client driver entra_config ≡ connected conn
unfolding new_client after_open after_ping
is_connected = refl

new_client-Dials_example :
    (o : Options) × Dials entra o × (driver.dial o ≡ opened conn) × (driver.ping_error conn ≡ none)
new_client-Dials_example = new_client-Dials driver entra entra_config conn entra_loads is_connected

-- An interrupt while no client is connected.
abbrev outside : Outside small_web (Unit {0}) Text Options
outside = record {
  env = entra;
  dialer = driver;
  packages = λ c. packages;
  drawn = some tt;
  listen_error = λ addr. none;
  schedule = turn false ∷ turn false ∷ cancel ∷ [];
  stdio_result = none;
}

abbrev steps : List (Action small_web (Unit {0}) Text Options)
steps = listens entra_config.server.http_addr ∷ (serves_http served conn ∷ (closes conn ∷ []))

runs : main outside ≡ (ended, steps)
unfolding main on_config on_client new_client after_open after_ping serve_over on_handler on_listen
    then_do finish http_result build_http_handler build_for with_broker behind_mux bearer_gate
    gate_of new_verifier provided new_proxy run_http on_event while_running on_running on_turn
    choose take_cancel start_drain wait_drained
runs = rw entra_loads refl

main-IsServed_example : IsServed outside served conn (main outside).1
main-IsServed_example = main-IsServed outside served conn (rw runs (Memᴰ.tail (Memᴰ.head refl)))

main-IsClosed_example :
    ((main outside).0 ≡ ended → IsClosed outside (main outside).1)
    × ((c : Options) → Memᴰ (closes c) (main outside).1 → (main outside).0 ≡ ended)
main-IsClosed_example = main-IsClosed outside

-- Bearer mode with no issuer.
abbrev no_issuer : Env
no_issuer key = if equal key (codes "MCP_AUTH_MODE") then some (codes "bearer") else none
