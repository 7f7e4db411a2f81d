-- ===== src/Command/Main.antt =====
-- cmd/clickhouse-mcp/main.go: `main`, from the environment to the exit.
pub mod Closes
pub mod Serves
use clickhouse_mcp.Client.{
  Options, Dialer, Opening, opened, not_opened, ClientError, Client, connected, unconnected,
  options, new_client,
}
use clickhouse_mcp.Command.Shutdown.{Phase, HttpRun, Event, waiting, draining, returned, run_http}
use clickhouse_mcp.Command.{
  Handler, Packages, StartError, Built, built, aborted, build_http_handler,
}
use clickhouse_mcp.Auth.Proxy.{Web}
use clickhouse_mcp.Config.Load.{load}
use clickhouse_mcp.Config.{
  Env, ConfigError, Loaded, ok, err, Config, ServerConfig, Transport, stdio, http,
}
use clickhouse_mcp.Prelude.{List, [], ◌∷◌, Option, none, some}
use clickhouse_mcp.Text.{Text}

-- Where the program stops with a message, or that it runs on, or ends.
pub data Exit : Type 0 where
  config_failed : ConfigError → Exit
  client_failed : ClientError → Exit
  auth_failed : StartError → Exit
  listen_failed : (addr why : Text) → Exit
  server_failed : Text → Exit
  running ended : Exit

-- What the program does on its way: it listens, serves a transport, and closes its connection. The
-- message of `log.Fatalf` ends the process at once, so nothing is closed behind it.
pub data Action (web : Web) (V M C : Type 0) : Type 0 where
  listens : (addr : Text) → Action web V M C
  serves_http : Handler web V M → C → Action web V M C
  serves_stdio : C → Action web V M C
  closes : C → Action web V M C

-- What surrounds the program: the environment, the driver, the packages, with their handler for a
-- connection's server, the random bytes of the broker's key, the error of `net.Listen`, the
-- schedule of the HTTP server, and what the stdio transport comes to: nothing yet, or its error.
pub record Outside (web : Web) (V M C : Type 0) : Type 0 where
  pub env : Env
  pub dialer : Dialer C
  pub packages : C → Packages web V M
  pub drawn : Option (Unit {0})
  pub listen_error : Text → Option Text
  pub schedule : List Event
  pub stdio_result : Option (Option Text)

-- How the program ends, and what it has done.
abbrev pub Outcome : Web → Type 0 → Type 0 → Type 0 → Type 0
Outcome web V M C = Exit × List (Action web V M C)

module _ {web : Web} {V M C : Type 0} (out : Outside web V M C) where
  open out use {env, dialer, packages, drawn, listen_error, schedule, stdio_result}

  unfoldable pub then_do : Action web V M C → Outcome web V M C → Outcome web V M C
  then_do step (exit, steps) = (exit, step ∷ steps)

  -- The end of `main`: a transport has returned, or runs on.
  unfoldable pub finish : C → Option (Option Text) → Outcome web V M C
  finish conn none = (running, [])
  finish conn (some (some e)) = (server_failed e, [])
  finish conn (some none) = (ended, closes conn ∷ [])

  unfoldable pub http_result : Phase → Option (Option Text)
  http_result waiting = none
  http_result draining = none
  http_result (returned e) = some e

  unfoldable pub on_listen : C → Text → Handler web V M → Option Text → Outcome web V M C
  unfolding then_do finish http_result
  on_listen conn addr h (some e) = (listen_failed addr e, [])
  on_listen conn addr h none =
      then_do (listens addr)
        (then_do (serves_http h conn) (finish conn (http_result (run_http schedule).phase)))

  unfoldable pub on_handler : C → Text → Built (Handler web V M) → Outcome web V M C
  unfolding on_listen
  on_handler conn addr (aborted e) = (auth_failed e, [])
  on_handler conn addr (built h) = on_listen conn addr h (listen_error addr)

  -- The switch on the transport.
  unfoldable pub serve_over : C → ServerConfig → Transport → Outcome web V M C
  unfolding on_handler then_do finish
  serve_over conn cfg http =
      on_handler conn cfg.http_addr (build_http_handler (packages conn) drawn cfg)
  serve_over conn cfg stdio = then_do (serves_stdio conn) (finish conn stdio_result)

  unfoldable pub on_client : Config → Client C → Outcome web V M C
  unfolding serve_over
  on_client cfg (unconnected e) = (client_failed e, [])
  on_client cfg (connected conn) = serve_over conn cfg.server cfg.server.transport

  unfoldable pub on_config : Loaded Config → Outcome web V M C
  unfolding on_client
  on_config (err e) = (config_failed e, [])
  on_config (ok cfg) = on_client cfg (new_client dialer cfg)

  -- `main`.
  unfoldable pub main : Outcome web V M C
  unfolding on_config
  main = on_config (load env)
