-- ===== src/Command/Main/Closes.antt =====
-- How `main` comes to an end without a message.
use mathlib.Core.List.{Memᴰ}
use mathlib.Core.List.Memᴰ
use clickhouse_mcp.Auth.Proxy.{Web}
use clickhouse_mcp.Client.{Client, connected, unconnected, new_client}
use clickhouse_mcp.Command.Main.{
  Exit, ended, Action, listens, serves_http, serves_stdio, closes, Outside, Outcome, then_do,
  finish, http_result, on_listen, on_handler, serve_over, on_client, on_config, main,
}
use clickhouse_mcp.Command.Shutdown.Ends.{Explains, run_http-Explains}
use clickhouse_mcp.Command.Shutdown.{Phase, waiting, draining, returned, cancel, run_http}
use clickhouse_mcp.Command.{Handler, Built, built, aborted}
use clickhouse_mcp.Config.Load.{load}
use clickhouse_mcp.Config.{Config, ServerConfig, Loaded, ok, err, Transport, stdio, http}
use clickhouse_mcp.Prelude.{List, [], ◌∷◌, Option, none, some, ◌≡◌, inl, inr, refl, ◌≢◌, ap, false}
use clickhouse_mcp.Text.{Text}

module _ {web : Web} {V M C : Type 0} (out : Outside web V M C) where
  open out use {env, dialer, packages, drawn, listen_error, schedule, stdio_result}

  -- How a run ends by itself: the context was cancelled and the HTTP server drained, or the stdio
  -- transport returned no error; then the connection was closed, last.
  pub data IsClosed (steps : List (Action web V M C)) : Type 0 where
    over_http :
        (addr : Text) (h : Handler web V M) (conn : C)
        → steps ≡ listens addr ∷ (serves_http h conn ∷ (closes conn ∷ []))
        → Memᴰ cancel schedule
        → (run_http schedule).listening ≡ false
        → (run_http schedule).active ≡ 0
        → IsClosed steps
    over_stdio :
        (conn : C)
        → steps ≡ serves_stdio conn ∷ (closes conn ∷ [])
        → stdio_result ≡ some none
        → IsClosed steps

  abbrev Ends : Outcome web V M C → Type 0
  Ends o = (o.0 ≡ ended → IsClosed o.1) × ((conn : C) → Memᴰ (closes conn) o.1 → o.0 ≡ ended)

  -- A run that stopped before it served has closed nothing.
  stopped-Ends : (e : Exit) → e ≢ ended → Ends (e, [])
  stopped-Ends e h = (λ q. absurd (h q), λ conn m. absurd (Memᴰ.not-nil m))

  finish-Ends :
      (conn : C) (r : Option (Option Text))
      → ((finish out conn r).0 ≡ ended
          → (r ≡ some none) × ((finish out conn r).1 ≡ closes conn ∷ []))
        × ((c : C) → Memᴰ (closes c) (finish out conn r).1 → (finish out conn r).0 ≡ ended)
  unfolding finish
  finish-Ends conn none = (λ q. cc, λ c m. absurd (Memᴰ.not-nil m))
  finish-Ends conn (some (some e)) = (λ q. cc, λ c m. absurd (Memᴰ.not-nil m))
  finish-Ends conn (some none) = (λ q. (refl, refl), λ c m. refl)

  http_result-returned : (p : Phase) → http_result out p ≡ some none → p ≡ returned none
  unfolding http_result
  http_result-returned waiting h = cc
  http_result-returned draining h = cc
  http_result-returned (returned v) h = cc h

  explained :
      Explains schedule (run_http schedule) none
      → Memᴰ cancel schedule
        × ((run_http schedule).listening ≡ false)
        × ((run_http schedule).active ≡ 0)
  unfolding Explains
  explained h = h

  on_listen-Ends :
      (conn : C) (addr : Text) (h : Handler web V M) (o : Option Text)
      → Ends (on_listen out conn addr h o)
  unfolding on_listen then_do
  on_listen-Ends conn addr h (some e) = stopped-Ends _ (λ q. cc)
  on_listen-Ends conn addr h none = (closed, by_close)
    where
      r : Option (Option Text)
      r = http_result out (run_http schedule).phase

      closed :
          (finish out conn r).0 ≡ ended
          → IsClosed (listens addr ∷ (serves_http h conn ∷ (finish out conn r).1))
      closed q =
          let (returns, last) = (finish-Ends conn r).0 q in
          let why : Explains schedule (run_http schedule) none =
            run_http-Explains schedule none (http_result-returned _ returns) in
          let (cancelled, shut, idle) = explained why in
          over_http addr h conn (ap (λ x. listens addr ∷ (serves_http h conn ∷ x)) last) cancelled
            shut idle

      by_close :
          (c : C)
          → Memᴰ (closes c) (listens addr ∷ (serves_http h conn ∷ (finish out conn r).1))
          → (finish out conn r).0 ≡ ended
      by_close c m = elim (Memᴰ.cases_cons m) [
        | inl same ↦ cc
        | inr n ↦ elim (Memᴰ.cases_cons n) [ inl same ↦ cc | inr k ↦ (finish-Ends conn r).1 c k ]
      ]

  on_handler-Ends :
      (conn : C) (addr : Text) (b : Built (Handler web V M)) → Ends (on_handler out conn addr b)
  unfolding on_handler
  on_handler-Ends conn addr (aborted e) = stopped-Ends _ (λ q. cc)
  on_handler-Ends conn addr (built h) = on_listen-Ends conn addr h (listen_error addr)

  serve_over-Ends :
      (conn : C) (cfg : ServerConfig) (t : Transport) → Ends (serve_over out conn cfg t)
  unfolding serve_over then_do
  serve_over-Ends conn cfg http = on_handler-Ends conn cfg.http_addr _
  serve_over-Ends conn cfg stdio = (closed, by_close)
    where
      closed :
          (finish out conn stdio_result).0 ≡ ended
          → IsClosed (serves_stdio conn ∷ (finish out conn stdio_result).1)
      closed q =
          let (returns, last) = (finish-Ends conn stdio_result).0 q in
          over_stdio conn (ap (λ x. serves_stdio conn ∷ x) last) returns

      by_close :
          (c : C)
          → Memᴰ (closes c) (serves_stdio conn ∷ (finish out conn stdio_result).1)
          → (finish out conn stdio_result).0 ≡ ended
      by_close c m = elim (Memᴰ.cases_cons m) [
        | inl same ↦ cc
        | inr k ↦ (finish-Ends conn stdio_result).1 c k
      ]

  on_client-Ends : (cfg : Config) (c : Client C) → Ends (on_client out cfg c)
  unfolding on_client
  on_client-Ends cfg (unconnected e) = stopped-Ends _ (λ q. cc)
  on_client-Ends cfg (connected conn) = serve_over-Ends conn cfg.server cfg.server.transport

  on_config-Ends : (r : Loaded Config) → Ends (on_config out r)
  unfolding on_config
  on_config-Ends (err e) = stopped-Ends _ (λ q. cc)
  on_config-Ends (ok cfg) = on_client-Ends cfg (new_client dialer cfg)

  -- The program ends without a message exactly where it closes its connection, which it then does
  -- last; and it ends so only after its context was cancelled and the HTTP server has neither a
  -- listener nor a connection left, or after the stdio transport returned no error.
  pub main-IsClosed :
      ((main out).0 ≡ ended → IsClosed (main out).1)
      × ((conn : C) → Memᴰ (closes conn) (main out).1 → (main out).0 ≡ ended)
  unfolding main
  main-IsClosed = on_config-Ends (load env)
