-- ===== src/Command/Main/Serves.antt =====
-- What is in place where `main` serves, and how it comes to its end.
use mathlib.Core.List.{Memᴰ}
use mathlib.Core.List.Memᴰ
use clickhouse_mcp.Auth.Proxy.{Web}
use clickhouse_mcp.Client.Dialed.{Dials, new_client-Dials}
use clickhouse_mcp.Client.{opened, Client, connected, unconnected, Options, new_client}
use clickhouse_mcp.Command.Main.{
  Action, listens, serves_http, Outside, Outcome, then_do, finish, http_result, on_listen,
  on_handler, serve_over, on_client, on_config, main,
}
use clickhouse_mcp.Command.Shutdown.{run_http}
use clickhouse_mcp.Command.{Handler, Built, built, aborted, build_http_handler}
use clickhouse_mcp.Config.Load.{load}
use clickhouse_mcp.Config.{Config, Loaded, ok, err, Transport, stdio, http}
use clickhouse_mcp.Prelude.{List, ◌∷◌, Option, none, some, ◌≡◌, inl, inr, refl, sym, ap, subst, ◌∙◌}
use clickhouse_mcp.Text.{Text}

module _ {web : Web} {V M C : Type 0} (out : Outside web V M C) where
  open out use {env, dialer, packages, drawn, listen_error, schedule, stdio_result}

  -- The settings are those of the environment, and the connection was dialed by them and is alive.
  pub record IsUp (cfg : Config) (conn : C) : Type 0 where
    pub loaded : load env ≡ ok cfg
    pub asked : Options
    pub dials : Dials env asked
    pub dialed : dialer.dial asked ≡ opened conn
    pub alive : dialer.ping_error conn ≡ none

  -- What is in place where a handler is served over HTTP to a connection's server.
  pub record IsServed (h : Handler web V M) (conn : C) (steps : List (Action web V M C))
      : Type 0 where
    pub cfg : Config
    pub up : IsUp cfg conn
    pub transport_is : cfg.server.transport ≡ http
    pub built_is : build_http_handler (packages conn) drawn cfg.server ≡ built h
    pub free : listen_error cfg.server.http_addr ≡ none
    pub rest : List (Action web V M C)
    pub order_is : steps ≡ listens cfg.server.http_addr ∷ (serves_http h conn ∷ rest)

  -- Every handler that is served has all this in place.
  abbrev AllServed : Outcome web V M C → Type 0
  AllServed o =
      (h : Handler web V M) (conn : C) → Memᴰ (serves_http h conn) o.1 → IsServed h conn o.1

  finish_serves :
      (h : Handler web V M) (conn made : C) (r : Option (Option Text))
      → ¬ Memᴰ (serves_http h conn) (finish out made r).1
  unfolding finish
  finish_serves h conn made none m = Memᴰ.not-nil m
  finish_serves h conn made (some (some e)) m = Memᴰ.not-nil m
  finish_serves h conn made (some none) m = elim (Memᴰ.cases_cons m) [
    | inl same ↦ cc
    | inr n ↦ Memᴰ.not-nil n
  ]

  on_listen-AllServed :
      (cfg : Config) (conn : C) (h : Handler web V M) (o : Option Text)
      → IsUp cfg conn
      → cfg.server.transport ≡ http
      → build_http_handler (packages conn) drawn cfg.server ≡ built h
      → o ≡ listen_error cfg.server.http_addr
      → AllServed (on_listen out conn cfg.server.http_addr h o)
  unfolding on_listen then_do
  on_listen-AllServed cfg conn h (some e) up t b at g made m = absurd (Memᴰ.not-nil m)
  on_listen-AllServed cfg conn h none up t b at g made m = elim (Memᴰ.cases_cons m) [
    | inl same ↦ cc
    | inr n ↦ elim (Memᴰ.cases_cons n) [
      | inl same ↦ served (sym same)
      | inr k ↦ absurd (finish_serves g made conn _ k)
    ]
  ]
    where
      served :
          serves_http h conn ≡ serves_http g made
          → IsServed g made (
              listens cfg.server.http_addr
              ∷ (serves_http h conn
                  ∷ (finish out conn (http_result out (run_http schedule).phase)).1))
      served same =
          let conn_is : conn ≡ made = cc in
          let h_is : h ≡ g = cc in
          record {
            cfg = cfg;
            up = subst (λ c. IsUp cfg c) conn_is up;
            transport_is = t;
            built_is =
                subst (λ c. build_http_handler (packages c) drawn cfg.server ≡ built g) conn_is
                  (b ∙ ap built h_is);
            free = sym at;
            rest = (finish out conn (http_result out (run_http schedule).phase)).1;
            order_is =
                ap
                  (λ x.
                    listens cfg.server.http_addr
                    ∷ (x ∷ (finish out conn (http_result out (run_http schedule).phase)).1))
                  same;
          }

  on_handler-AllServed :
      (cfg : Config) (conn : C) (b : Built (Handler web V M))
      → IsUp cfg conn
      → cfg.server.transport ≡ http
      → build_http_handler (packages conn) drawn cfg.server ≡ b
      → AllServed (on_handler out conn cfg.server.http_addr b)
  unfolding on_handler
  on_handler-AllServed cfg conn (aborted e) up t q h made m = absurd (Memᴰ.not-nil m)
  on_handler-AllServed cfg conn (built g) up t q h made m =
      on_listen-AllServed cfg conn g (listen_error cfg.server.http_addr) up t q refl h made m

  serve_over-AllServed :
      (cfg : Config) (conn : C) (t : Transport)
      → IsUp cfg conn
      → cfg.server.transport ≡ t
      → AllServed (serve_over out conn cfg.server t)
  unfolding serve_over then_do
  serve_over-AllServed cfg conn http up t h made m =
      on_handler-AllServed cfg conn (build_http_handler (packages conn) drawn cfg.server) up t refl
        h made m
  serve_over-AllServed cfg conn stdio up t h made m = elim (Memᴰ.cases_cons m) [
    | inl same ↦ cc
    | inr n ↦ absurd (finish_serves h made conn stdio_result n)
  ]

  on_client-AllServed :
      (cfg : Config) (c : Client C)
      → load env ≡ ok cfg
      → new_client dialer cfg ≡ c
      → AllServed (on_client out cfg c)
  unfolding on_client
  on_client-AllServed cfg (unconnected e) loaded q h made m = absurd (Memᴰ.not-nil m)
  on_client-AllServed cfg (connected conn) loaded q h made m =
      serve_over-AllServed cfg conn cfg.server.transport (up loaded q) refl h made m
    where
      up : load env ≡ ok cfg → new_client dialer cfg ≡ connected conn → IsUp cfg conn
      up loaded q =
          let (o, dials, at, alive) = new_client-Dials dialer env cfg conn loaded q in
          record { loaded = loaded; asked = o; dials = dials; dialed = at; alive = alive }

  on_config-AllServed : (r : Loaded Config) → load env ≡ r → AllServed (on_config out r)
  unfolding on_config
  on_config-AllServed (err e) q h made m = absurd (Memᴰ.not-nil m)
  on_config-AllServed (ok cfg) q h made m =
      on_client-AllServed cfg (new_client dialer cfg) q refl h made m

  -- A handler that `main` serves over HTTP was built from settings that Load gave, with HTTP as
  -- their transport, for the server of a connection that was dialed at the configured address and
  -- has answered a ping; and `main` did nothing before but listen at the configured address.
  pub main-IsServed :
      (h : Handler web V M) (conn : C)
      → Memᴰ (serves_http h conn) (main out).1
      → IsServed h conn (main out).1
  unfolding main
  main-IsServed h conn m = on_config-AllServed (load env) refl h conn m
