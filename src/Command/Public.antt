-- ===== src/Command/Public.antt =====
-- The pages that anyone reaches in broker mode.
use clickhouse_mcp.Auth.Broker.{Route, token, routes, new_proxy}
use clickhouse_mcp.Auth.Proxy.Flow.Relays.{IsRelay, handle_token-IsRelay}
use clickhouse_mcp.Auth.Proxy.Flow.{Response, relayed}
use clickhouse_mcp.Auth.Proxy.{Web, ProxyConfig}
use clickhouse_mcp.Auth.Verifier.{TokenInfo}
use clickhouse_mcp.Command.{
  HttpRequest, HttpResponse, moved, flow_page, Handler, Packages, Built, built, aborted, route_of,
  proxy_config, to_mcp, serve_route, dispatch, mux, bearer_gate, behind_mux, with_broker, build_for,
  build_http_handler,
}
use clickhouse_mcp.Config.Load.{load}
use clickhouse_mcp.Config.Settings.{IsUsable}
use clickhouse_mcp.Config.Valid.{IsComplete, load-IsComplete}
use clickhouse_mcp.Config.{
  Env, Config, BrokerConfig, ServerConfig, AuthMode, off, bearer, broker, ok, is_unset,
}
use clickhouse_mcp.Prelude.{
  ℕ, Bool, true, false, ◌&&◌, not, [], Option, none, some, ◌≡◌, ◌≢◌, ◌⊎◌, inl, inr, refl, sym, ap,
  subst, ◌∙◌, if◌then◌else◌,
}
use clickhouse_mcp.Text.{Text, codes, equal, equal_iff, contains}

module _ {web : Web} {V M : Type 0} (k : Packages web V M) where
  behind_mux_route :
      (gate : Handler web V M → Handler web V M) (o : Option (Unit {0})) (b : BrokerConfig)
      (h : Handler web V M)
      → behind_mux k gate (new_proxy o (proxy_config b)) ≡ built h
      → mux k (proxy_config b) (gate (to_mcp k)) ≡ h
  unfolding behind_mux new_proxy
  behind_mux_route gate none b h q = cc
  behind_mux_route gate (some drawn) b h q = cc q

  with_broker-mux :
      (drawn : Option (Unit {0})) (b : BrokerConfig) (o : Built (Handler web V M → Handler web V M))
      (h : Handler web V M)
      → with_broker k drawn b o ≡ built h
      → (rest : Handler web V M) × (mux k (proxy_config b) rest ≡ h)
  unfolding with_broker
  with_broker-mux drawn b (aborted e) h q = cc
  with_broker-mux drawn b (built gate) h q = (gate (to_mcp k), behind_mux_route gate drawn b h q)

  mux_route :
      (p : ProxyConfig) (rest : Handler web V M) (info : Option TokenInfo) (r : HttpRequest web V)
      (route : Route)
      → k.clean_path r.path ≡ r.path
      → route_of r.path routes ≡ some route
      → mux k p rest info r ≡ serve_route k p route r
  unfolding mux dispatch
  mux_route p rest info r route clean at =
      rw ((equal_iff (k.clean_path r.path) r.path).1 clean, at) (by_method _)
    where
      by_method :
          (b : Bool)
          → (if b && not true then moved (k.clean_path r.path) else serve_route k p route r)
            ≡ serve_route k p route r
      by_method true = refl
      by_method false = refl

  -- In broker mode a request for a mounted path is answered by that path's page under the settings
  -- of the broker, whatever token it presents or does not.
  pub build_http_handler-serve_route :
      (drawn : Option (Unit {0})) (cfg : ServerConfig) (h : Handler web V M)
      (info : Option TokenInfo) (r : HttpRequest web V) (route : Route)
      → cfg.auth_mode ≡ broker
      → build_http_handler k drawn cfg ≡ built h
      → k.clean_path r.path ≡ r.path
      → route_of r.path routes ≡ some route
      → h info r ≡ serve_route k (proxy_config cfg.broker_config) route r
  unfolding build_http_handler build_for
  build_http_handler-serve_route drawn cfg h info r route mode q clean at =
      let built_broker : build_for k drawn cfg broker ≡ built h =
        subst (λ m. build_for k drawn cfg m ≡ built h) mode q in
      let (rest, same) =
        with_broker-mux drawn cfg.broker_config (bearer_gate k cfg.oidc) h built_broker in
      ap (λ y. y info r) (sym same)
      ∙ mux_route (proxy_config cfg.broker_config) rest info r route clean at

  -- With settings that `Load` gives in broker mode, no body that the token endpoint relays holds
  -- the client secret, and the secret is not empty.
  pub load-no_secret :
      (env : Env) (c : Config) (drawn : Option (Unit {0})) (h : Handler web V M)
      (info : Option TokenInfo) (r : HttpRequest web V) (status : ℕ) (body : Text)
      → load env ≡ ok c
      → c.server.auth_mode ≡ broker
      → build_http_handler k drawn c.server ≡ built h
      → k.clean_path r.path ≡ r.path
      → r.path ≡ codes "/oauth/token"
      → h info r ≡ flow_page (relayed status body)
      → (contains c.server.broker_config.client_secret body ≡ false)
        × (c.server.broker_config.client_secret ≢ [])
  unfolding serve_route proxy_config is_unset
  load-no_secret env c drawn h info r status body loaded mode q clean path e =
      let page =
        build_http_handler-serve_route drawn c.server h info r token mode q clean
          (subst (λ p. route_of p routes ≡ some token) (sym path) at_token) in
      let relay : IsRelay web (proxy_config c.server.broker_config)
          (r.exchange c.server.broker_config.upstream_token_url) r.parts status body =
        handle_token-IsRelay web (proxy_config c.server.broker_config)
          (r.exchange c.server.broker_config.upstream_token_url) r.parts status body
          (flow_page_inj (sym page ∙ e)) in
      (by_secret relay.no_secret, given)
    where
      at_token : route_of (codes "/oauth/token") routes ≡ some token
      at_token = unfold route_of equal in refl

      flow_page_inj :
          {a b : Response} → ◌≡◌ {A = HttpResponse V M} (flow_page a) (flow_page b) → a ≡ b
      flow_page_inj x = cc

      complete :
          (m : AuthMode) → m ≡ broker → IsComplete m c.server → IsUsable c.server.broker_config
      complete off x s = cc
      complete bearer x s = cc
      complete broker x s = unfold IsComplete in s.1

      given : c.server.broker_config.client_secret ≢ []
      given x = cc (
        (complete c.server.auth_mode mode (load-IsComplete env c loaded).1).client_secret_given,
        (equal_iff c.server.broker_config.client_secret []).1 x,
      )

      by_secret :
          (c.server.broker_config.client_secret ≡ [])
            ⊎ (contains c.server.broker_config.client_secret body ≡ false)
          → contains c.server.broker_config.client_secret body ≡ false
      by_secret (inl x) = absurd (given x)
      by_secret (inr x) = x
