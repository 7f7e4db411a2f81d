-- ===== src/Command.antt =====
-- cmd/clickhouse-mcp/main.go: the handler of the HTTP transport, put together for each auth mode.
pub mod Gated
pub mod Main
pub mod Public
pub mod Shutdown
use clickhouse_mcp.Auth.Broker.{
  Written, Route, metadata, register, authorize, callback, token, routes,
  handle_auth_server_metadata, handle_register, new_proxy,
}
use clickhouse_mcp.Auth.Proxy.Flow.{
  Response, Exchange, Request, handle_authorize, handle_callback, handle_token,
}
use clickhouse_mcp.Auth.Proxy.{Web, ProxyConfig}
use clickhouse_mcp.Auth.Verifier.{TokenCheck, TokenInfo, Verdict, Verifier, verify, new_verifier}
use clickhouse_mcp.Config.{OidcConfig, BrokerConfig, ServerConfig, AuthMode, off, bearer, broker}
use clickhouse_mcp.Prelude.{
  ℕ, Bool, true, false, ◌&&◌, not, List, [], ◌∷◌, Option, none, some, if◌then◌else◌,
}
use clickhouse_mcp.Text.{Text, codes, equal}

-- A request, with what the world holds ready for it: the time, random bytes in hex, what decoding
-- its body under a cap gives, and what the upstream would answer at a URL to a form.
pub record HttpRequest (web : Web) (V : Type 0) : Type 0 where
  pub path : Text
  pub parts : Request web
  pub now : ℕ
  pub nonce : Option Text
  pub decode : ℕ → Option (Text → Option V)
  pub exchange : Text → Text → Exchange

-- What is written, by the one who writes it: the MCP library, the bearer gate, the mux for a path
-- that is not clean, and the broker's handlers.
pub data HttpResponse (V M : Type 0) : Type 0 where
  mcp : M → HttpResponse V M
  unauthorized : HttpResponse V M
  moved : Text → HttpResponse V M
  broker_page : Written V → HttpResponse V M
  flow_page : Response → HttpResponse V M

-- `http.Handler`, on the token's information that the context holds, if it holds one.
abbrev pub Handler : Web → Type 0 → Type 0 → Type 0
Handler web V M = Option TokenInfo → HttpRequest web V → HttpResponse V M

-- The packages that the command calls: the token of a request's Authorization header, the MCP
-- library's handler for the server, its middleware `RequireBearerToken`, the path that the mux cleans, and the discovery of an issuer.
pub record Packages (web : Web) (V M : Type 0) : Type 0 where
  pub presented_token : HttpRequest web V → Option Text
  pub mcp_handler : Option TokenInfo → HttpRequest web V → M
  pub require_bearer_token :
      (resource_metadata_url : Text) → (Text → Verdict) → Handler web V M → Handler web V M
  pub clean_path : Text → Text
  pub discover : Text → Option TokenCheck

-- Why there is no handler.
pub data StartError : Type 0 where
  no_discovery no_random : StartError

pub data Built (A : Type 0) : Type 0 where
  built : A → Built A
  aborted : StartError → Built A

-- The route of a path that is mounted; other paths belong to the pattern "/".
unfoldable pub route_of : Text → List (Text × Route) → Option Route
route_of path [] = none
route_of path ((p, r) ∷ rest) = if equal p path then some r else route_of path rest

-- The settings that `buildHTTPHandler` hands to `NewProxy`.
unfoldable pub proxy_config : BrokerConfig → ProxyConfig
proxy_config b = record {
  public_url = b.public_url;
  client_id = b.client_id;
  scopes = b.scopes;
  upstream_auth_url = b.upstream_auth_url;
  upstream_token_url = b.upstream_token_url;
  client_secret = b.client_secret;
  allowed_redirect_hosts = b.allowed_redirect_hosts;
}

module _ {web : Web} {V M : Type 0} (k : Packages web V M) where
  unfoldable pub to_mcp : Handler web V M
  to_mcp info r = mcp (k.mcp_handler info r)

  -- The handler that is mounted for a route.
  unfoldable pub serve_route : ProxyConfig → Route → HttpRequest web V → HttpResponse V M
  serve_route p metadata r = broker_page (handle_auth_server_metadata p r.parts.method)
  serve_route p register r = broker_page (handle_register p r.parts.method r.decode)
  serve_route p authorize r = flow_page (handle_authorize web p r.now r.nonce r.parts)
  serve_route p callback r = flow_page (handle_callback web p r.now r.parts)
  serve_route p token r = flow_page (handle_token web p (r.exchange p.upstream_token_url) r.parts).0

  unfoldable pub dispatch : ProxyConfig → Handler web V M → Option Route → Handler web V M
  dispatch p rest none info r = rest info r
  dispatch p rest (some route) info r = serve_route p route r

  -- The mux: a path that is not clean is redirected, a mounted path has its handler, and any other
  -- goes to the handler of "/".
  unfoldable pub mux : ProxyConfig → Handler web V M → Handler web V M
  mux p rest info r =
      if not (equal r.parts.method (codes "CONNECT")) && not (equal (k.clean_path r.path) r.path)
      then moved (k.clean_path r.path)
      else dispatch p rest (route_of r.path routes) info r

  unfoldable pub gate_of : Option Verifier → Built (Handler web V M → Handler web V M)
  gate_of none = aborted no_discovery
  gate_of (some v) = built (k.require_bearer_token v.cfg.resource_uri (verify v.cfg v.check))

  -- `bearerGate`.
  unfoldable pub bearer_gate : OidcConfig → Built (Handler web V M → Handler web V M)
  unfolding gate_of
  bearer_gate oidc = gate_of (new_verifier k.discover oidc)

  unfoldable pub gated : Built (Handler web V M → Handler web V M) → Built (Handler web V M)
  gated (aborted e) = aborted e
  gated (built gate) = built (gate to_mcp)

  unfoldable pub behind_mux :
      (Handler web V M → Handler web V M) → Option ProxyConfig → Built (Handler web V M)
  behind_mux gate none = aborted no_random
  behind_mux gate (some proxy) = built (mux proxy (gate to_mcp))

  unfoldable pub with_broker :
      Option (Unit {0})
      → BrokerConfig
      → Built (Handler web V M → Handler web V M)
      → Built (Handler web V M)
  with_broker drawn b (aborted e) = aborted e
  with_broker drawn b (built gate) = behind_mux gate (new_proxy drawn (proxy_config b))

  unfoldable pub build_for : Option (Unit {0}) → ServerConfig → AuthMode → Built (Handler web V M)
  build_for drawn cfg off = built to_mcp
  build_for drawn cfg bearer = gated (bearer_gate cfg.oidc)
  build_for drawn cfg broker = with_broker drawn cfg.broker_config (bearer_gate cfg.oidc)

  -- `buildHTTPHandler`, with the random bytes for the key or the failure of their source. The mode
  -- is one of three, so its `default` case is never met.
  unfoldable pub build_http_handler : Option (Unit {0}) → ServerConfig → Built (Handler web V M)
  unfolding build_for
  build_http_handler drawn cfg = build_for drawn cfg cfg.auth_mode
