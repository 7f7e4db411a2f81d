-- ===== src/Command/Gated.antt =====
-- Who reaches the MCP handler over HTTP, and who reaches the pages of the broker.
use clickhouse_mcp.Auth.Broker.{Route, metadata, register, authorize, callback, token, routes}
use clickhouse_mcp.Auth.Proxy.{Web, ProxyConfig}
use clickhouse_mcp.Auth.Verifier.Accepts.{IsAccepted, verify-IsAccepted}
use clickhouse_mcp.Auth.Verifier.{
  TokenCheck, TokenInfo, Verdict, accepted, verify, provided, new_verifier,
}
use clickhouse_mcp.Command.{
  HttpRequest, HttpResponse, mcp, unauthorized, moved, Handler, Packages, Built, built, aborted,
  route_of, to_mcp, serve_route, dispatch, mux, gate_of, bearer_gate, gated, behind_mux,
  with_broker, build_for, build_http_handler,
}
use clickhouse_mcp.Config.Load.{load}
use clickhouse_mcp.Config.Settings.{IsVerifiable}
use clickhouse_mcp.Config.Valid.{IsComplete, load-IsComplete}
use clickhouse_mcp.Config.{
  Env, Config, OidcConfig, BrokerConfig, ServerConfig, AuthMode, off, bearer, broker, ok,
}
use clickhouse_mcp.Prelude.{
  Bool, true, false, Option, none, some, ◌≡◌, ◌≢◌, refl, sym, subst, ◌∙◌, if◌then◌else◌,
}
use clickhouse_mcp.Text.{Text}

module _ {web : Web} {V M : Type 0} (k : Packages web V M) where
  -- What a middleware does with a request: it refuses it, or the request presents a token that the
  -- verifier accepts, and is passed on with the token's information.
  pub data Guards (v : Text → Verdict) (h : Handler web V M) (r : HttpRequest web V)
      (x : HttpResponse V M) : Type 0 where
    refuses : x ≡ unauthorized → Guards v h r x
    passes :
        (presented : Text) (info : TokenInfo)
        → k.presented_token r ≡ some presented
        → v presented ≡ accepted info
        → x ≡ h (some info) r
        → Guards v h r x

  -- What the MCP library says of `RequireBearerToken`.
  abbrev pub RequiresToken : Type 0
  RequiresToken =
      (url : Text) (v : Text → Verdict) (h : Handler web V M) (info : Option TokenInfo)
      (r : HttpRequest web V)
      → Guards v h r (k.require_bearer_token url v h info r)

  -- Why the MCP handler may answer a request: the request presents a token that is accepted under
  -- the settings, by the check of their issuer, and the answer is made with its information.
  pub record IsAuthorized (oidc : OidcConfig) (r : HttpRequest web V) (m : M) : Type 0 where
    pub presented : Text
    pub info : TokenInfo
    pub check : TokenCheck
    pub found_at : k.presented_token r ≡ some presented
    pub discovered : k.discover oidc.issuer ≡ some check
    pub is_accepted : IsAccepted oidc check presented info
    pub answer_is : m ≡ k.mcp_handler (some info) r

  provided_sound :
      (oidc : OidcConfig) (o : Option TokenCheck) (g : Handler web V M → Handler web V M)
      → gate_of k (provided oidc o) ≡ built g
      → (check : TokenCheck) × (o ≡ some check)
        × (k.require_bearer_token oidc.resource_uri (verify oidc check) ≡ g)
  unfolding gate_of provided
  provided_sound oidc none g h = cc
  provided_sound oidc (some check) g h = (check, refl, cc h)

  -- The gate lets nothing through to the MCP handler but what is authorized.
  gate_sound :
      (oidc : OidcConfig) (g : Handler web V M → Handler web V M) (r : HttpRequest web V) (m : M)
      → RequiresToken
      → bearer_gate k oidc ≡ built g
      → g (to_mcp k) none r ≡ mcp m
      → IsAuthorized oidc r m
  unfolding bearer_gate new_verifier
  gate_sound oidc g r m requires h e =
      let (check, discovered, same) = provided_sound oidc (k.discover oidc.issuer) g h in
      by_guard check discovered (
        subst (λ y. Guards (verify oidc check) (to_mcp k) r (y (to_mcp k) none r)) same
          (requires oidc.resource_uri (verify oidc check) (to_mcp k) none r))
    where
      answered :
          (info : TokenInfo) → mcp m ≡ to_mcp k (some info) r → m ≡ k.mcp_handler (some info) r
      answered info q = unfold to_mcp in (cc q)

      by_guard :
          (check : TokenCheck)
          → k.discover oidc.issuer ≡ some check
          → Guards (verify oidc check) (to_mcp k) r (g (to_mcp k) none r)
          → IsAuthorized oidc r m
      by_guard check discovered (refuses q) = cc (sym e ∙ q)
      by_guard check discovered (passes presented info found verdict q) = record {
        presented = presented;
        info = info;
        check = check;
        found_at = found;
        discovered = discovered;
        is_accepted = (verify-IsAccepted oidc check presented info).0 verdict;
        answer_is = answered info (sym e ∙ q);
      }

  -- The broker's pages are no answers of the MCP handler.
  serve_route-ne-mcp :
      (p : ProxyConfig) (route : Route) (r : HttpRequest web V) (m : M)
      → serve_route k p route r ≢ mcp m
  unfolding serve_route
  serve_route-ne-mcp p metadata r m e = cc
  serve_route-ne-mcp p register r m e = cc
  serve_route-ne-mcp p authorize r m e = cc
  serve_route-ne-mcp p callback r m e = cc
  serve_route-ne-mcp p token r m e = cc

  mux_sound :
      (p : ProxyConfig) (rest : Handler web V M) (r : HttpRequest web V) (m : M)
      → mux k p rest none r ≡ mcp m
      → rest none r ≡ mcp m
  unfolding mux dispatch
  mux_sound p rest r m e = by_clean _ (route_of r.path routes) e
    where
      by_clean :
          (b : Bool) (o : Option Route)
          → (if b then moved (k.clean_path r.path) else dispatch k p rest o none r) ≡ mcp m
          → rest none r ≡ mcp m
      by_clean true o e = cc
      by_clean false none e = e
      by_clean false (some route) e = absurd (serve_route-ne-mcp p route r m e)

  gated_sound :
      (o : Built (Handler web V M → Handler web V M)) (h : Handler web V M)
      → gated k o ≡ built h
      → (g : Handler web V M → Handler web V M) × (o ≡ built g) × (g (to_mcp k) ≡ h)
  unfolding gated
  gated_sound (aborted e) h q = cc
  gated_sound (built g) h q = (g, refl, cc q)

  behind_mux_sound :
      (g : Handler web V M → Handler web V M) (o : Option ProxyConfig) (h : Handler web V M)
      → behind_mux k g o ≡ built h
      → (p : ProxyConfig) × (mux k p (g (to_mcp k)) ≡ h)
  unfolding behind_mux
  behind_mux_sound g none h q = cc
  behind_mux_sound g (some p) h q = (p, cc q)

  with_broker_sound :
      (drawn : Option (Unit {0})) (b : BrokerConfig) (o : Built (Handler web V M → Handler web V M))
      (h : Handler web V M)
      → with_broker k drawn b o ≡ built h
      → (g : Handler web V M → Handler web V M) × (o ≡ built g)
        × ((p : ProxyConfig) × (mux k p (g (to_mcp k)) ≡ h))
  unfolding with_broker
  with_broker_sound drawn b (aborted e) h q = cc
  with_broker_sound drawn b (built g) h q = (g, refl, behind_mux_sound g _ h q)

  -- In the modes with a gate, whatever the MCP handler answers is authorized.
  build_for_sound :
      (drawn : Option (Unit {0})) (cfg : ServerConfig) (mode : AuthMode) (h : Handler web V M)
      (r : HttpRequest web V) (m : M)
      → RequiresToken
      → mode ≢ off
      → build_for k drawn cfg mode ≡ built h
      → h none r ≡ mcp m
      → IsAuthorized cfg.oidc r m
  unfolding build_for
  build_for_sound drawn cfg off h r m requires gate q e = absurd (gate refl)
  build_for_sound drawn cfg bearer h r m requires gate q e =
      let (g, is_gate, same) = gated_sound (bearer_gate k cfg.oidc) h q in
      gate_sound cfg.oidc g r m requires is_gate (subst (λ y. y none r ≡ mcp m) (sym same) e)
  build_for_sound drawn cfg broker h r m requires gate q e =
      let (g, is_gate, (p, same)) =
        with_broker_sound drawn cfg.broker_config (bearer_gate k cfg.oidc) h q in
      gate_sound cfg.oidc g r m requires is_gate
        (mux_sound p (g (to_mcp k)) r m (subst (λ y. y none r ≡ mcp m) (sym same) e))

  -- Where the settings come from `Load` with auth on, and the handler that is built from them lets
  -- a request through to the MCP handler, the request presents a token that go-oidc verified for
  -- the configured issuer, whose audience has the configured resource URI, which is not empty, and
  -- which passes the configured gate; the session has the token's user. So says the library's
  -- contract of its middleware, and no path or method is an exception.
  pub load-IsAuthorized :
      (env : Env) (c : Config) (drawn : Option (Unit {0})) (h : Handler web V M)
      (r : HttpRequest web V) (m : M)
      → RequiresToken
      → load env ≡ ok c
      → c.server.auth_mode ≢ off
      → build_http_handler k drawn c.server ≡ built h
      → h none r ≡ mcp m
      → IsAuthorized c.server.oidc r m × IsVerifiable c.server.oidc
  unfolding build_http_handler
  load-IsAuthorized env c drawn h r m requires loaded gate q e = (
    build_for_sound drawn c.server c.server.auth_mode h r m requires gate q e,
    by_mode c.server.auth_mode gate (load-IsComplete env c loaded).1,
  )
    where
      by_mode :
          (mode : AuthMode) → mode ≢ off → IsComplete mode c.server → IsVerifiable c.server.oidc
      by_mode off gate s = absurd (gate refl)
      by_mode bearer gate s = unfold IsComplete in s.0
      by_mode broker gate s = unfold IsComplete in s.0
