-- ===== src/Auth/Proxy/Flow/Starts.antt =====
-- When a login starts, and with what.
use clickhouse_mcp.Auth.Proxy.Flow.{
  Response, failed, found, is_safe, Request, upstream_query, to_upstream, start_flow, has_challenge,
  handle_authorize,
}
use clickhouse_mcp.Auth.Proxy.Flow.Guarded.{is_safe-safe}
use clickhouse_mcp.Auth.Proxy.Redirect.Safe.{IsSafe, validate_client_redirect-IsSafe}
use clickhouse_mcp.Auth.Proxy.Redirect.{safe, validate_client_redirect}
use clickhouse_mcp.Auth.Proxy.State.{sign_state}
use clickhouse_mcp.Auth.Proxy.{Web, ProxyConfig}
use clickhouse_mcp.Prelude.{ℕ, Bool, true, false, not, Option, none, some, ◌≡◌, refl, if◌then◌else◌}
use clickhouse_mcp.Text.{Text, codes, equal, equal_iff}

-- Where the browser goes for a login, and why it may.
pub record IsStart (web : Web) (p : ProxyConfig) (now : ℕ) (drawn : Option Text) (r : Request web)
    (location : Text) : Type 0 where
  pub asked : r.method ≡ codes "GET"
  pub allowed : IsSafe web p.allowed_redirect_hosts (web.get r.query (codes "redirect_uri"))
  pub checked :
      validate_client_redirect web p.allowed_redirect_hosts (web.get r.query (codes "redirect_uri"))
      ≡ safe
  pub challenged : has_challenge web p r.query ≡ true
  pub blob : Text
  pub signed :
      sign_state web now drawn
        (web.get r.query (codes "redirect_uri"))
        (web.get r.query (codes "state"))
      ≡ some blob
  pub up : web.Url
  pub parsed : web.parse p.upstream_auth_url ≡ some up
  pub location_is :
      location
      ≡ web.with_query up
          (upstream_query web p (web.get r.query (codes "code_challenge")) blob (web.query up))

module _ (web : Web) (p : ProxyConfig) where
  unless_failed :
      (b : Bool) (code : ℕ) (message : Text) (d : Response) (location : Text)
      → (if not b then failed code message else d) ≡ found location
      → (b ≡ true) × (d ≡ found location)
  unless_failed true code message d location h = (refl, h)
  unless_failed false code message d location h = cc

  to_upstream_found :
      (challenge blob location : Text) (o : Option web.Url)
      → to_upstream web p challenge blob o ≡ found location
      → (up : web.Url) × (o ≡ some up)
        × (location ≡ web.with_query up (upstream_query web p challenge blob (web.query up)))
  unfolding to_upstream
  to_upstream_found challenge blob location none h = cc
  to_upstream_found challenge blob location (some up) h = (up, refl, cc h)

  start_flow_found :
      (challenge location : Text) (o : Option Text)
      → start_flow web p challenge o ≡ found location
      → (blob : Text) × (o ≡ some blob)
        × (to_upstream web p challenge blob (web.parse p.upstream_auth_url) ≡ found location)
  unfolding start_flow
  start_flow_found challenge location none h = cc
  start_flow_found challenge location (some blob) h = (blob, refl, h)

  -- If the proxy sends the browser to the upstream, then for a GET with a safe redirect and an S256
  -- challenge, and with a state in which it signed that redirect and the client's state.
  pub handle_authorize-IsStart :
      (now : ℕ) (drawn : Option Text) (r : Request web) (location : Text)
      → handle_authorize web p now drawn r ≡ found location
      → IsStart web p now drawn r location
  unfolding handle_authorize
  handle_authorize-IsStart now drawn r location h =
      let hosts = p.allowed_redirect_hosts in
      let client_redirect : Text = web.get r.query (codes "redirect_uri") in
      let (asked, h1) =
        unless_failed (equal r.method (codes "GET")) 405 (codes "method not allowed") _ location
          h in
      let (is_ok, h2) =
        unless_failed (is_safe (validate_client_redirect web hosts client_redirect)) 400
          (codes "invalid redirect_uri") _ location h1 in
      let (challenged, h3) =
        unless_failed (has_challenge web p r.query) 400 (codes "PKCE S256 code_challenge required")
          _ location h2 in
      let (blob, signed, h4) = start_flow_found _ location _ h3 in
      let (up, parsed, at) = to_upstream_found _ blob location _ h4 in
      record {
        asked = (equal_iff r.method (codes "GET")).0 asked;
        allowed = validate_client_redirect-IsSafe web hosts client_redirect (is_safe-safe _ is_ok);
        checked = is_safe-safe _ is_ok;
        challenged = challenged;
        blob = blob;
        signed = signed;
        up = up;
        parsed = parsed;
        location_is = at;
      }
