-- ===== src/Auth/Proxy/Flow.antt =====
-- internal/auth/broker_proxy.go: `HandleAuthorize`, `HandleCallback` and `HandleToken`.
pub mod Completes
pub mod Guarded
pub mod Relays
pub mod Starts
pub mod Values
pub mod Asked
pub mod Exchanged
use clickhouse_mcp.Auth.Proxy.Redirect.{RedirectCheck, safe, validate_client_redirect}
use clickhouse_mcp.Auth.Proxy.State.{Opened, opened, rejected, sign_state, verify_state}
use clickhouse_mcp.Auth.Proxy.{Web, ProxyConfig}
use clickhouse_mcp.Config.{is_unset}
use clickhouse_mcp.Prelude.{
  ℕ, Bool, true, false, ◌&&◌, ◌||◌, not, [], ◌∷◌, ◌++◌, Option, none, some, ltb, if◌then◌else◌,
}
use clickhouse_mcp.Text.{Text, codes, equal, contains, join, byte_length}

-- What a handler writes: an error, a redirect, an empty answer, or the upstream's answer.
pub data Response : Type 0 where
  failed : ℕ → Text → Response
  found : Text → Response
  no_body : ℕ → Response
  relayed : ℕ → Text → Response

abbrev pub max_oauth_field : ℕ
max_oauth_field = 4096

-- What the upstream's token endpoint answers to a form. `body` is what is read of it, up to 1 MiB,
-- and `none` where reading fails.
pub data Exchange : Type 0 where
  no_request no_answer : Exchange
  answered : (status : ℕ) (body : Option Text) → Exchange

unfoldable pub is_safe : RedirectCheck → Bool
is_safe safe = true
is_safe _ = false

module _ (web : Web) where
  -- What the handlers read of a request; `form` is `none` where `ParseForm` fails.
  pub record Request : Type 0 where
    pub method : Text
    pub query : web.Values
    pub form : Option web.Values

module _ (web : Web) (p : ProxyConfig) where
  abbrev pub callback_url : Text
  callback_url = p.public_url ++ codes "/oauth/callback"

  -- `uq.Set("scope", s)` where there are scopes.
  unfoldable pub with_scope : web.Values → web.Values
  with_scope uq =
      let s = join (codes " ") p.scopes in if is_unset s then uq else web.set (codes "scope") s uq

  unfoldable pub upstream_query : Text → Text → web.Values → web.Values
  upstream_query challenge signed uq = with_scope (
      web.set (codes "state") signed (
        web.set (codes "code_challenge_method") (codes "S256") (
          web.set (codes "code_challenge") challenge (
            web.set (codes "redirect_uri") callback_url (
              web.set (codes "response_type") (codes "code")
                (web.set (codes "client_id") p.client_id uq))))))

  unfoldable pub to_upstream : Text → Text → Option web.Url → Response
  unfolding upstream_query
  to_upstream challenge signed none = failed 500 (codes "internal error")
  to_upstream challenge signed (some up) =
      found (web.with_query up (upstream_query challenge signed (web.query up)))

  unfoldable pub start_flow : Text → Option Text → Response
  unfolding to_upstream
  start_flow challenge none = failed 500 (codes "internal error")
  start_flow challenge (some signed) = to_upstream challenge signed (web.parse p.upstream_auth_url)

  unfoldable pub has_challenge : web.Values → Bool
  has_challenge q =
      let challenge = web.get q (codes "code_challenge") in
      not (
        ltb max_oauth_field (byte_length challenge)
        || is_unset challenge
        || not (equal (web.get q (codes "code_challenge_method")) (codes "S256")))

  -- `HandleAuthorize` at a time, with a nonce or the failure of the random source.
  unfoldable pub handle_authorize : ℕ → Option Text → Request web → Response
  handle_authorize now nonce r =
      let client_redirect = web.get r.query (codes "redirect_uri") in
      if not (equal r.method (codes "GET"))
      then failed 405 (codes "method not allowed")
      else if not (is_safe (validate_client_redirect web p.allowed_redirect_hosts client_redirect))
      then failed 400 (codes "invalid redirect_uri")
      else if not (has_challenge r.query)
      then failed 400 (codes "PKCE S256 code_challenge required")
      else start_flow (web.get r.query (codes "code_challenge"))
          (sign_state web now nonce client_redirect (web.get r.query (codes "state")))

  unfoldable pub with_state : Text → web.Values → web.Values
  with_state client_state dq =
      if is_unset client_state then dq else web.set (codes "state") client_state dq

  unfoldable pub to_client : Text → Text → Option web.Url → Response
  to_client code client_state none = failed 400 (codes "invalid state redirect")
  to_client code client_state (some dest) =
      found (
        web.with_query dest
          (with_state client_state (web.set (codes "code") code (web.query dest))))

  unfoldable pub end_flow : Text → Opened → Response
  unfolding to_client
  end_flow code (rejected e) = failed 400 (codes "invalid state")
  end_flow code (opened client_redirect client_state) =
      if is_safe (validate_client_redirect web p.allowed_redirect_hosts client_redirect)
      then to_client code client_state (web.parse client_redirect)
      else failed 400 (codes "invalid state redirect")

  unfoldable pub is_bad_code : Text → Bool
  is_bad_code code = is_unset code || ltb max_oauth_field (byte_length code)

  -- `HandleCallback` at a time.
  unfoldable pub handle_callback : ℕ → Request web → Response
  handle_callback now r =
      let code = web.get r.query (codes "code") in
      if not (equal r.method (codes "GET"))
      then failed 405 (codes "method not allowed")
      else if not (is_unset (web.get r.query (codes "error")))
      then failed 400 (codes "upstream authorization failed")
      else if is_bad_code code
      then failed 400 (codes "missing code")
      else end_flow code (verify_state web now (web.get r.query (codes "state")))

  unfoldable pub with_refresh : Text → web.Values → web.Values
  with_refresh rt form = if is_unset rt then form else web.set (codes "refresh_token") rt form

  -- The form for the upstream.
  unfoldable pub token_form : web.Values → web.Values
  token_form post = with_refresh (web.get post (codes "refresh_token")) (
      web.set (codes "client_secret") p.client_secret (
        web.set (codes "client_id") p.client_id (
          web.set (codes "redirect_uri") callback_url (
            web.set (codes "code_verifier") (web.get post (codes "code_verifier")) (
              web.set (codes "code") (web.get post (codes "code"))
                (web.set (codes "grant_type") (web.get post (codes "grant_type")) web.empty))))))

  -- The answer to the client.
  unfoldable pub relay : Exchange → Response
  relay no_request = failed 500 (codes "internal error")
  relay no_answer = failed 502 (codes "upstream token exchange failed")
  relay (answered status none) = failed 502 (codes "upstream token exchange failed")
  relay (answered status (some body)) =
      if not (is_unset p.client_secret) && contains p.client_secret body
      then failed 502 (codes "upstream token exchange failed")
      else relayed status body

  unfoldable pub is_grant : Text → Bool
  is_grant grant = equal grant (codes "authorization_code") || equal grant (codes "refresh_token")

  -- The answer, and the form that the upstream is called with, if it is.
  unfoldable pub exchange_form : (Text → Exchange) → Option web.Values → Response × Option Text
  unfolding relay is_grant token_form
  exchange_form upstream none = (failed 400 (codes "invalid form"), none)
  exchange_form upstream (some post) =
      let form = web.encode (token_form post) in
      if is_grant (web.get post (codes "grant_type"))
      then (relay (upstream form), some form)
      else (failed 400 (codes "unsupported grant_type"), none)

  -- `HandleToken`.
  unfoldable pub handle_token : (Text → Exchange) → Request web → Response × Option Text
  unfolding exchange_form
  handle_token upstream r =
      if equal r.method (codes "OPTIONS")
      then (no_body 200, none)
      else if not (equal r.method (codes "POST"))
      then (failed 405 (codes "method not allowed"), none)
      else exchange_form upstream r.form
