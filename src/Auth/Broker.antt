-- ===== src/Auth/Broker.antt =====
-- internal/auth/broker.go: the metadata of the broker, the registration of clients and the routes.
pub mod Advertised
use clickhouse_mcp.Auth.Proxy.{ProxyConfig}
use clickhouse_mcp.Prelude.{
  ℕ, Bool, true, false, ◌||◌, List, [], ◌∷◌, ◌++◌, Option, none, some, if◌then◌else◌,
}
use clickhouse_mcp.Text.{Text, codes, equal}

-- A value of `map[string]any`, with the JSON values of a request's body among them.
pub data Field (V : Type 0) : Type 0 where
  text : Text → Field V
  texts : List Text → Field V
  given : V → Field V

abbrev pub Object : Type 0 → Type 0
Object V = List (Text × Field V)

-- What a handler writes: the status, the headers in order, and a JSON object or a message or
-- nothing.
pub data Body (V : Type 0) : Type 0 where
  json : Object V → Body V
  message : Text → Body V
  no_content : Body V

pub record Written (V : Type 0) : Type 0 where
  pub status : ℕ
  pub headers : List (Text × Text)
  pub body : Body V

-- `maxDCRBody`.
abbrev pub max_dcr_body : ℕ
max_dcr_body = 0x40000

-- The five endpoints.
pub data Route : Type 0 where
  metadata register authorize callback token : Route

-- `RegisterRoutes`, in order.
abbrev pub routes : List (Text × Route)
routes =
    (codes "/.well-known/oauth-authorization-server", metadata)
    ∷ (codes "/oauth/register", register)
    ∷ (codes "/oauth/authorize", authorize)
    ∷ (codes "/oauth/callback", callback)
    ∷ (codes "/oauth/token", token)
    ∷ []

-- `corsMetadata`.
unfoldable pub cors_metadata : Text → List (Text × Text)
cors_metadata methods =
    (codes "Access-Control-Allow-Origin", codes "*")
    ∷ (codes "Access-Control-Allow-Methods", methods)
    ∷ (codes "Access-Control-Allow-Headers", codes "Authorization, *")
    ∷ (codes "Access-Control-Max-Age", codes "86400")
    ∷ []

-- `http.Error`, behind headers that are set already.
unfoldable pub http_error : {V : Type 0} → List (Text × Text) → Text → ℕ → Written V
http_error headers what status = record { status = status; headers = headers; body = message what }

-- `writeJSONResponse`.
unfoldable pub write_json_response : {V : Type 0} → List (Text × Text) → ℕ → Object V → Written V
write_json_response headers status v = record {
  status = status;
  headers = headers ++ (codes "Content-Type", codes "application/json") ∷ [];
  body = json v;
}

unfoldable pub without_body : {V : Type 0} → List (Text × Text) → ℕ → Written V
without_body headers status = record { status = status; headers = headers; body = no_content }

module _ {V : Type 0} (b : ProxyConfig) where
  -- `authServerMetadata`.
  unfoldable pub auth_server_metadata : Object V
  auth_server_metadata =
      (codes "issuer", text b.public_url)
      ∷ (codes "authorization_endpoint", text (b.public_url ++ codes "/oauth/authorize"))
      ∷ (codes "token_endpoint", text (b.public_url ++ codes "/oauth/token"))
      ∷ (codes "registration_endpoint", text (b.public_url ++ codes "/oauth/register"))
      ∷ (codes "response_types_supported", texts (codes "code" ∷ []))
      ∷ (codes "response_modes_supported", texts (codes "query" ∷ []))
      ∷ (
        codes "grant_types_supported",
        texts (codes "authorization_code" ∷ codes "refresh_token" ∷ []),
      )
      ∷ (codes "token_endpoint_auth_methods_supported", texts (codes "none" ∷ []))
      ∷ (codes "code_challenge_methods_supported", texts (codes "S256" ∷ []))
      ∷ (codes "scopes_supported", texts b.scopes)
      ∷ []

  -- `resp[key] = v` for a key that the request has.
  unfoldable pub echo : Text → Option V → Object V
  echo key none = []
  echo key (some v) = (key, given v) ∷ []

  -- `dcrResponse`.
  unfoldable pub dcr_response : (Text → Option V) → Object V
  unfolding echo
  dcr_response req =
      (codes "client_id", text b.client_id)
      ∷ (codes "token_endpoint_auth_method", text (codes "none"))
      ∷ (codes "grant_types", texts (codes "authorization_code" ∷ codes "refresh_token" ∷ []))
      ∷ (codes "response_types", texts (codes "code" ∷ []))
      ∷ (echo (codes "redirect_uris") (req (codes "redirect_uris"))
          ++ echo (codes "client_name") (req (codes "client_name")))

  -- `HandleAuthServerMetadata`.
  unfoldable pub handle_auth_server_metadata : Text → Written V
  handle_auth_server_metadata method =
      let headers = cors_metadata (codes "GET, HEAD, OPTIONS") in
      if equal method (codes "OPTIONS") || equal method (codes "HEAD")
      then without_body headers 200
      else if equal method (codes "GET")
      then write_json_response
          (headers ++ (codes "Cache-Control", codes "public, max-age=300") ∷ []) 200
          auth_server_metadata
      else http_error headers (codes "method not allowed") 405

  -- The answer to a body, which is `none` where it is longer than the cap or cannot be decoded.
  unfoldable pub registered : List (Text × Text) → Option (Text → Option V) → Written V
  registered headers none = http_error headers (codes "invalid registration body") 400
  registered headers (some req) = write_json_response headers 201 (dcr_response req)

  -- `HandleRegister`. `decode` is what reading the body under a cap gives.
  unfoldable pub handle_register : Text → (ℕ → Option (Text → Option V)) → Written V
  unfolding registered
  handle_register method decode =
      let headers = cors_metadata (codes "POST, OPTIONS") in
      if equal method (codes "OPTIONS")
      then without_body headers 200
      else if equal method (codes "POST")
      then registered headers (decode max_dcr_body)
      else http_error headers (codes "method not allowed") 405

-- `NewProxy`: without random bytes for the key there is no proxy. The key itself is the one under
-- which the proxy's HMAC is taken.
unfoldable pub new_proxy : Option (Unit {0}) → ProxyConfig → Option ProxyConfig
new_proxy none cfg = none
new_proxy (some drawn) cfg = some cfg
