-- ===== src/Config/Load.antt =====
-- internal/config/config.go: the loader, from the provider's presets up to `Load`.
use clickhouse_mcp.Config.Numbers.{fields}
use clickhouse_mcp.Config.{
  Env, Transport, AuthMode, Loaded, AccessPolicy, OidcConfig, BrokerConfig, ServerConfig, Config,
  DerivedProvider, no_oidc, no_broker, is_unset, env_string, env_trimmed, env_int, env_bool,
  required, ok, err, ◌>>=◌, ◌>>◌, refuse_if, missing, port_out_of_range, unknown_transport,
  unknown_mode, unknown_provider, stdio, http, off, bearer, broker,
}
use clickhouse_mcp.Prelude.{
  Bool, false, ◌&&◌, not, List, [], ◌∷◌, ◌++◌, Option, none, some, ◌==◌, ltb, if◌then◌else◌, ℤ, pos,
  negsuc,
}
use clickhouse_mcp.Text.{Text, codes, equal, trim_space, trim_right, split}

-- `port >= 1 && port <= 65535`.
unfoldable pub is_port : ℤ → Bool
is_port (pos n) = ltb 0 n && ltb n 65536
is_port (negsuc n) = false

-- The parts of a list with commas, trimmed; an empty part is left out.
unfoldable pub host_names : List Text → List Text
host_names [] = []
host_names (h ∷ hs) =
    let rest = host_names hs in
    let name = trim_space h in if is_unset name then rest else name ∷ rest

unfoldable pub transport_of : Text → Loaded Transport
transport_of v =
    if equal v (codes "stdio")
    then ok stdio
    else if equal v (codes "http")
    then ok http
    else err (unknown_transport v)

unfoldable pub mode_of : Text → Loaded AuthMode
mode_of v =
    if equal v (codes "off")
    then ok off
    else if equal v (codes "bearer")
    then ok bearer
    else if equal v (codes "broker")
    then ok broker
    else err (unknown_mode v)

module _ (env : Env) where
  -- `deriveEntra`.
  unfoldable pub derive_entra : Loaded DerivedProvider
  derive_entra = do
    tenant ← required env (codes "AZURE_TENANT_ID")
    client_id ← required env (codes "AZURE_CLIENT_ID")
    client_secret ← required env (codes "AZURE_CLIENT_SECRET")
    let base = codes "https://login.microsoftonline.com" ++ (codes "/" ++ tenant)
    ok (record {
      issuer = base ++ codes "/v2.0";
      resource_uri = trim_space (env_string env (codes "MCP_RESOURCE_URI") client_id);
      authorize_url = base ++ codes "/oauth2/v2.0/authorize";
      token_url = base ++ codes "/oauth2/v2.0/token";
      client_id = client_id;
      client_secret = client_secret;
    })

  -- `deriveGoogle`.
  unfoldable pub derive_google : Loaded DerivedProvider
  derive_google = do
    client_id ← required env (codes "GOOGLE_CLIENT_ID")
    client_secret ← required env (codes "GOOGLE_CLIENT_SECRET")
    ok (record {
      issuer = codes "https://accounts.google.com";
      resource_uri = trim_space (env_string env (codes "MCP_RESOURCE_URI") client_id);
      authorize_url = codes "https://accounts.google.com" ++ codes "/o/oauth2/v2/auth";
      token_url = codes "https://oauth2.googleapis.com" ++ codes "/token";
      client_id = client_id;
      client_secret = client_secret;
    })

  unfoldable pub named : Loaded DerivedProvider → Loaded (Option DerivedProvider)
  named m = do p ← m; ok (some p)

  -- `deriveProvider`.
  unfoldable pub derive_provider : Loaded (Option DerivedProvider)
  unfolding named
  derive_provider =
      let provider = trim_space (env_string env (codes "MCP_BROKER_PROVIDER") (codes "generic")) in
      if equal provider (codes "generic")
      then ok none
      else if equal provider (codes "entra")
      then named derive_entra
      else if equal provider (codes "google")
      then named derive_google
      else err (unknown_provider provider)

  -- `loadAccessPolicy`.
  unfoldable pub load_access_policy : Loaded AccessPolicy
  load_access_policy = do
    let required_claim = env_trimmed env (codes "OIDC_REQUIRED_CLAIM")
    let required_value = env_string env (codes "OIDC_REQUIRED_VALUE") []
    refuse_if (not (is_unset required_claim) && is_unset required_value)
        (missing (codes "OIDC_REQUIRED_VALUE"))
    ok (record {
      identity_claim = env_string env (codes "OIDC_IDENTITY_CLAIM") (codes "email");
      required_claim = required_claim;
      required_value = required_value;
    })

  unfoldable pub issuer_of : Option DerivedProvider → Text
  issuer_of none = env_trimmed env (codes "OIDC_ISSUER")
  issuer_of (some d) = d.issuer

  unfoldable pub resource_uri_of : Option DerivedProvider → Text
  resource_uri_of none = env_trimmed env (codes "MCP_RESOURCE_URI")
  resource_uri_of (some d) = d.resource_uri

  -- `loadOIDC`.
  unfoldable pub load_oidc : Option DerivedProvider → Loaded OidcConfig
  load_oidc derived = do
    let issuer = issuer_of derived
    let resource_uri = resource_uri_of derived
    refuse_if (is_unset issuer) (missing (codes "OIDC_ISSUER"))
    refuse_if (is_unset resource_uri) (missing (codes "MCP_RESOURCE_URI"))
    policy ← load_access_policy
    ok (record { issuer = issuer; resource_uri = resource_uri; access_policy = policy })

  -- The client's credentials and the upstream endpoints of `loadBroker`, beside the public URL.
  unfoldable pub broker_with : Text → Text → Text → Text → Text → BrokerConfig
  broker_with public_url client_id client_secret auth_url token_url = record {
    public_url = trim_right (◌==◌ b'/') public_url;
    client_id = client_id;
    client_secret = client_secret;
    upstream_auth_url = auth_url;
    upstream_token_url = token_url;
    allowed_redirect_hosts =
        host_names (split b',' (env_string env (codes "MCP_ALLOWED_REDIRECT_HOSTS") []));
    scopes = fields (env_string env (codes "OIDC_SCOPES") (codes "openid profile email"));
  }

  unfoldable pub with_credentials : Text → Option DerivedProvider → Loaded BrokerConfig
  with_credentials public_url (some d) =
      ok (broker_with public_url d.client_id d.client_secret d.authorize_url d.token_url)
  with_credentials public_url none = do
    client_id ← required env (codes "OIDC_CLIENT_ID")
    client_secret ← required env (codes "OIDC_CLIENT_SECRET")
    auth_url ← required env (codes "OIDC_AUTHORIZE_URL")
    token_url ← required env (codes "OIDC_TOKEN_URL")
    ok (broker_with public_url client_id client_secret auth_url token_url)

  -- `loadBroker`.
  unfoldable pub load_broker : Option DerivedProvider → Loaded BrokerConfig
  load_broker derived = do
    public_url ← required env (codes "MCP_PUBLIC_URL")
    with_credentials public_url derived

  unfoldable pub server_with : Transport → AuthMode → OidcConfig → BrokerConfig → ServerConfig
  server_with transport mode settings upstream = record {
    transport = transport;
    http_addr = env_string env (codes "MCP_HTTP_ADDR") (codes ":8080");
    auth_mode = mode;
    oidc = settings;
    broker_config = upstream;
  }

  -- What `loadServer` does in each mode.
  unfoldable pub load_mode : Transport → AuthMode → Loaded ServerConfig
  load_mode transport off = ok (server_with transport off no_oidc no_broker)
  load_mode transport bearer = do
    oidc ← load_oidc none
    ok (server_with transport bearer oidc no_broker)
  load_mode transport broker = do
    derived ← derive_provider
    oidc ← load_oidc derived
    settings ← load_broker derived
    ok (server_with transport broker oidc settings)

  -- `loadServer`.
  unfoldable pub load_server : Loaded ServerConfig
  load_server = do
    transport ← transport_of (env_string env (codes "MCP_TRANSPORT") (codes "stdio"))
    mode ← mode_of (env_string env (codes "MCP_AUTH_MODE") (codes "off"))
    load_mode transport mode

  -- `Load`.
  unfoldable pub load : Loaded Config
  load = do
    port ← env_int env (codes "CLICKHOUSE_PORT") (pos 9000)
    refuse_if (not (is_port port)) (port_out_of_range port)
    secure ← env_bool env (codes "CLICKHOUSE_SECURE") false
    server ← load_server
    ok (record {
      host = env_string env (codes "CLICKHOUSE_HOST") (codes "localhost");
      port = port;
      user = env_string env (codes "CLICKHOUSE_USER") (codes "default");
      password = env_string env (codes "CLICKHOUSE_PASSWORD") [];
      database = env_string env (codes "CLICKHOUSE_DATABASE") (codes "default");
      secure = secure;
      server = server;
    })
