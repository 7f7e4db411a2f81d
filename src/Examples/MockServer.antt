-- ===== src/Examples/MockServer.antt =====
-- An environment of a broker in front of Entra, and a check of tokens that knows one token.
use clickhouse_mcp.Auth.Verifier.{absent, string, Claims, TokenCheck, TokenInfo}
use clickhouse_mcp.Config.Load.{
  is_port, broker_with, with_credentials, load_broker, server_with, load_mode, load_server, load,
  load_oidc, load_access_policy, derive_provider, derive_entra, named, issuer_of, resource_uri_of,
  transport_of, mode_of, host_names,
}
use clickhouse_mcp.Config.Numbers.{
  atoi, read_number, read_digits, as_positive, fields, words_at, no_empty, close_word,
}
use clickhouse_mcp.Config.{
  Env, Config, OidcConfig, BrokerConfig, is_unset, or_default, env_string, env_trimmed, env_int,
  int_or, int_of, env_bool, bool_or, required, ok, ◌>>=◌, ◌>>◌, refuse_if, http, broker,
}
use clickhouse_mcp.Prelude.{false, List, [], ◌∷◌, none, some, ◌≡◌, refl, pos, if◌then◌else◌}
use clickhouse_mcp.Text.{
  Text, codes, equal, trim_space, trim_left, trim_right, keep_right, is_space, split, onto_first,
}

abbrev lookup : List (Text × Text) → Env
lookup [] key = none
lookup ((k, v) ∷ vars) key = if equal k key then some v else lookup vars key

-- A broker in front of Entra.
abbrev pub entra : Env
entra = lookup (
    (codes "CLICKHOUSE_PORT", codes "9440")
    ∷ (codes "MCP_TRANSPORT", codes "http")
    ∷ (codes "MCP_AUTH_MODE", codes "broker")
    ∷ (codes "MCP_BROKER_PROVIDER", codes "entra")
    ∷ (codes "AZURE_TENANT_ID", codes " t ")
    ∷ (codes "AZURE_CLIENT_ID", codes "c")
    ∷ (codes "AZURE_CLIENT_SECRET", codes "s")
    ∷ (codes "MCP_PUBLIC_URL", codes "https://m/")
    ∷ (codes "MCP_ALLOWED_REDIRECT_HOSTS", codes "a.ai, ,b.ai")
    ∷ (codes "OIDC_SCOPES", codes "openid email")
    ∷ [])

abbrev pub entra_oidc : OidcConfig
entra_oidc = record {
  issuer = codes "https://login.microsoftonline.com/t/v2.0";
  resource_uri = codes "c";
  access_policy = record {
    identity_claim = codes "email";
    required_claim = [];
    required_value = [];
  };
}

abbrev pub entra_broker : BrokerConfig
entra_broker = record {
  public_url = codes "https://m";
  client_id = codes "c";
  client_secret = codes "s";
  upstream_auth_url = codes "https://login.microsoftonline.com/t/oauth2/v2.0/authorize";
  upstream_token_url = codes "https://login.microsoftonline.com/t/oauth2/v2.0/token";
  allowed_redirect_hosts = codes "a.ai" ∷ codes "b.ai" ∷ [];
  scopes = codes "openid" ∷ codes "email" ∷ [];
}

abbrev pub entra_config : Config
entra_config = record {
  host = codes "localhost";
  port = pos 9440;
  user = codes "default";
  password = [];
  database = codes "default";
  secure = false;
  server = record {
    transport = http;
    http_addr = codes ":8080";
    auth_mode = broker;
    oidc = entra_oidc;
    broker_config = entra_broker;
  };
}

pub entra_loads : load entra ≡ ok entra_config
unfolding load is_port broker_with with_credentials load_broker server_with load_mode load_server
    load_oidc load_access_policy derive_provider derive_entra named issuer_of resource_uri_of
    transport_of mode_of host_names atoi read_number read_digits as_positive fields words_at
    no_empty close_word is_unset or_default env_string env_trimmed env_int int_or int_of env_bool
    bool_or required ◌>>=◌ ◌>>◌ refuse_if equal trim_space trim_left trim_right keep_right is_space
    split onto_first
entra_loads = refl

-- go-oidc verifies the token "good", which was minted for this server.
abbrev pub ada : Claims
ada key = if equal key (codes "email") then string (codes " ada ") else absent

abbrev pub good : TokenCheck
good token =
    if equal token (codes "good")
    then some (record { audience = codes "c" ∷ []; expiry = 9; claims = some ada })
    else none

abbrev pub ada_info : TokenInfo
ada_info = record { user_id = codes "ada"; expiration = 9; extra = ada }
