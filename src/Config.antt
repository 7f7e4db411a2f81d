-- ===== src/Config.antt =====
-- internal/config/config.go: the settings that the environment gives.
pub mod Numbers
pub mod Blames
pub mod Load
pub mod OnOk
pub mod Settings
pub mod Valid
use clickhouse_mcp.Config.Numbers.{atoi, parse_bool}
use clickhouse_mcp.Prelude.{
  ℕ, Bool, true, false, ◌&&◌, ◌||◌, not, List, [], ◌∷◌, ◌++◌, Option, none, some, ◌==◌, ltb,
  if◌then◌else◌, ℤ, pos, negsuc,
}
use clickhouse_mcp.Text.{Text, codes, equal, trim_space, trim_right, split, is_space}

-- The environment: `os.LookupEnv`.
abbrev pub Env : Type 0
Env = Text → Option Text

pub data Transport : Type 0 where
  stdio http : Transport

pub data AuthMode : Type 0 where
  off bearer broker : AuthMode

-- The messages of the errors, with the variable or the value that they name.
pub data ConfigError : Type 0 where
  not_a_number not_a_bool missing : Text → ConfigError
  port_out_of_range : ℤ → ConfigError
  unknown_transport unknown_mode unknown_provider : Text → ConfigError

pub data Loaded (A : Type 0) : Type 0 where
  ok : A → Loaded A
  err : ConfigError → Loaded A

infixl 5 ◌>>=◌ ◌>>◌
unfoldable pub ◌>>=◌ : {A B : Type 0} → Loaded A → (A → Loaded B) → Loaded B
ok a >>= k = k a
err e >>= k = err e

unfoldable pub ◌>>◌ : {B : Type 0} → Loaded (Unit {0}) → Loaded B → Loaded B
unfolding ◌>>=◌
m >> k = m >>= (λ _. k)

unfoldable pub refuse_if : Bool → ConfigError → Loaded (Unit {0})
refuse_if true e = err e
refuse_if false e = ok tt

-- `AccessPolicy`.
pub record AccessPolicy : Type 0 where
  pub identity_claim : Text
  pub required_claim : Text
  pub required_value : Text

-- `OIDCConfig`.
pub record OidcConfig : Type 0 where
  pub issuer : Text
  pub resource_uri : Text
  pub access_policy : AccessPolicy

-- `BrokerConfig`.
pub record BrokerConfig : Type 0 where
  pub public_url : Text
  pub client_id : Text
  pub client_secret : Text
  pub upstream_auth_url : Text
  pub upstream_token_url : Text
  pub allowed_redirect_hosts : List Text
  pub scopes : List Text

-- `ServerConfig`.
pub record ServerConfig : Type 0 where
  pub transport : Transport
  pub http_addr : Text
  pub auth_mode : AuthMode
  pub oidc : OidcConfig
  pub broker_config : BrokerConfig

-- `Config`.
pub record Config : Type 0 where
  pub host : Text
  pub port : ℤ
  pub user : Text
  pub password : Text
  pub database : Text
  pub secure : Bool
  pub server : ServerConfig

-- `derivedProvider`.
pub record DerivedProvider : Type 0 where
  pub issuer : Text
  pub resource_uri : Text
  pub authorize_url : Text
  pub token_url : Text
  pub client_id : Text
  pub client_secret : Text

-- The zero values of the two structs.
abbrev pub no_oidc : OidcConfig
no_oidc = record {
  issuer = [];
  resource_uri = [];
  access_policy = record { identity_claim = []; required_claim = []; required_value = [] };
}

abbrev pub no_broker : BrokerConfig
no_broker = record {
  public_url = [];
  client_id = [];
  client_secret = [];
  upstream_auth_url = [];
  upstream_token_url = [];
  allowed_redirect_hosts = [];
  scopes = [];
}

unfoldable pub is_unset : Text → Bool
is_unset v = equal v []

unfoldable pub or_default : Option Text → Text → Text
or_default none def = def
or_default (some v) def = v

module _ (env : Env) where
  -- `envString`.
  unfoldable pub env_string : Text → Text → Text
  unfolding or_default
  env_string key def = or_default (env key) def

  -- `strings.TrimSpace(envString(key, ""))`.
  unfoldable pub env_trimmed : Text → Text
  env_trimmed key = trim_space (env_string key [])

  unfoldable pub int_of : Text → Option ℤ → Loaded ℤ
  int_of key none = err (not_a_number key)
  int_of key (some n) = ok n

  unfoldable pub int_or : Text → ℤ → Option Text → Loaded ℤ
  unfolding int_of
  int_or key def none = ok def
  int_or key def (some v) = int_of key (atoi v)

  -- `envInt`.
  unfoldable pub env_int : Text → ℤ → Loaded ℤ
  unfolding int_or
  env_int key def = int_or key def (env key)

  unfoldable pub bool_of : Text → Option Bool → Loaded Bool
  bool_of key none = err (not_a_bool key)
  bool_of key (some b) = ok b

  unfoldable pub bool_or : Text → Bool → Option Text → Loaded Bool
  unfolding bool_of
  bool_or key def none = ok def
  bool_or key def (some v) = bool_of key (parse_bool v)

  -- `envBool`.
  unfoldable pub env_bool : Text → Bool → Loaded Bool
  unfolding bool_or
  env_bool key def = bool_or key def (env key)

  -- One key of `requireEnv`, and the closure `required` of `loadBroker`.
  unfoldable pub required : Text → Loaded Text
  required key = do let v = env_trimmed key; refuse_if (is_unset v) (missing key); ok v
