-- ===== src/Auth/Proxy.antt =====
-- internal/auth/broker_proxy.go: the login flow, with the packages net/url, encoding and crypto and
-- the upstream server as parameters.
pub mod State
pub mod Redirect
pub mod Flow
use clickhouse_mcp.Prelude.{ℕ, List, Option, ℤ}
use clickhouse_mcp.Text.{Text}

-- `stateData`.
pub record StateData : Type 0 where
  pub redirect : Text
  pub state : Text
  pub nonce : Text
  pub timestamp : ℤ
  pub sig : Text

-- The operations of other packages. `mac` is the HMAC under the key of the proxy, in hex.
pub record Web : Type 1 where
  pub Url : Type 0
  pub parse : Text → Option Url
  pub scheme : Url → Text
  pub fragment : Url → Text
  pub hostname : Url → Text
  pub Values : Type 0
  pub empty : Values
  pub get : Values → Text → Text
  pub set : Text → Text → Values → Values
  pub encode : Values → Text
  pub query : Url → Values
  pub with_query : Url → Values → Text
  pub marshal : StateData → Option Text
  pub unmarshal : Text → Option StateData
  pub encode64 : Text → Text
  pub decode64 : Text → Option Text
  pub mac : Text → Text

-- `ProxyConfig` with the fields of its `Broker` that the flow reads. The key is in `mac`.
pub record ProxyConfig : Type 0 where
  pub public_url : Text
  pub client_id : Text
  pub scopes : List Text
  pub upstream_auth_url : Text
  pub upstream_token_url : Text
  pub client_secret : Text
  pub allowed_redirect_hosts : List Text
