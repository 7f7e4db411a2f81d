-- ===== src/Auth/Proxy/Redirect.antt =====
-- internal/auth/broker_proxy.go: `validateClientRedirect`.
pub mod Safe
use clickhouse_mcp.Auth.Proxy.{Web}
use clickhouse_mcp.Config.{is_unset}
use clickhouse_mcp.Prelude.{
  Bool, true, false, ◌&&◌, ◌||◌, not, List, [], ◌∷◌, ◌++◌, Option, none, some, if◌then◌else◌,
}
use clickhouse_mcp.Text.{Text, codes, equal, ends_with}

-- The error, and `safe` for `nil`.
pub data RedirectCheck : Type 0 where
  safe missing unparseable bad_scheme has_fragment not_https host_refused : RedirectCheck

-- `isLoopbackHost`.
unfoldable pub is_loopback_host : Text → Bool
is_loopback_host host =
    equal host (codes "localhost") || equal host (codes "127.0.0.1") || equal host (codes "::1")

-- The loop over the allowed hosts.
unfoldable pub is_allowed_host : List Text → Text → Bool
is_allowed_host [] host = false
is_allowed_host (suffix ∷ suffixes) host =
    (equal host suffix || ends_with (codes "." ++ suffix) host) || is_allowed_host suffixes host

unfoldable pub check_host : List Text → Text → Text → RedirectCheck
check_host hosts scheme host =
    if equal scheme (codes "http") && not (is_loopback_host host)
    then not_https
    else if is_loopback_host host
    then safe
    else if is_allowed_host hosts host
    then safe
    else host_refused

module _ (web : Web) where
  unfoldable pub check_url : List Text → Option web.Url → RedirectCheck
  check_url hosts none = unparseable
  check_url hosts (some u) =
      if not (equal (web.scheme u) (codes "http")) && not (equal (web.scheme u) (codes "https"))
      then bad_scheme
      else if not (is_unset (web.fragment u))
      then has_fragment
      else check_host hosts (web.scheme u) (web.hostname u)

  -- `validateClientRedirect`.
  unfoldable pub validate_client_redirect : List Text → Text → RedirectCheck
  validate_client_redirect hosts raw =
      if is_unset raw then missing else check_url hosts (web.parse raw)
