-- ===== src/Examples/ProxyWitnesses.antt =====
-- The theorems of the login flow at concrete inputs.
use clickhouse_mcp.Auth.Proxy.Flow.Guarded.{IsReturn, handle_callback-IsReturn}
use clickhouse_mcp.Auth.Proxy.Flow.Exchanged.{IsExchanged, handle_token-IsExchanged}
use clickhouse_mcp.Auth.Proxy.Flow.Asked.{IsAsked, handle_authorize-IsAsked}
use clickhouse_mcp.Auth.Proxy.Flow.{
  handle_authorize, has_challenge, start_flow, to_upstream, upstream_query, with_scope, found,
  relayed, Exchange, answered, is_safe, Request, to_client, with_state, end_flow, is_bad_code,
  handle_callback, token_form, with_refresh, relay, is_grant, exchange_form, handle_token,
}
use clickhouse_mcp.Auth.Proxy.Redirect.Safe.{IsSafe, validate_client_redirect-IsSafe}
use clickhouse_mcp.Auth.Proxy.Redirect.{
  safe, validate_client_redirect, check_url, check_host, is_allowed_host, is_loopback_host,
}
use clickhouse_mcp.Auth.Proxy.State.Signed.{
  IsGenuine, verify_state-IsGenuine, verify_state-sign_state,
}
use clickhouse_mcp.Auth.Proxy.State.{
  opened, is_stale, mac_of, state_mac, packed, sign_with, sign_state, check_state, check_parsed,
  check_raw, verify_state,
}
use clickhouse_mcp.Config.{is_unset}
use clickhouse_mcp.Examples.MockWeb.{
  small_web, small_web-ReadsBack, small_web-SetsValues, small_proxy,
}
use clickhouse_mcp.Prelude.{[], ◌∷◌, ◌++◌, length, none, some, ◌≡◌, refl, arith}
use clickhouse_mcp.Text.{Text, codes, equal, join, ends_with, contains, starts_with, byte_length}

abbrev pub page : Text
page = codes "https://a.ai/cb"

-- A state that was signed half a second before the third second of 1970 ends.
abbrev data_text : Text → Text
data_text sig =
    15 ∷ (page ++ (2 ∷ (codes "st" ++ (1 ∷ (codes "n" ++ (length sig ∷ (sig ++ (0 ∷ 2 ∷ []))))))))

abbrev pub blob : Text
blob = data_text (data_text [])

signs : sign_state small_web 2500000000 (some (codes "n")) page (codes "st") ≡ some blob
unfolding sign_state sign_with packed state_mac mac_of
signs = refl

opens : verify_state small_web 602000000000 blob ≡ opened page (codes "st")
unfolding verify_state check_raw check_parsed check_state state_mac mac_of is_stale equal
opens = refl

verify_state-sign_state_example :
    verify_state small_web 602000000000 blob ≡ opened page (codes "st")
verify_state-sign_state_example =
    verify_state-sign_state small_web 2500000000 602000000000 (codes "n") page (codes "st") blob
      small_web-ReadsBack (omega arith) (omega arith) signs

verify_state-IsGenuine_example : IsGenuine small_web 602000000000 blob page (codes "st")
verify_state-IsGenuine_example =
    verify_state-IsGenuine small_web 602000000000 blob page (codes "st") opens

page_safe : validate_client_redirect small_web (codes "a.ai" ∷ []) page ≡ safe
unfolding validate_client_redirect check_url check_host is_allowed_host is_loopback_host is_unset
    equal ends_with
page_safe = refl

validate_client_redirect-IsSafe_example : IsSafe small_web (codes "a.ai" ∷ []) page
validate_client_redirect-IsSafe_example =
    validate_client_redirect-IsSafe small_web (codes "a.ai" ∷ []) page page_safe

abbrev callback : Request small_web
callback = record {
  method = codes "GET";
  query = (codes "code", codes "k") ∷ (codes "state", blob) ∷ [];
  form = none;
}

calls_back : handle_callback small_web small_proxy 602000000000 callback ≡ found (codes "a.aik")
unfolding handle_callback is_bad_code byte_length end_flow to_client with_state is_safe is_unset
    equal ends_with validate_client_redirect check_url check_host is_allowed_host is_loopback_host
    verify_state check_raw check_parsed check_state state_mac mac_of is_stale
calls_back = refl

handle_callback-IsReturn_example :
    IsReturn small_web small_proxy 602000000000 callback (codes "a.aik")
handle_callback-IsReturn_example =
    handle_callback-IsReturn small_web small_proxy 602000000000 callback (codes "a.aik") calls_back

abbrev refresh : Request small_web
refresh = record {
  method = codes "POST";
  query = [];
  form = some ((codes "grant_type", codes "refresh_token") ∷ []);
}

abbrev token_answer : Text → Exchange
token_answer form = answered 200 (some (codes "token"))

relays : (handle_token small_web small_proxy token_answer refresh).0 ≡ relayed 200 (codes "token")
unfolding handle_token exchange_form is_grant token_form with_refresh relay is_unset equal contains
    starts_with
relays = refl

handle_token-IsExchanged_example :
    IsExchanged small_web small_proxy token_answer refresh 200 (codes "token")
handle_token-IsExchanged_example =
    handle_token-IsExchanged small_web small_proxy token_answer refresh 200 (codes "token")
      small_web-SetsValues relays

abbrev authorize : Request small_web
authorize = record {
  method = codes "GET";
  query =
      (codes "redirect_uri", page)
      ∷ (codes "state", codes "st")
      ∷ (codes "code_challenge", codes "x")
      ∷ (codes "code_challenge_method", codes "S256")
      ∷ [];
  form = none;
}

starts :
    handle_authorize small_web small_proxy 2500000000 (some (codes "n")) authorize
    ≡ found (codes "m.up")
unfolding handle_authorize has_challenge start_flow to_upstream upstream_query with_scope join
    byte_length is_safe is_unset equal ends_with validate_client_redirect check_url check_host
    is_allowed_host is_loopback_host sign_state sign_with packed state_mac mac_of
starts = refl

handle_authorize-IsAsked_example :
    IsAsked small_web small_proxy 2500000000 602000000000 authorize (codes "m.up")
handle_authorize-IsAsked_example =
    handle_authorize-IsAsked small_web small_proxy small_web-SetsValues 2500000000 602000000000
      (some (codes "n")) authorize (codes "m.up") small_web-ReadsBack (omega arith) (omega arith)
      starts
