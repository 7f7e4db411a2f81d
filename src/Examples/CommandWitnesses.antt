-- ===== src/Examples/CommandWitnesses.antt =====
-- The theorems of the HTTP transport at concrete inputs: a broker in front of Entra.
use mathlib.Core.List.{Memᴰ}
use clickhouse_mcp.Auth.Broker.Advertised.{LeadsTo, Advertises, auth_server_metadata-LeadsTo}
use clickhouse_mcp.Auth.Broker.{authorize, register, token, routes, new_proxy}
use clickhouse_mcp.Auth.Proxy.Flow.{
  answered, relayed, handle_token, is_grant, has_challenge, exchange_form, token_form, with_refresh,
  relay,
}
use clickhouse_mcp.Auth.Verifier.{
  Verdict, accepted, refused, verify, check_audience, check_claims, check_identity, access_allowed,
  identity, first_usable, usable, has, provided, new_verifier,
}
use clickhouse_mcp.Command.Gated.{
  Guards, refuses, passes, RequiresToken, IsAuthorized, load-IsAuthorized,
}
use clickhouse_mcp.Command.Public.{load-no_secret}
use clickhouse_mcp.Command.Shutdown.Ends.{Explains, run_http-Explains}
use clickhouse_mcp.Command.Shutdown.Returns.{run_http-returned}
use clickhouse_mcp.Command.Shutdown.CalledOff.{seconds}
use clickhouse_mcp.Command.Shutdown.{
  Event, accept, cancel, second, turn, returned, run_http, on_event, while_running, on_running,
  on_turn, on_second, choose, take_cancel, start_drain, wait_drained,
}
use clickhouse_mcp.Command.{
  HttpRequest, HttpResponse, mcp, unauthorized, flow_page, Handler, Packages, built, to_mcp, mux,
  dispatch, route_of, proxy_config, build_http_handler, build_for, with_broker, behind_mux,
  bearer_gate, gate_of, serve_route,
}
use clickhouse_mcp.Config.Settings.{IsVerifiable}
use clickhouse_mcp.Config.{is_unset, broker, off}
use clickhouse_mcp.Examples.MockServer.{
  entra, entra_oidc, entra_broker, entra_config, entra_loads, good,
}
use clickhouse_mcp.Examples.MockWeb.{small_web, small_proxy}
use clickhouse_mcp.Prelude.{
  true, false, List, [], ◌∷◌, ◌++◌, Option, none, some, ◌≡◌, ◌≢◌, ◌↔◌, ◌⊎◌, refl, arith,
}
use clickhouse_mcp.Text.{
  Text, codes, equal, trim_space, trim_left, trim_right, keep_right, is_space, contains,
  starts_with,
}

auth_server_metadata-LeadsTo_example :
    (LeadsTo small_proxy (Unit {0}) (codes "authorization_endpoint") authorize
      × LeadsTo small_proxy (Unit {0}) (codes "token_endpoint") token
      × LeadsTo small_proxy (Unit {0}) (codes "registration_endpoint") register)
    × ((grants : List Text) × Advertises small_proxy
          (Unit {0})
          (codes "grant_types_supported")
          grants
        × ((is_grant small_web small_proxy (codes "password") ≡ true)
            ↔ Memᴰ (codes "password") grants))
    × ((methods : List Text) × Advertises small_proxy
          (Unit {0})
          (codes "code_challenge_methods_supported")
          methods
        × ((has_challenge small_web small_proxy [] ≡ false) ⊎ Memᴰ [] methods))
auth_server_metadata-LeadsTo_example =
    auth_server_metadata-LeadsTo small_web small_proxy (Unit {0}) (codes "password") []

abbrev Asked : Type 0
Asked = HttpRequest small_web (Unit {0})

abbrev Answers : Type 0
Answers = HttpResponse (Unit {0}) Text

abbrev token_of : Asked → Option Text
token_of r = some (small_web.get r.parts.query (codes "access_token"))

abbrev by_verdict : Verdict → Handler small_web (Unit {0}) Text → Asked → Answers
by_verdict (accepted info) h r = h (some info) r
by_verdict (refused why) h r = unauthorized

abbrev pub packages : Packages small_web (Unit {0}) Text
packages = record {
  presented_token = token_of;
  mcp_handler = λ info r. r.path;
  require_bearer_token =
      λ url v h info r. by_verdict (v (small_web.get r.parts.query (codes "access_token"))) h r;
  clean_path = λ p. p;
  discover = λ issuer. some good;
}

packages_require : RequiresToken packages
packages_require url v h info r = by_case (v t) refl
  where
    t : Text
    t = small_web.get r.parts.query (codes "access_token")

    by_case : (x : Verdict) → v t ≡ x → Guards packages v h r (by_verdict x h r)
    by_case (accepted i) e = passes t i refl e refl
    by_case (refused why) e = refuses refl

abbrev pub served : Handler small_web (Unit {0}) Text
served =
    mux packages (proxy_config entra_broker)
      (packages.require_bearer_token (codes "c") (verify entra_oidc good) (to_mcp packages))

served_built : build_http_handler packages (some tt) entra_config.server ≡ built served
unfolding build_http_handler build_for with_broker behind_mux bearer_gate gate_of new_verifier
    provided new_proxy
served_built = refl

-- A request of the client, for the MCP endpoint and for the token endpoint.
abbrev asked : Text → Text → small_web.Values → Asked
asked method path fields = record {
  path = path;
  parts = record { method = method; query = fields; form = some fields };
  now = 0;
  nonce = none;
  decode = λ cap. none;
  exchange = λ url form. answered 200 (some (codes "token"));
}

abbrev with_token : Asked
with_token = asked (codes "POST") (codes "/mcp") ((codes "access_token", codes "good") ∷ [])

answers_mcp : served none with_token ≡ mcp (codes "/mcp")
unfolding mux dispatch route_of to_mcp verify check_audience check_claims check_identity
    access_allowed identity first_usable usable has is_unset equal trim_space trim_left trim_right
    keep_right is_space
answers_mcp = refl

broker-ne-off : broker ≢ off
broker-ne-off e = cc

load-IsAuthorized_example :
    IsAuthorized packages entra_oidc with_token (codes "/mcp") × IsVerifiable entra_oidc
load-IsAuthorized_example =
    load-IsAuthorized packages entra entra_config (some tt) served with_token (codes "/mcp")
      packages_require entra_loads broker-ne-off served_built answers_mcp

abbrev for_token : Asked
for_token =
    asked (codes "POST") (codes "/oauth/token") ((codes "grant_type", codes "refresh_token") ∷ [])

at_token : route_of (codes "/oauth/token") routes ≡ some token
unfolding route_of equal
at_token = refl

relays_token : served none for_token ≡ flow_page (relayed 200 (codes "token"))
unfolding mux dispatch route_of serve_route handle_token exchange_form is_grant token_form
    with_refresh relay is_unset equal contains starts_with proxy_config
relays_token = refl

load-no_secret_example : (contains (codes "s") (codes "token") ≡ false) × (codes "s" ≢ [])
load-no_secret_example =
    load-no_secret packages entra entra_config (some tt) served none for_token 200 (codes "token")
      entra_loads refl served_built refl refl relays_token

-- A client that never leaves, and an interrupt.
abbrev interrupted : List Event
interrupted = cancel ∷ accept ∷ []

abbrev five_seconds : List Event
five_seconds = second ∷ second ∷ second ∷ second ∷ second ∷ []

run_http-returned_example :
    (v : Option Text) × ((run_http (turn false ∷ (five_seconds ++ turn false ∷ interrupted))).phase
      ≡ returned v)
run_http-returned_example =
    run_http-returned interrupted five_seconds false false (Memᴰ.head refl)
      (unfold seconds in omega arith)

stopped : (run_http (turn false ∷ (five_seconds ++ turn false ∷ interrupted))).phase ≡ returned none
unfolding run_http on_event while_running on_running on_turn on_second choose take_cancel
    start_drain wait_drained
stopped = refl

run_http-Explains_example :
    Explains
      (turn false ∷ (five_seconds ++ turn false ∷ interrupted))
      (run_http (turn false ∷ (five_seconds ++ turn false ∷ interrupted)))
      none
run_http-Explains_example =
    run_http-Explains (turn false ∷ (five_seconds ++ turn false ∷ interrupted)) none stopped
