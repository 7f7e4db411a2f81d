-- ===== src/Auth/Proxy/Flow/Asked.antt =====
-- With what a login starts at the upstream.
use clickhouse_mcp.Auth.Proxy.Flow.Starts.{handle_authorize-IsStart}
use clickhouse_mcp.Auth.Proxy.Flow.Values.{SetsValues, IsQuestion, upstream_query-IsQuestion}
use clickhouse_mcp.Auth.Proxy.Flow.{found, Request, has_challenge, handle_authorize, upstream_query}
use clickhouse_mcp.Auth.Proxy.Redirect.Safe.{IsSafe}
use clickhouse_mcp.Auth.Proxy.State.Signed.{ReadsBack, verify_state-sign_state}
use clickhouse_mcp.Auth.Proxy.State.{opened, sign_state, verify_state}
use clickhouse_mcp.Auth.Proxy.{Web, ProxyConfig}
use clickhouse_mcp.Config.{is_unset}
use clickhouse_mcp.Prelude.{ℕ, ◌+◌, ◌*◌, ◌/◌, ◌≤◌, true, [], Option, none, some, ◌≡◌, ◌≢◌, arith}
use clickhouse_mcp.Text.{Text, codes, equal_iff, byte_length}

-- What a client must ask with, and where its browser goes: to the upstream's page, with the
-- client's challenge, the proxy's own redirect, and a state that opens, at a later time, to the
-- client's redirect and state.
pub record IsAsked (web : Web) (p : ProxyConfig) (now later : ℕ) (r : Request web) (location : Text)
    : Type 0 where
  pub asked : r.method ≡ codes "GET"
  pub allowed : IsSafe web p.allowed_redirect_hosts (web.get r.query (codes "redirect_uri"))
  pub has_code_challenge : web.get r.query (codes "code_challenge") ≢ []
  pub is_short : byte_length (web.get r.query (codes "code_challenge")) ≤ 4096
  pub by_hash : web.get r.query (codes "code_challenge_method") ≡ codes "S256"
  pub up : web.Url
  pub parsed : web.parse p.upstream_auth_url ≡ some up
  pub sent : web.Values
  pub location_is : location ≡ web.with_query up sent
  pub blob : Text
  pub question : IsQuestion web p (web.get r.query (codes "code_challenge")) blob sent
  pub opens :
      verify_state web later blob
      ≡ opened (web.get r.query (codes "redirect_uri")) (web.get r.query (codes "state"))

module _ (web : Web) (p : ProxyConfig) where
  has_challenge-parts :
      (q : web.Values)
      → has_challenge web p q ≡ true
      → (web.get q (codes "code_challenge") ≢ [])
        × (byte_length (web.get q (codes "code_challenge")) ≤ 4096)
        × (web.get q (codes "code_challenge_method") ≡ codes "S256")
  unfolding has_challenge is_unset
  has_challenge-parts q h = (
    (λ e. let unset = (equal_iff (web.get q (codes "code_challenge")) []).1 e in ground arith),
    ground arith,
    (equal_iff (web.get q (codes "code_challenge_method")) (codes "S256")).0 (ground arith),
  )

  signed-opens :
      (now later : ℕ) (drawn : Option Text) (redirect state blob : Text)
      → ReadsBack web
      → now ≤ later
      → later ≤ now / 1000000000 * 1000000000 + 600000000000
      → sign_state web now drawn redirect state ≡ some blob
      → verify_state web later blob ≡ opened redirect state
  signed-opens now later none redirect state blob back h late e = unfold sign_state in cc e
  signed-opens now later (some nonce) redirect state blob back h late e =
      verify_state-sign_state web now later nonce redirect state blob back h late e

  -- If the proxy sends the browser to the upstream, then for a GET with a safe redirect and an S256
  -- challenge that is not empty and has at most 4096 bytes. The browser goes to the upstream's page
  -- with that challenge, the proxy's own client id and redirect, and a state that opens, at any time
  -- within ten minutes of the second in which it was signed, to the redirect and the state of the
  -- client. This rests on the laws of net/url, Base64
  -- and JSON that are named.
  pub handle_authorize-IsAsked :
      (laws : SetsValues web) (now later : ℕ) (drawn : Option Text) (r : Request web)
      (location : Text)
      → ReadsBack web
      → now ≤ later
      → later ≤ now / 1000000000 * 1000000000 + 600000000000
      → handle_authorize web p now drawn r ≡ found location
      → IsAsked web p now later r location
  handle_authorize-IsAsked laws now later drawn r location back early late h =
      let start = handle_authorize-IsStart web p now drawn r location h in
      let (given, short, hash) = has_challenge-parts r.query start.challenged in
      record {
        asked = start.asked;
        allowed = start.allowed;
        has_code_challenge = given;
        is_short = short;
        by_hash = hash;
        up = start.up;
        parsed = start.parsed;
        sent =
            upstream_query web p (web.get r.query (codes "code_challenge")) start.blob
              (web.query start.up);
        location_is = start.location_is;
        blob = start.blob;
        question = upstream_query-IsQuestion web p laws _ start.blob (web.query start.up);
        opens = signed-opens now later drawn _ _ start.blob back early late start.signed;
      }
