-- ===== src/Auth/Proxy/Flow/Completes.antt =====
-- A login that was started comes back to the client.
use clickhouse_mcp.Auth.Proxy.Flow.{Response, found, Request, is_bad_code}
use clickhouse_mcp.Auth.Proxy.State.{second, max_state_age}
use clickhouse_mcp.Auth.Proxy.{Web, ProxyConfig}
use clickhouse_mcp.Config.{is_unset}
use clickhouse_mcp.Prelude.{ℕ, ◌+◌, ◌*◌, ◌/◌, ◌≤◌, true, false, some, ◌≡◌}
use clickhouse_mcp.Text.{Text, codes, equal}

-- `net/url`: a value that is set is got, and no other changes; and a URL that was written with some
-- values has these values where it is read.
pub record KeepsValues (web : Web) : Type 0 where
  pub got : (k v : Text) (q : web.Values) → web.get (web.set k v q) k ≡ v
  pub kept :
      (k v other : Text) (q : web.Values)
      → equal k other ≡ false
      → web.get (web.set k v q) other ≡ web.get q other
  pub reads :
      (u at : web.Url) (q : web.Values) (k : Text)
      → web.parse (web.with_query u q) ≡ some at
      → web.get (web.query at) k ≡ web.get q k

-- The request with which the upstream sends back a browser that it had at a URL: no error, a code
-- that is not too long, and the state of that URL, within ten minutes.
pub record ComesBack (web : Web) (p : ProxyConfig) (t now : ℕ) (at : web.Url) (c : Request web)
    : Type 0 where
  pub method_is : c.method ≡ codes "GET"
  pub no_error : is_unset (web.get c.query (codes "error")) ≡ true
  pub good_code : is_bad_code web p (web.get c.query (codes "code")) ≡ false
  pub state_is : web.get c.query (codes "state") ≡ web.get (web.query at) (codes "state")
  pub later : t ≤ now
  pub in_time : now ≤ t / second * second + max_state_age

-- The client gets the upstream's code and its own state, at the redirect that it asked for.
pub record IsCompleted (web : Web) (r c : Request web) (answer : Response) : Type 0 where
  pub dest : web.Url
  pub dest_is : web.parse (web.get r.query (codes "redirect_uri")) ≡ some dest
  pub handed : web.Values
  pub answer_is : answer ≡ found (web.with_query dest handed)
  pub code_is : web.get handed (codes "code") ≡ web.get c.query (codes "code")
  pub state_is :
      is_unset (web.get r.query (codes "state")) ≡ false
      → web.get handed (codes "state") ≡ web.get r.query (codes "state")
