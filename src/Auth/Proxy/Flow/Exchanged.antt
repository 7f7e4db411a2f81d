-- ===== src/Auth/Proxy/Flow/Exchanged.antt =====
-- With what the token endpoint calls the upstream for an answer that it relays.
use clickhouse_mcp.Auth.Proxy.Flow.Relays.{handle_token-IsRelay}
use clickhouse_mcp.Auth.Proxy.Flow.Values.{SetsValues, IsForm, token_form-IsForm}
use clickhouse_mcp.Auth.Proxy.Flow.{
  relayed, Exchange, answered, Request, token_form, is_grant, exchange_form, handle_token,
}
use clickhouse_mcp.Auth.Proxy.{Web, ProxyConfig}
use clickhouse_mcp.Prelude.{ℕ, true, false, refl, [], some, ◌≡◌, ◌⊎◌, inl, inr, ◌∙◌}
use clickhouse_mcp.Text.{Text, codes, equal, contains}

-- The client's form, the form that the upstream is called with, and an answer that may go back.
pub record IsExchanged (web : Web) (p : ProxyConfig) (upstream : Text → Exchange) (r : Request web)
    (status : ℕ) (body : Text) : Type 0 where
  pub posted : r.method ≡ codes "POST"
  pub post : web.Values
  pub parsed_form : r.form ≡ some post
  pub form : web.Values
  pub grant :
      (web.get form (codes "grant_type") ≡ codes "authorization_code")
      ⊎ (web.get form (codes "grant_type") ≡ codes "refresh_token")
  pub filled : IsForm web p post form
  pub is_sent : (handle_token web p upstream r).1 ≡ some (web.encode form)
  pub answer : upstream (web.encode form) ≡ answered status (some body)
  pub no_secret : (p.client_secret ≡ []) ⊎ (contains p.client_secret body ≡ false)

known-is_grant :
    (web : Web) (p : ProxyConfig) (g : Text)
    → (g ≡ codes "authorization_code") ⊎ (g ≡ codes "refresh_token")
    → is_grant web p g ≡ true
unfolding is_grant equal
known-is_grant web p g (inl e) = rw e refl
known-is_grant web p g (inr e) = rw e refl

posts-form :
    (web : Web) (p : ProxyConfig) (upstream : Text → Exchange) (r : Request web) (post : web.Values)
    → r.method ≡ codes "POST"
    → r.form ≡ some post
    → is_grant web p (web.get post (codes "grant_type")) ≡ true
    → (handle_token web p upstream r).1 ≡ some (web.encode (token_form web p post))
unfolding handle_token exchange_form equal
posts-form web p upstream r post posted parsed grant = rw (posted, parsed, grant) refl

-- What the token endpoint relays is the upstream's answer to a form for one of the two grants that
-- the proxy advertises. That form is what is sent, and holds the client's grant, code, verifier and refresh token, with
-- the proxy's own redirect, client id and client secret. The answer does not hold the client
-- secret if there is one. This rests on the laws of net/url that are named.
pub handle_token-IsExchanged :
    (web : Web) (p : ProxyConfig) (upstream : Text → Exchange) (r : Request web) (status : ℕ)
    (body : Text)
    → SetsValues web
    → (handle_token web p upstream r).0 ≡ relayed status body
    → IsExchanged web p upstream r status body
handle_token-IsExchanged web p upstream r status body laws h =
    let relay = handle_token-IsRelay web p upstream r status body h in
    let filled = token_form-IsForm web p laws relay.post in
    record {
      posted = relay.posted;
      post = relay.post;
      parsed_form = relay.parsed_form;
      form = token_form web p relay.post;
      grant = elim relay.grant [
        | inl e ↦ inl (filled.grant_is ∙ e)
        | inr e ↦ inr (filled.grant_is ∙ e)
      ];
      filled = filled;
      is_sent =
          posts-form web p upstream r relay.post relay.posted relay.parsed_form
            (known-is_grant web p _ relay.grant);
      answer = relay.answer;
      no_secret = relay.no_secret;
    }
