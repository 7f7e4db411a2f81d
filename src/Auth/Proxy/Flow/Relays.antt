-- ===== src/Auth/Proxy/Flow/Relays.antt =====
-- What the token endpoint of the login flow relays.
use clickhouse_mcp.Auth.Proxy.Flow.{
  Response, failed, no_body, relayed, Exchange, no_request, no_answer, answered, Request,
  token_form, relay, is_grant, exchange_form, handle_token,
}
use clickhouse_mcp.Auth.Proxy.{Web, ProxyConfig}
use clickhouse_mcp.Config.{is_unset}
use clickhouse_mcp.Prelude.{
  ℕ, Bool, true, false, ◌&&◌, ◌||◌, not, [], Option, none, some, ◌≡◌, ◌⊎◌, inl, inr, refl, sym, ap,
  ◌∙◌, Bool-cases, if◌then◌else◌,
}
use clickhouse_mcp.Text.{Text, codes, equal, equal_iff, contains}

module _ (web : Web) (p : ProxyConfig) where
  -- An upstream answer that may go to the client, and the form that it answers.
  pub record IsRelay (upstream : Text → Exchange) (r : Request web) (status : ℕ) (body : Text)
      : Type 0 where
    pub posted : r.method ≡ codes "POST"
    pub post : web.Values
    pub parsed_form : r.form ≡ some post
    pub grant :
        (web.get post (codes "grant_type") ≡ codes "authorization_code")
        ⊎ (web.get post (codes "grant_type") ≡ codes "refresh_token")
    pub answer : upstream (web.encode (token_form web p post)) ≡ answered status (some body)
    pub no_secret : (p.client_secret ≡ []) ⊎ (contains p.client_secret body ≡ false)

  relay_sound :
      (x : Exchange) (status : ℕ) (body : Text)
      → relay web p x ≡ relayed status body
      → (x ≡ answered status (some body))
        × ((p.client_secret ≡ []) ⊎ (contains p.client_secret body ≡ false))
  unfolding relay
  relay_sound no_request status body h = cc
  relay_sound no_answer status body h = cc
  relay_sound (answered s none) status body h = cc
  relay_sound (answered s (some b)) status body h = by_test _ _ refl refl h
    where
      by_fields :
          relayed s b ≡ relayed status body → answered s (some b) ≡ answered status (some body)
      by_fields h = cc

      by_test :
          (a c : Bool)
          → is_unset p.client_secret ≡ a
          → contains p.client_secret b ≡ c
          → (if not a && c
              then failed 502 (codes "upstream token exchange failed")
              else relayed s b)
            ≡ relayed status body
          → (answered s (some b) ≡ answered status (some body))
            × ((p.client_secret ≡ []) ⊎ (contains p.client_secret body ≡ false))
      by_test true c e f h =
          (by_fields h, inl ((equal_iff p.client_secret []).0 (unfold is_unset in e)))
      by_test false true e f h = cc
      by_test false false e f h =
          (by_fields h, inr (ap (contains p.client_secret) (sym (cc h)) ∙ f))

  exchange_form_sound :
      (upstream : Text → Exchange) (o : Option web.Values) (status : ℕ) (body : Text)
      → (exchange_form web p upstream o).0 ≡ relayed status body
      → (post : web.Values) × (o ≡ some post)
        × (is_grant web p (web.get post (codes "grant_type")) ≡ true)
        × (relay web p (upstream (web.encode (token_form web p post))) ≡ relayed status body)
  unfolding exchange_form
  exchange_form_sound upstream none status body h = cc
  exchange_form_sound upstream (some post) status body h = by_test _ refl h
    where
      by_test :
          (g : Bool)
          → is_grant web p (web.get post (codes "grant_type")) ≡ g
          → (if◌then◌else◌ {A = Response × Option Text} g
              (
                relay web p (upstream (web.encode (token_form web p post))),
                some (web.encode (token_form web p post)),
              )
              (failed 400 (codes "unsupported grant_type"), none)).0
            ≡ relayed status body
          → (q : web.Values) × (some post ≡ some q)
            × (is_grant web p (web.get q (codes "grant_type")) ≡ true)
            × (relay web p (upstream (web.encode (token_form web p q))) ≡ relayed status body)
      by_test true e h = (post, refl, e, h)
      by_test false e h = cc

  is_grant_known :
      (g : Text)
      → is_grant web p g ≡ true
      → (g ≡ codes "authorization_code") ⊎ (g ≡ codes "refresh_token")
  unfolding is_grant
  is_grant_known g h = elim (Bool-cases (equal g (codes "authorization_code"))) [
    | inl e ↦ inl ((equal_iff g _).0 e)
    | inr e ↦ inr ((equal_iff g (codes "refresh_token")).0 (by_rest _ _ e h))
  ]
    where
      by_rest : (a b : Bool) → a ≡ false → a || b ≡ true → b ≡ true
      by_rest true b e h = cc
      by_rest false b e h = h

  handle_token_sound :
      (upstream : Text → Exchange) (r : Request web) (status : ℕ) (body : Text)
      → (handle_token web p upstream r).0 ≡ relayed status body
      → (equal r.method (codes "POST") ≡ true)
        × ((exchange_form web p upstream r.form).0 ≡ relayed status body)
  unfolding handle_token
  handle_token_sound upstream r status body h = by_tests _ _ refl h
    where
      by_tests :
          (a b : Bool)
          → equal r.method (codes "POST") ≡ b
          → (if a
              then (no_body 200, none)
              else if not b
              then (failed 405 (codes "method not allowed"), none)
              else exchange_form web p upstream r.form).0
            ≡ relayed status body
          → (equal r.method (codes "POST") ≡ true)
            × ((exchange_form web p upstream r.form).0 ≡ relayed status body)
      by_tests true b e h = cc
      by_tests false true e h = (e, h)
      by_tests false false e h = cc

  -- What the token endpoint relays is the upstream's answer to a form for one of the two grants
  -- that the proxy advertises, and it does not hold the client secret if there is one.
  pub handle_token-IsRelay :
      (upstream : Text → Exchange) (r : Request web) (status : ℕ) (body : Text)
      → (handle_token web p upstream r).0 ≡ relayed status body
      → IsRelay upstream r status body
  handle_token-IsRelay upstream r status body h =
      let (posted, h1) = handle_token_sound upstream r status body h in
      let (post, parsed, grant, h2) = exchange_form_sound upstream r.form status body h1 in
      let (answer, secret) = relay_sound _ status body h2 in
      record {
        posted = (equal_iff r.method (codes "POST")).0 posted;
        post = post;
        parsed_form = parsed;
        grant = is_grant_known _ grant;
        answer = answer;
        no_secret = secret;
      }
