-- ===== src/Auth/Proxy/Flow/Values.antt =====
-- The values of net/url in the login flow: what is read of them once some were set.
use clickhouse_mcp.Auth.Proxy.Flow.{with_scope, upstream_query, with_refresh, token_form}
use clickhouse_mcp.Auth.Proxy.{Web, ProxyConfig}
use clickhouse_mcp.Config.{is_unset}
use clickhouse_mcp.Prelude.{
  Bool, true, false, [], ◌++◌, ◌≡◌, refl, sym, ◌∙◌, if◌then◌else◌, Bool-cases, inl, inr,
}
use clickhouse_mcp.Text.{Text, codes, equal, equal_iff}

-- `url.Values`: a value that is set is got, and no other changes; at first there is none.
pub record SetsValues (web : Web) : Type 0 where
  pub got : (k v : Text) (q : web.Values) → web.get (web.set k v q) k ≡ v
  pub kept :
      (k v other : Text) (q : web.Values)
      → equal k other ≡ false
      → web.get (web.set k v q) other ≡ web.get q other
  pub none_set : (k : Text) → web.get web.empty k ≡ []

module _ (web : Web) (p : ProxyConfig) where
  -- What the upstream is asked with.
  pub record IsQuestion (challenge blob : Text) (sent : web.Values) : Type 0 where
    pub state_is : web.get sent (codes "state") ≡ blob
    pub challenge_is : web.get sent (codes "code_challenge") ≡ challenge
    pub method_is : web.get sent (codes "code_challenge_method") ≡ codes "S256"
    pub redirect_is : web.get sent (codes "redirect_uri") ≡ p.public_url ++ codes "/oauth/callback"
    pub response_is : web.get sent (codes "response_type") ≡ codes "code"
    pub client_is : web.get sent (codes "client_id") ≡ p.client_id

  -- The form for the upstream: the client's four values, and the proxy's own three.
  pub record IsForm (post form : web.Values) : Type 0 where
    pub grant_is : web.get form (codes "grant_type") ≡ web.get post (codes "grant_type")
    pub code_is : web.get form (codes "code") ≡ web.get post (codes "code")
    pub verifier_is : web.get form (codes "code_verifier") ≡ web.get post (codes "code_verifier")
    pub refresh_is : web.get form (codes "refresh_token") ≡ web.get post (codes "refresh_token")
    pub redirect_is : web.get form (codes "redirect_uri") ≡ p.public_url ++ codes "/oauth/callback"
    pub client_is : web.get form (codes "client_id") ≡ p.client_id
    pub secret_is : web.get form (codes "client_secret") ≡ p.client_secret

module _ (web : Web) (p : ProxyConfig) (laws : SetsValues web) where
  -- A value that is set if it is given: another is read past it.
  past_optional :
      (b : Bool) (k v other : Text) (q : web.Values)
      → equal k other ≡ false
      → web.get (if b then q else web.set k v q) other ≡ web.get q other
  past_optional true k v other q h = refl
  past_optional false k v other q h = laws.kept k v other q h

  pub upstream_query-IsQuestion :
      (challenge blob : Text) (q : web.Values)
      → IsQuestion web p challenge blob (upstream_query web p challenge blob q)
  unfolding upstream_query with_scope equal
  upstream_query-IsQuestion challenge blob q = record {
    state_is = past_optional _ _ _ _ _ refl ∙ laws.got _ _ _;
    challenge_is =
        past_optional _ _ _ _ _ refl
        ∙ laws.kept _ _ _ _ refl
        ∙ laws.kept _ _ _ _ refl
        ∙ laws.got _ _ _;
    method_is = past_optional _ _ _ _ _ refl ∙ laws.kept _ _ _ _ refl ∙ laws.got _ _ _;
    redirect_is =
        past_optional _ _ _ _ _ refl
        ∙ laws.kept _ _ _ _ refl
        ∙ laws.kept _ _ _ _ refl
        ∙ laws.kept _ _ _ _ refl
        ∙ laws.got _ _ _;
    response_is =
        past_optional _ _ _ _ _ refl
        ∙ laws.kept _ _ _ _ refl
        ∙ laws.kept _ _ _ _ refl
        ∙ laws.kept _ _ _ _ refl
        ∙ laws.kept _ _ _ _ refl
        ∙ laws.got _ _ _;
    client_is =
        past_optional _ _ _ _ _ refl
        ∙ laws.kept _ _ _ _ refl
        ∙ laws.kept _ _ _ _ refl
        ∙ laws.kept _ _ _ _ refl
        ∙ laws.kept _ _ _ _ refl
        ∙ laws.kept _ _ _ _ refl
        ∙ laws.got _ _ _;
  }

  optional_got :
      (k v : Text) (q : web.Values)
      → web.get q k ≡ []
      → web.get (if is_unset v then q else web.set k v q) k ≡ v
  unfolding is_unset
  optional_got k v q h = elim (Bool-cases (equal v [])) [
    | inl e ↦ rw e (h ∙ sym ((equal_iff v []).0 e))
    | inr e ↦ rw e (laws.got k v q)
  ]

  pub token_form-IsForm : (post : web.Values) → IsForm web p post (token_form web p post)
  unfolding token_form with_refresh equal
  token_form-IsForm post = record {
    grant_is =
        past_optional _ _ _ _ _ refl
        ∙ laws.kept _ _ _ _ refl
        ∙ laws.kept _ _ _ _ refl
        ∙ laws.kept _ _ _ _ refl
        ∙ laws.kept _ _ _ _ refl
        ∙ laws.kept _ _ _ _ refl
        ∙ laws.got _ _ _;
    code_is =
        past_optional _ _ _ _ _ refl
        ∙ laws.kept _ _ _ _ refl
        ∙ laws.kept _ _ _ _ refl
        ∙ laws.kept _ _ _ _ refl
        ∙ laws.kept _ _ _ _ refl
        ∙ laws.got _ _ _;
    verifier_is =
        past_optional _ _ _ _ _ refl
        ∙ laws.kept _ _ _ _ refl
        ∙ laws.kept _ _ _ _ refl
        ∙ laws.kept _ _ _ _ refl
        ∙ laws.got _ _ _;
    refresh_is = optional_got _ _ _ (
        laws.kept _ _ _ _ refl
        ∙ laws.kept _ _ _ _ refl
        ∙ laws.kept _ _ _ _ refl
        ∙ laws.kept _ _ _ _ refl
        ∙ laws.kept _ _ _ _ refl
        ∙ laws.kept _ _ _ _ refl
        ∙ laws.none_set _);
    redirect_is =
        past_optional _ _ _ _ _ refl
        ∙ laws.kept _ _ _ _ refl
        ∙ laws.kept _ _ _ _ refl
        ∙ laws.got _ _ _;
    client_is = past_optional _ _ _ _ _ refl ∙ laws.kept _ _ _ _ refl ∙ laws.got _ _ _;
    secret_is = past_optional _ _ _ _ _ refl ∙ laws.got _ _ _;
  }
