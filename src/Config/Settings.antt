-- ===== src/Config/Settings.antt =====
-- internal/config/config.go: what the steps of the loader are sure of.
use clickhouse_mcp.Config.Load.{
  broker_with, with_credentials, load_oidc, load_access_policy, derive_provider, derive_entra,
  derive_google, named,
}
use clickhouse_mcp.Config.{
  Env, Loaded, AccessPolicy, OidcConfig, BrokerConfig, DerivedProvider, is_unset, env_string,
  required,
}
use clickhouse_mcp.Config.OnOk.{OnOk, OnOk-bind, OnOk-any, OnOk-guard, OnOk-of}
use clickhouse_mcp.Prelude.{
  ℕ, Bool, true, false, ◌&&◌, not, [], ◌∷◌, Option, none, some, ◌==◌, ◌≡◌, ◌⊎◌, refl, arith,
  Bool-cases, inl, inr,
}
use clickhouse_mcp.Text.{Text, trim_right, keep_right, ends_with, equal, codes, trim_space}

-- A text that is set.
abbrev pub IsGiven : Text → Type 0
IsGiven v = is_unset v ≡ false

-- The gate of the access policy names a claim and a value, or no claim.
unfoldable pub IsCoherent : AccessPolicy → Type 0
IsCoherent p = (is_unset p.required_claim ≡ true) ⊎ (is_unset p.required_value ≡ false)

-- What the check of a token needs.
pub record IsVerifiable (c : OidcConfig) : Type 0 where
  pub issuer_given : is_unset c.issuer ≡ false
  pub resource_uri_given : is_unset c.resource_uri ≡ false
  pub coherent : IsCoherent c.access_policy

-- What the login flow needs.
pub record IsUsable (c : BrokerConfig) : Type 0 where
  pub client_id_given : is_unset c.client_id ≡ false
  pub client_secret_given : is_unset c.client_secret ≡ false
  pub auth_url_given : is_unset c.upstream_auth_url ≡ false
  pub token_url_given : is_unset c.upstream_token_url ≡ false
  pub no_slash : ends_with (codes "/") c.public_url ≡ false

-- The values that a named provider gives the login flow.
pub record IsPreset (d : DerivedProvider) : Type 0 where
  pub client_id_given : is_unset d.client_id ≡ false
  pub client_secret_given : is_unset d.client_secret ≡ false
  pub auth_url_given : is_unset d.authorize_url ≡ false
  pub token_url_given : is_unset d.token_url ≡ false

unfoldable pub AllPreset : Option DerivedProvider → Type 0
AllPreset none = Unit
AllPreset (some d) = IsPreset d

keep_right-ends_with :
    (x c : ℕ) (s : Text)
    → ends_with (x ∷ []) s ≡ false
    → ends_with (x ∷ []) (keep_right (◌==◌ x) c s) ≡ false
unfolding ends_with equal keep_right
keep_right-ends_with x c [] h = ground arith
keep_right-ends_with x c (d ∷ s) h = ground arith

-- A text that was trimmed of a code point does not end with it.
ends_with-trim_right : (x : ℕ) (s : Text) → ends_with (x ∷ []) (trim_right (◌==◌ x) s) ≡ false
unfolding trim_right
ends_with-trim_right x [] = unfold ends_with equal in refl
ends_with-trim_right x (c ∷ s) =
    keep_right-ends_with x c (trim_right (◌==◌ x) s) (ends_with-trim_right x s)

module _ (env : Env) where
  pub required-IsGiven : (key : Text) → OnOk IsGiven (required env key)
  unfolding required
  required-IsGiven key = OnOk-guard IsGiven _ _ _ (λ e. OnOk-of IsGiven _ e)

  load_access_policy-IsCoherent : OnOk IsCoherent (load_access_policy env)
  unfolding load_access_policy IsCoherent
  load_access_policy-IsCoherent =
      OnOk-guard IsCoherent _ _ _ (λ e. OnOk-of IsCoherent _ (by_test _ _ e))
    where
      by_test : (a b : Bool) → not a && b ≡ false → (a ≡ true) ⊎ (b ≡ false)
      by_test true b h = inl refl
      by_test false b h = inr h

  pub load_oidc-IsVerifiable :
      (derived : Option DerivedProvider) → OnOk IsVerifiable (load_oidc env derived)
  unfolding load_oidc
  load_oidc-IsVerifiable derived = OnOk-guard IsVerifiable _ _ _ (λ issuer.
      OnOk-guard IsVerifiable _ _ _ (λ resource.
        OnOk-bind IsCoherent IsVerifiable _ _ load_access_policy-IsCoherent (λ p h.
          OnOk-of IsVerifiable _
            (record { issuer_given = issuer; resource_uri_given = resource; coherent = h }))))

  derive_entra-IsPreset : OnOk IsPreset (derive_entra env)
  unfolding derive_entra is_unset equal
  derive_entra-IsPreset = OnOk-any IsPreset _ _ (λ tenant.
      OnOk-bind IsGiven IsPreset _ _ (required-IsGiven _) (λ client_id id_given.
        OnOk-bind IsGiven IsPreset _ _ (required-IsGiven _) (λ client_secret secret_given.
          OnOk-of IsPreset _ (record {
            client_id_given = id_given;
            client_secret_given = secret_given;
            auth_url_given = refl;
            token_url_given = refl;
          }))))

  derive_google-IsPreset : OnOk IsPreset (derive_google env)
  unfolding derive_google is_unset equal
  derive_google-IsPreset =
      OnOk-bind IsGiven IsPreset _ _ (required-IsGiven _) (λ client_id id_given.
        OnOk-bind IsGiven IsPreset _ _ (required-IsGiven _) (λ client_secret secret_given.
          OnOk-of IsPreset _ (record {
            client_id_given = id_given;
            client_secret_given = secret_given;
            auth_url_given = refl;
            token_url_given = refl;
          })))

  named-AllPreset : (m : Loaded DerivedProvider) → OnOk IsPreset m → OnOk AllPreset (named env m)
  unfolding named
  named-AllPreset m h = OnOk-bind IsPreset AllPreset m _ h (λ d p. unfold OnOk AllPreset in p)

  abbrev provider : Text
  provider = trim_space (env_string env (codes "MCP_BROKER_PROVIDER") (codes "generic"))

  pub derive_provider-AllPreset : OnOk AllPreset (derive_provider env)
  unfolding derive_provider
  derive_provider-AllPreset = elim (Bool-cases (equal provider (codes "generic"))) [
    | inl e ↦ rw e (unfold OnOk AllPreset in tt)
    | inr e ↦ elim (Bool-cases (equal provider (codes "entra"))) [
      | inl f ↦ rw (e, f) (named-AllPreset _ derive_entra-IsPreset)
      | inr f ↦ elim (Bool-cases (equal provider (codes "google"))) [
        | inl g ↦ rw (e, f, g) (named-AllPreset _ derive_google-IsPreset)
        | inr g ↦ rw (e, f, g) (unfold OnOk in tt)
      ]
    ]
  ]

  broker_with-IsUsable :
      (url client_id client_secret auth_url token_url : Text)
      → is_unset client_id ≡ false
      → is_unset client_secret ≡ false
      → is_unset auth_url ≡ false
      → is_unset token_url ≡ false
      → IsUsable (broker_with env url client_id client_secret auth_url token_url)
  unfolding broker_with
  broker_with-IsUsable url client_id client_secret auth_url token_url i s a t = record {
    client_id_given = i;
    client_secret_given = s;
    auth_url_given = a;
    token_url_given = t;
    no_slash = ends_with-trim_right b'/' url;
  }

  pub with_credentials-IsUsable :
      (url : Text) (derived : Option DerivedProvider)
      → AllPreset derived
      → OnOk IsUsable (with_credentials env url derived)
  unfolding with_credentials
  with_credentials-IsUsable url (some d) h =
      let p : IsPreset d = unfold AllPreset in h in
      unfold OnOk in
      broker_with-IsUsable url _ _ _ _ p.client_id_given p.client_secret_given p.auth_url_given
        p.token_url_given
  with_credentials-IsUsable url none h =
      OnOk-bind IsGiven IsUsable _ _ (required-IsGiven _) (λ client_id i.
        OnOk-bind IsGiven IsUsable _ _ (required-IsGiven _) (λ client_secret s.
          OnOk-bind IsGiven IsUsable _ _ (required-IsGiven _) (λ auth_url a.
            OnOk-bind IsGiven IsUsable _ _ (required-IsGiven _)
              (λ token_url t. OnOk-of IsUsable _ (broker_with-IsUsable url _ _ _ _ i s a t)))))
