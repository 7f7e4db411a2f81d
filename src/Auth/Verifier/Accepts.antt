-- ===== src/Auth/Verifier/Accepts.antt =====
-- internal/auth/verifier.go: which tokens `Verify` accepts, and what it says of them.
use mathlib.Core.List.{Memᴰ}
use clickhouse_mcp.Auth.Verifier.{
  Claims, IdToken, TokenCheck, TokenInfo, Verdict, Reason, no_identity, accepted, refused,
  identity_keys, identity, check_identity, check_claims, check_audience, verify,
}
use clickhouse_mcp.Auth.Verifier.Grants.{
  has-Memᴰ, access_allowed-IsAllowed, Names-first, first_usable-Names, is_unset_iff, is_unset_none,
  Names, IsAllowed,
}
use clickhouse_mcp.Config.{OidcConfig, is_unset}
use clickhouse_mcp.Prelude.{
  Bool, true, false, [], ◌∷◌, Option, none, some, ◌≡◌, ◌≢◌, ◌↔◌, refl, sym, ap, subst, ◌∙◌,
  if◌then◌else◌,
}
use clickhouse_mcp.Text.{Text, codes}

-- An accepted token was verified, names this server in its audience, passes the gate, and gives
-- the session its name and its end.
pub record IsAccepted (cfg : OidcConfig) (check : TokenCheck) (token : Text) (info : TokenInfo)
    : Type 0 where
  pub id_token : IdToken
  pub checked : check token ≡ some id_token
  pub in_audience : Memᴰ cfg.resource_uri id_token.audience
  pub readable : id_token.claims ≡ some info.extra
  pub allowed :
      IsAllowed info.extra cfg.access_policy.required_claim cfg.access_policy.required_value
  pub user : Names info.extra info.user_id (
      cfg.access_policy.identity_claim
      ∷ codes "preferred_username"
      ∷ codes "email"
      ∷ codes "sub"
      ∷ [])
  pub expires : info.expiration ≡ id_token.expiry

module _ (cfg : OidcConfig) (info : TokenInfo) where
  if-accepted :
      (b : Bool) (v : Verdict) (r : Reason)
      → (if b then v else refused r) ≡ accepted info
      → (b ≡ true) × (v ≡ accepted info)
  if-accepted true v r h = (refl, h)
  if-accepted false v r h = cc

  check_identity_sound :
      (t : IdToken) (claims : Claims)
      → check_identity cfg t claims ≡ accepted info
      → (is_unset info.user_id ≡ false)
        × (identity cfg.access_policy.identity_claim claims ≡ info.user_id)
        × (info.expiration ≡ t.expiry)
        × (info.extra ≡ claims)
  unfolding check_identity
  check_identity_sound t claims h = by_test _ refl h
    where
      opened :
          (u : Text)
          → accepted (record { user_id = u; expiration = t.expiry; extra = claims }) ≡ accepted info
          → (u ≡ info.user_id) × (info.expiration ≡ t.expiry) × (info.extra ≡ claims)
      opened u e =
          let i : record { user_id = u; expiration = t.expiry; extra = claims } ≡ info = cc e in
          (
            ap (λ (x : TokenInfo). x.user_id) i,
            sym (ap (λ (x : TokenInfo). x.expiration) i),
            sym (ap (λ (x : TokenInfo). x.extra) i),
          )

      by_test :
          (b : Bool)
          → is_unset (identity cfg.access_policy.identity_claim claims) ≡ b
          → (if b
              then refused no_identity
              else accepted (record {
                user_id = identity cfg.access_policy.identity_claim claims;
                expiration = t.expiry;
                extra = claims;
              }))
            ≡ accepted info
          → (is_unset info.user_id ≡ false)
            × (identity cfg.access_policy.identity_claim claims ≡ info.user_id)
            × (info.expiration ≡ t.expiry)
            × (info.extra ≡ claims)
      by_test true e h = cc
      by_test false e h =
          let (u, x, c) = opened _ h in (subst (λ v. is_unset v ≡ false) u e, u, x, c)

  check_claims_sound :
      (t : IdToken) (o : Option Claims)
      → check_claims cfg t o ≡ accepted info
      → (claims : Claims) × (o ≡ some claims)
        × IsAllowed claims cfg.access_policy.required_claim cfg.access_policy.required_value
        × (check_identity cfg t claims ≡ accepted info)
  unfolding check_claims
  check_claims_sound t none h = cc
  check_claims_sound t (some claims) h =
      let (a, v) = if-accepted _ _ _ h in
      (claims, refl, (access_allowed-IsAllowed claims _ _).0 a, v)

  check_audience_sound :
      (o : Option IdToken)
      → check_audience cfg o ≡ accepted info
      → (t : IdToken) × (o ≡ some t)
        × Memᴰ cfg.resource_uri t.audience
        × (check_claims cfg t t.claims ≡ accepted info)
  unfolding check_audience
  check_audience_sound none h = cc
  check_audience_sound (some t) h =
      let (a, v) = if-accepted _ _ _ h in (t, refl, (has-Memᴰ t.audience _).0 a, v)

  accepted_sound :
      (check : TokenCheck) (token : Text)
      → verify cfg check token ≡ accepted info
      → IsAccepted cfg check token info
  unfolding verify identity
  accepted_sound check token h =
      let (t, checked, audience, h1) = check_audience_sound (check token) h in
      let (claims, readable, allowed, h2) = check_claims_sound t t.claims h1 in
      let (given, name, expires, extra) = check_identity_sound t claims h2 in
      record {
        id_token = t;
        checked = checked;
        in_audience = audience;
        readable = readable ∙ ap some (sym extra);
        allowed =
            subst
              (λ c. IsAllowed c cfg.access_policy.required_claim cfg.access_policy.required_value)
              (sym extra) allowed;
        user =
            subst (λ c. Names c info.user_id (identity_keys cfg.access_policy.identity_claim))
              (sym extra) (Names-first claims info.user_id _ name (by_given given));
        expires = expires;
      }
    where
      by_given : is_unset info.user_id ≡ false → info.user_id ≢ []
      by_given g e = cc (g, (is_unset_iff info.user_id).1 e)

  accepted_complete :
      (check : TokenCheck) (token : Text)
      → IsAccepted cfg check token info
      → verify cfg check token ≡ accepted info
  unfolding verify check_audience check_claims check_identity identity
  accepted_complete check token h =
      let (name, given) = first_usable-Names h.user in
      rw
        (
          h.checked,
          (has-Memᴰ h.id_token.audience cfg.resource_uri).1 h.in_audience,
          h.readable,
          (access_allowed-IsAllowed info.extra cfg.access_policy.required_claim
                cfg.access_policy.required_value).1
              h.allowed,
          name,
          is_unset_none info.user_id given,
        )
        (λ i.
          accepted
            (record { user_id = info.user_id; expiration = sym h.expires i; extra = info.extra }))

-- `Verify` accepts a token with these values exactly when go-oidc verified it, its audience has
-- the resource URI, its claims can be read, the access gate is off or its claim carries the value,
-- and the name is the trimmed text of the first that has more than blanks of these claims: the
-- configured one, preferred_username, email and sub; the claims and the expiry are the token's.
pub verify-IsAccepted :
    (cfg : OidcConfig) (check : TokenCheck) (token : Text) (info : TokenInfo)
    → (verify cfg check token ≡ accepted info) ↔ IsAccepted cfg check token info
verify-IsAccepted cfg check token info =
    (accepted_sound cfg info check token, accepted_complete cfg info check token)
