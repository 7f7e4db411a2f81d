-- ===== src/Config/Blames.antt =====
-- internal/config/config.go: what an error of the loader says of the environment.
pub mod Loader
use clickhouse_mcp.Config.Load.{
  is_port, transport_of, mode_of, derive_entra, derive_google, named, derive_provider,
  load_access_policy, issuer_of, resource_uri_of, load_oidc, with_credentials, load_broker,
  load_mode, load_server, load,
}
use clickhouse_mcp.Config.Numbers.{atoi, parse_bool}
use clickhouse_mcp.Config.{
  Env, ConfigError, Loaded, Transport, AuthMode, AccessPolicy, OidcConfig, BrokerConfig,
  ServerConfig, DerivedProvider, ok, err, ◌>>=◌, ◌>>◌, refuse_if, is_unset, or_default, env_string,
  env_trimmed, env_int, int_or, int_of, env_bool, bool_or, bool_of, required, not_a_number,
  not_a_bool, missing, port_out_of_range, unknown_transport, unknown_mode, unknown_provider, off,
  bearer, broker,
}
use clickhouse_mcp.Prelude.{
  Bool, true, false, not, ◌&&◌, [], ◌∷◌, ◌++◌, Option, none, some, ◌≡◌, ◌≢◌, ◌⊎◌, inl, inr, refl,
  sym, ap, subst, ◌∙◌, arith, ℤ, pos, Bool-cases,
}
use clickhouse_mcp.Text.{Text, codes, equal, equal_iff, trim_space, trim_left, trim_right}

module _ (env : Env) where
  -- The variable that an error names is at fault, or has the value that the error names.
  unfoldable pub Blames : ConfigError → Type 0
  Blames (not_a_number key) = (v : Text) × (env key ≡ some v) × (atoi v ≡ none)
  Blames (not_a_bool key) = (v : Text) × (env key ≡ some v) × (parse_bool v ≡ none)
  Blames (missing key) = is_unset (env_trimmed env key) ≡ true
  Blames (port_out_of_range z) =
      (is_port z ≡ false) × (env_int env (codes "CLICKHOUSE_PORT") (pos 9000) ≡ ok z)
  Blames (unknown_transport v) =
      (v ≡ env_string env (codes "MCP_TRANSPORT") (codes "stdio"))
      × (v ≢ codes "stdio")
      × (v ≢ codes "http")
  Blames (unknown_mode v) =
      (v ≡ env_string env (codes "MCP_AUTH_MODE") (codes "off"))
      × (v ≢ codes "off")
      × (v ≢ codes "bearer")
      × (v ≢ codes "broker")
  Blames (unknown_provider v) =
      (v ≡ trim_space (env_string env (codes "MCP_BROKER_PROVIDER") (codes "generic")))
      × (v ≢ codes "generic")
      × (v ≢ codes "entra")
      × (v ≢ codes "google")

  -- A result, where there is one, has the property, and an error blames a variable that is at fault.
  pub data Sure {A : Type 0} (P : A → Type 0) : Loaded A → Type 0 where
    on_ok : {a : A} → P a → Sure P (ok a)
    on_err : {e : ConfigError} → Blames e → Sure P (err e)

  pub Sure-bind :
      {A B : Type 0} (P : A → Type 0) (Q : B → Type 0) (m : Loaded A) (k : A → Loaded B)
      → Sure P m
      → ((a : A) → m ≡ ok a → P a → Sure Q (k a))
      → Sure Q (m >>= k)
  unfolding ◌>>=◌
  Sure-bind P Q (ok a) k (on_ok p) f = f a refl p
  Sure-bind P Q (err e) k (on_err b) f = on_err b

  pub Sure-guard :
      {B : Type 0} (Q : B → Type 0) (b : Bool) (e : ConfigError) (m : Loaded B)
      → (b ≡ true → Blames e)
      → (b ≡ false → Sure Q m)
      → Sure Q (refuse_if b e >> m)
  unfolding ◌>>◌ ◌>>=◌ refuse_if
  Sure-guard Q true e m blame f = on_err (blame refl)
  Sure-guard Q false e m blame f = f refl

  pub Sure-err :
      {A : Type 0} (P : A → Type 0) (m : Loaded A) (e : ConfigError)
      → Sure P m
      → m ≡ err e
      → Blames e
  Sure-err P (ok a) e (on_ok p) q = cc
  Sure-err P (err x) e (on_err b) q = let same : x ≡ e = cc in subst Blames same b

  pub blame : {A : Type 0} (P : A → Type 0) (e : ConfigError) → Blames e → Sure P (err e)
  blame P e b = on_err b

  pub gives : {A : Type 0} (P : A → Type 0) (a : A) → P a → Sure P (ok a)
  gives P a p = on_ok p

  abbrev pub Any : {A : Type 0} → A → Type 0
  Any a = Unit

  int_of-Sure :
      (key v : Text) (o : Option ℤ) → env key ≡ some v → atoi v ≡ o → Sure Any (int_of env key o)
  unfolding int_of
  int_of-Sure key v none at e = blame Any _ (unfold Blames in (v, at, e))
  int_of-Sure key v (some n) at e = on_ok tt

  pub env_int-Sure : (key : Text) (def : ℤ) → Sure Any (env_int env key def)
  unfolding env_int
  env_int-Sure key def = from (env key) refl
    where
      from : (o : Option Text) → env key ≡ o → Sure Any (int_or env key def o)
      from none at = unfold int_or in on_ok tt
      from (some v) at = unfold int_or in int_of-Sure key v (atoi v) at refl

  bool_of-Sure :
      (key v : Text) (o : Option Bool)
      → env key ≡ some v
      → parse_bool v ≡ o
      → Sure Any (bool_of env key o)
  unfolding bool_of
  bool_of-Sure key v none at e = blame Any _ (unfold Blames in (v, at, e))
  bool_of-Sure key v (some n) at e = on_ok tt

  pub env_bool-Sure : (key : Text) (def : Bool) → Sure Any (env_bool env key def)
  unfolding env_bool
  env_bool-Sure key def = from (env key) refl
    where
      from : (o : Option Text) → env key ≡ o → Sure Any (bool_or env key def o)
      from none at = unfold bool_or in on_ok tt
      from (some v) at = unfold bool_or in bool_of-Sure key v (parse_bool v) at refl

  pub required-Sure : (key : Text) → Sure Any (required env key)
  unfolding required
  required-Sure key = Sure-guard Any _ _ _ (λ e. unfold Blames in e) (λ e. on_ok tt)

  -- A test that fails.
  pub not_equal : (a b : Text) → equal a b ≡ false → a ≢ b
  not_equal a b h e = let same = (equal_iff a b).1 e in cc

  pub transport_of-Sure :
      (v : Text)
      → v ≡ env_string env (codes "MCP_TRANSPORT") (codes "stdio")
      → Sure Any (transport_of v)
  unfolding transport_of
  transport_of-Sure v at = elim (Bool-cases (equal v (codes "stdio"))) [
    | inl a ↦ rw a (on_ok tt)
    | inr a ↦ elim (Bool-cases (equal v (codes "http"))) [
      | inl b ↦ rw (a, b) (on_ok tt)
      | inr b ↦ rw (a, b) (blame Any _ (unfold Blames in (at, not_equal v _ a, not_equal v _ b)))
    ]
  ]

  pub mode_of-Sure :
      (v : Text) → v ≡ env_string env (codes "MCP_AUTH_MODE") (codes "off") → Sure Any (mode_of v)
  unfolding mode_of
  mode_of-Sure v at = elim (Bool-cases (equal v (codes "off"))) [
    | inl a ↦ rw a (on_ok tt)
    | inr a ↦ elim (Bool-cases (equal v (codes "bearer"))) [
      | inl b ↦ rw (a, b) (on_ok tt)
      | inr b ↦ elim (Bool-cases (equal v (codes "broker"))) [
        | inl c ↦ rw (a, b, c) (on_ok tt)
        | inr c ↦
            rw (a, b, c)
              (blame Any _
                (unfold Blames in (at, not_equal v _ a, not_equal v _ b, not_equal v _ c)))
      ]
    ]
  ]
