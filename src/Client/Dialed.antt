-- ===== src/Client/Dialed.antt =====
-- internal/clickhouse/client.go with internal/config/config.go: what the environment has dialed.
use clickhouse_mcp.Client.{
  Options, version_tls12, Dialer, Opening, opened, not_opened, connected, host_port, tls_config,
  options, after_ping, after_open, new_client,
}
use clickhouse_mcp.Config.Load.{is_port, load}
use clickhouse_mcp.Config.Numbers.{atoi, parse_bool}
use clickhouse_mcp.Config.OnOk.{OnOk, OnOk-bind, OnOk-any, OnOk-guard, OnOk-of, OnOk-ok}
use clickhouse_mcp.Config.{
  Env, Config, ok, env_string, env_int, int_or, int_of, env_bool, bool_or, bool_of,
}
use clickhouse_mcp.Prelude.{
  ℕ, ◌<◌, Bool, true, false, not, [], ◌∷◌, ◌++◌, Option, none, some, ◌≡◌, ◌⊎◌, inl, inr, refl, sym,
  ap, ◌∙◌, arith, ℤ, pos, negsuc, if◌then◌else◌,
}
use clickhouse_mcp.Query.Bound.Decimal.{atoi-itoa, InRange}
use clickhouse_mcp.Query.Bound.{itoa}
use clickhouse_mcp.Text.{Text, codes}

-- A variable that is read with a default: it is unset and the default applies, or `read` reads it.
abbrev pub IsRead : {A : Type 0} → Env → Text → A → (Text → Option A) → A → Type 0
IsRead env key def read a =
    ((env key ≡ none) × (a ≡ def)) ⊎ ((v : Text) × (env key ≡ some v) × (read v ≡ some a))

-- What is dialed in an environment: one address, which is the host, a colon and a port text; the
-- port text is read as the port that the environment gives; TLS from 1.2 on where it is asked for.
pub record Dials (env : Env) (o : Options) : Type 0 where
  pub port : ℕ
  pub port_text : Text
  pub addr_is :
      o.addr
      ≡ (env_string env (codes "CLICKHOUSE_HOST") (codes "localhost") ++ (b':' ∷ port_text)) ∷ []
  pub text_is : atoi port_text ≡ some (pos port)
  pub in_range : (0 < port) × (port < 65536)
  pub port_is : IsRead env (codes "CLICKHOUSE_PORT") (pos 9000) atoi (pos port)
  pub secure : Bool
  pub secure_is : IsRead env (codes "CLICKHOUSE_SECURE") false parse_bool secure
  pub tls_is : o.tls ≡ (if secure then some (record { min_version = version_tls12 }) else none)

module _ (env : Env) where
  env_int-IsRead :
      (key : Text) (def : ℤ) → OnOk (λ n. IsRead env key def atoi n) (env_int env key def)
  unfolding env_int
  env_int-IsRead key def = from (env key) refl
    where
      read :
          (v : Text) (o : Option ℤ)
          → env key ≡ some v
          → atoi v ≡ o
          → OnOk (λ n. IsRead env key def atoi n) (int_of env key o)
      read v none at e = unfold OnOk int_of in tt
      read v (some n) at e = unfold OnOk int_of in inr (v, at, e)

      from :
          (o : Option Text)
          → env key ≡ o
          → OnOk (λ n. IsRead env key def atoi n) (int_or env key def o)
      from none at = unfold OnOk int_or in inl (at, refl)
      from (some v) at = unfold int_or in read v (atoi v) at refl

  env_bool-IsRead :
      (key : Text) (def : Bool) → OnOk (λ b. IsRead env key def parse_bool b) (env_bool env key def)
  unfolding env_bool
  env_bool-IsRead key def = from (env key) refl
    where
      read :
          (v : Text) (o : Option Bool)
          → env key ≡ some v
          → parse_bool v ≡ o
          → OnOk (λ b. IsRead env key def parse_bool b) (bool_of env key o)
      read v none at e = unfold OnOk bool_of in tt
      read v (some b) at e = unfold OnOk bool_of in inr (v, at, e)

      from :
          (o : Option Text)
          → env key ≡ o
          → OnOk (λ b. IsRead env key def parse_bool b) (bool_or env key def o)
      from none at = unfold OnOk bool_or in inl (at, refl)
      from (some v) at = unfold bool_or in read v (parse_bool v) at refl

  tls_config_if :
      (b : Bool)
      → tls_config b ≡ (if b then some (record { min_version = version_tls12 }) else none)
  unfolding tls_config
  tls_config_if true = refl
  tls_config_if false = refl

  -- The settings with a port within its bounds.
  options-Dials :
      (cfg : Config) (z : ℤ) (b : Bool)
      → cfg.port ≡ z
      → not (is_port z) ≡ false
      → IsRead env (codes "CLICKHOUSE_PORT") (pos 9000) atoi z
      → cfg.secure ≡ b
      → IsRead env (codes "CLICKHOUSE_SECURE") false parse_bool b
      → cfg.host ≡ env_string env (codes "CLICKHOUSE_HOST") (codes "localhost")
      → Dials env (options cfg)
  unfolding options host_port is_port
  options-Dials cfg (negsuc n) b at h read sec sec_read host = cc
  options-Dials cfg (pos n) b at h read sec sec_read host = record {
    port = n;
    port_text = itoa (pos n);
    addr_is = rw (at, host) refl;
    text_is = atoi-itoa (pos n) (unfold InRange in ground arith);
    in_range = (ground arith, ground arith);
    port_is = read;
    secure = b;
    secure_is = sec_read;
    tls_is = rw sec (tls_config_if b);
  }

  abbrev Dialed : Config → Type 0
  Dialed cfg = Dials env (options cfg)

  load-Dialed : OnOk Dialed (load env)
  unfolding load
  load-Dialed =
      OnOk-bind _ Dialed _ _ (env_int-IsRead (codes "CLICKHOUSE_PORT") (pos 9000)) (λ port read.
        OnOk-guard Dialed _ _ _ (λ in_range.
          OnOk-bind _ Dialed _ _ (env_bool-IsRead (codes "CLICKHOUSE_SECURE") false)
            (λ secure sec_read. OnOk-any Dialed _ _ (λ server.
              OnOk-of Dialed _
                (options-Dials _ port secure refl in_range read refl sec_read refl)))))

module _ {C : Type 0} (d : Dialer C) where
  after_ping-live :
      (cfg : Config) (made conn : C) (o : Option Text)
      → after_ping d cfg made o ≡ connected conn
      → (made ≡ conn) × (o ≡ none)
  unfolding after_ping
  after_ping-live cfg made conn none e = (cc, refl)
  after_ping-live cfg made conn (some why) e = cc

  after_open-live :
      (cfg : Config) (o : Opening C) (conn : C)
      → after_open d cfg o ≡ connected conn
      → (o ≡ opened conn) × (d.ping_error conn ≡ none)
  unfolding after_open
  after_open-live cfg (not_opened why) conn e = cc
  after_open-live cfg (opened made) conn e =
      let (same, alive) = after_ping-live cfg made conn (d.ping_error made) e in
      (ap opened same, sym (ap (λ x. d.ping_error x) same) ∙ alive)

  -- A connection that New hands out under settings that Load gave was opened with the options, and
  -- its ping had no error.
  pub new_client-live :
      (cfg : Config) (conn : C)
      → new_client d cfg ≡ connected conn
      → (d.dial (options cfg) ≡ opened conn) × (d.ping_error conn ≡ none)
  unfolding new_client
  new_client-live cfg conn e = after_open-live cfg (d.dial (options cfg)) conn e

-- A connection that New hands out under the settings of an environment has answered its ping, and
-- was opened at one address: the host that the environment gives, a colon, and a text that is read
-- back as the environment's port, or as 9000 where none is given, from 1 to 65535. It has TLS from
-- version 1.2 on exactly where CLICKHOUSE_SECURE is a true value.
pub new_client-Dials :
    {C : Type 0} (d : Dialer C) (env : Env) (cfg : Config) (conn : C)
    → load env ≡ ok cfg
    → new_client d cfg ≡ connected conn
    → (o : Options) × Dials env o × (d.dial o ≡ opened conn) × (d.ping_error conn ≡ none)
new_client-Dials d env cfg conn loaded made =
    let (at, alive) = new_client-live d cfg conn made in
    (
      options cfg,
      OnOk-ok (λ c. Dials env (options c)) (load env) cfg (load-Dialed env) loaded,
      at,
      alive,
    )
