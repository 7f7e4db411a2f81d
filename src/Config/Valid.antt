-- ===== src/Config/Valid.antt =====
-- internal/config/config.go: what the settings that `Load` gives are sure to satisfy.
use clickhouse_mcp.Config.Load.{is_port, load_broker, server_with, load_mode, load_server, load}
use clickhouse_mcp.Config.Settings.{
  IsVerifiable, IsUsable, AllPreset, load_oidc-IsVerifiable, derive_provider-AllPreset,
  with_credentials-IsUsable,
}
use clickhouse_mcp.Config.{
  Env, Transport, AuthMode, ServerConfig, Config, DerivedProvider, no_oidc, no_broker, ok, off,
  bearer, broker,
}
use clickhouse_mcp.Config.OnOk.{OnOk, OnOk-bind, OnOk-any, OnOk-guard, OnOk-of, OnOk-ok}
use clickhouse_mcp.Prelude.{ℕ, ◌<◌, negsuc, false, not, Option, none, ◌≡◌, refl, ℤ, pos, arith}

-- In each mode, the settings that it uses are complete and the others are empty.
unfoldable pub IsComplete : AuthMode → ServerConfig → Type 0
IsComplete off s = (s.oidc ≡ no_oidc) × (s.broker_config ≡ no_broker)
IsComplete bearer s = IsVerifiable s.oidc × (s.broker_config ≡ no_broker)
IsComplete broker s = IsVerifiable s.oidc × IsUsable s.broker_config

module _ (env : Env) where
  load_broker-IsUsable :
      (derived : Option DerivedProvider)
      → AllPreset derived
      → OnOk IsUsable (load_broker env derived)
  unfolding load_broker
  load_broker-IsUsable derived h =
      OnOk-any IsUsable _ _ (λ url. with_credentials-IsUsable env url derived h)

  abbrev Complete : ServerConfig → Type 0
  Complete s = IsComplete s.auth_mode s

  load_mode-IsComplete : (t : Transport) (m : AuthMode) → OnOk Complete (load_mode env t m)
  unfolding load_mode server_with IsComplete
  load_mode-IsComplete t off = OnOk-of Complete _ (refl, refl)
  load_mode-IsComplete t bearer =
      OnOk-bind IsVerifiable Complete _ _ (load_oidc-IsVerifiable env none)
        (λ o h. OnOk-of Complete _ (h, refl))
  load_mode-IsComplete t broker =
      OnOk-bind AllPreset Complete _ _ (derive_provider-AllPreset env) (λ d p.
        OnOk-bind IsVerifiable Complete _ _ (load_oidc-IsVerifiable env d) (λ o h.
          OnOk-bind IsUsable Complete _ _ (load_broker-IsUsable d p)
            (λ b u. OnOk-of Complete _ (h, u))))

  load_server-IsComplete : OnOk Complete (load_server env)
  unfolding load_server
  load_server-IsComplete =
      OnOk-any Complete _ _ (λ t. OnOk-any Complete _ _ (λ m. load_mode-IsComplete t m))

  abbrev Valid : Config → Type 0
  Valid c = ((n : ℕ) × (c.port ≡ pos n) × (0 < n) × (n < 65536)) × Complete c.server

  load-OnOk : OnOk Valid (load env)
  unfolding load is_port
  load-OnOk = OnOk-any Valid _ _ (λ port. OnOk-guard Valid _ _ _ (λ in_range.
      OnOk-any Valid _ _ (λ secure.
        OnOk-bind Complete Valid _ _ load_server-IsComplete
          (λ s h. OnOk-of Valid _ (bounds port in_range, h)))))
    where
      bounds : (p : ℤ) → not (is_port p) ≡ false → (n : ℕ) × (p ≡ pos n) × (0 < n) × (n < 65536)
      bounds (pos n) h = (n, refl, ground arith, ground arith)
      bounds (negsuc n) h = cc

pub load-IsComplete :
    (env : Env) (c : Config)
    → load env ≡ ok c
    → ((n : ℕ) × (c.port ≡ pos n) × (0 < n) × (n < 65536)) × IsComplete c.server.auth_mode c.server
load-IsComplete env c e = OnOk-ok (Valid env) (load env) c (load-OnOk env) e
