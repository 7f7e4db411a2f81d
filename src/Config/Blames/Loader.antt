-- ===== src/Config/Blames/Loader.antt =====
-- internal/config/config.go: what an error of each step of the loader says of the environment.
use clickhouse_mcp.Config.Blames.{Blames}
use clickhouse_mcp.Config.{Env, DerivedProvider, is_unset, env_trimmed}
use clickhouse_mcp.Prelude.{true, false, Option, none, some, ◌≡◌}
use clickhouse_mcp.Text.{Text, codes}

module _ (env : Env) where
  -- What a named provider presets: an issuer, and an audience unless the environment has a blank one.
  record IsDerived (d : DerivedProvider) : Type 0 where
    issuer_given : is_unset d.issuer ≡ false
    resource_blank :
        is_unset d.resource_uri ≡ true
        → is_unset (env_trimmed env (codes "MCP_RESOURCE_URI")) ≡ true

  unfoldable AllDerived : Option DerivedProvider → Type 0
  AllDerived none = Unit
  AllDerived (some d) = IsDerived d
