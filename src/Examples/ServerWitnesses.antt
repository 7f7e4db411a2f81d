-- ===== src/Examples/ServerWitnesses.antt =====
-- The theorems of the settings and of the token check at concrete inputs.
use clickhouse_mcp.Auth.Verifier.Accepts.{IsAccepted, verify-IsAccepted}
use clickhouse_mcp.Auth.Verifier.{accepted, verify}
use clickhouse_mcp.Examples.MockServer.{entra_oidc, good, ada_info}
use clickhouse_mcp.Prelude.{◌≡◌, ◌↔◌}
use clickhouse_mcp.Text.{codes}

verify-IsAccepted_example :
    (verify entra_oidc good (codes "good") ≡ accepted ada_info)
    ↔ IsAccepted entra_oidc good (codes "good") ada_info
verify-IsAccepted_example = verify-IsAccepted entra_oidc good (codes "good") ada_info
