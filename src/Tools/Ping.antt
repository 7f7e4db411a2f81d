-- ===== src/Tools/Ping.antt =====
-- internal/tools/ping.go: the tool that checks the connection.
use clickhouse_mcp.Prelude.{◌++◌, [], none, pos}
use clickhouse_mcp.Query.Bound.{itoa}
use clickhouse_mcp.Query.Serialize.{Foreign}
use clickhouse_mcp.Text.{Text, codes}
use clickhouse_mcp.Tools.Driver.{Registered, Driver, Tool, query, conn_query_row, ◌>>=◌, return}

module _ {f : Foreign} (d : Driver f) where
  open d use {World}

  -- The handler that `RegisterPing` adds. The text of its answer is the result.
  unfoldable pub ping : Tool World Text
  ping = do
    n ← conn_query_row d (query none (codes "SELECT 1") [])
    return (codes "ok (" ++ (itoa (pos n) ++ codes ")"))

  -- `RegisterPing`.
  unfoldable pub register_ping : Registered World (Unit {0}) Text
  register_ping = record {
    name = codes "ping";
    description = codes "Verify the ClickHouse connection by issuing SELECT 1.";
    handler = λ args. ping;
  }
