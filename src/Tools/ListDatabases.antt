-- ===== src/Tools/ListDatabases.antt =====
-- internal/tools/list_databases.go: the tool that lists the databases.
pub mod Bounded
use clickhouse_mcp.Prelude.{◌++◌, List, [], ◌∷◌, some, ℤ, pos, add_one}
use clickhouse_mcp.Query.Serialize.{Foreign}
use clickhouse_mcp.Query.Shape.{Truncation}
use clickhouse_mcp.Text.{Text, codes}
use clickhouse_mcp.Tools.Driver.{
  Registered, Driver, Tool, Call, one_text, query, arg_int, default_read_context, conn_query,
  read_rows, ◌>>=◌, return, or_panic,
}
use clickhouse_mcp.Tools.Limit.{default_database_limit, resolve_limit, truncate}
use clickhouse_mcp.Tools.RunQuery.{lift}

-- `listDatabasesOutput`.
pub record ListDatabasesOutput : Type 0 where
  pub databases : List Text
  pub truncation : Truncation

unfoldable pub databases_call : ℤ → Call
databases_call limit =
    query (some default_read_context)
      (codes "SELECT name FROM system.databases ORDER BY name LIMIT ?")
      (arg_int (add_one limit) ∷ [])

module _ {f : Foreign} (d : Driver f) where
  open d use {World}

  -- `listDatabases`, on the limit of its arguments.
  unfoldable pub list_databases : ℤ → Tool World ListDatabasesOutput
  list_databases arg_limit = do
    let limit = resolve_limit arg_limit (pos default_database_limit)
    rows ← conn_query d one_text (databases_call limit)
    names ← lift d (read_rows rows.rows rows.failure)
    kept ← or_panic (truncate names limit (codes "databases"))
    return (record { databases = kept.items; truncation = kept.truncation })

  -- `RegisterListDatabases`.
  unfoldable pub register_list_databases : Registered World ℤ ListDatabasesOutput
  register_list_databases = record {
    name = codes "list_databases";
    description =
        codes "Start here: list the databases on the ClickHouse server. "
        ++ (codes "Use list_tables next to see a database's tables.");
    handler = list_databases;
  }
