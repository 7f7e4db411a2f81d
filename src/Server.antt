-- ===== src/Server.antt =====
-- internal/server/server.go: the server with its five tools, each over the one connection. The MCP
-- library reads a request's name and arguments and calls the handler that was added under the name.
pub mod Allowed
use clickhouse_mcp.Prelude.{ℕ, List, [], ◌∷◌, ℤ}
use clickhouse_mcp.Query.Serialize.{Foreign, Json}
use clickhouse_mcp.Query.Shape.{Result}
use clickhouse_mcp.Text.{Text, codes}
use clickhouse_mcp.Tools.Driver.{Driver, Tool, Session, Outcome, ◌>>=◌, return}
use clickhouse_mcp.Tools.ListDatabases.{ListDatabasesOutput, register_list_databases}
use clickhouse_mcp.Tools.ListTables.{ListTablesArgs, ListTablesOutput, register_list_tables}
use clickhouse_mcp.Tools.Ping.{register_ping}
use clickhouse_mcp.Tools.RunQuery.{RunQueryArgs, register_run_query}
use clickhouse_mcp.Tools.RunStatement.{RunStatementOutput, register_run_statement}

-- A call of a tool, with its arguments.
pub data Request : Type 0 where
  to_ping : Request
  to_list_databases : (limit : ℤ) → Request
  to_list_tables : ListTablesArgs → Request
  to_run_query : RunQueryArgs → Request
  to_run_statement : (sql : Text) → Request

-- What a tool answers.
pub data Reply (f : Foreign) : Type 0 where
  pong : Text → Reply f
  databases : ListDatabasesOutput → Reply f
  tables : ListTablesOutput → Reply f
  rows : Result (Json f) → Reply f
  written : RunStatementOutput → Reply f

module _ {f : Foreign} (d : Driver f) where
  open d use {World}

  -- The name under which `New` adds the tool.
  unfoldable pub tool_name : Request → Text
  unfolding register_ping register_list_databases register_list_tables register_run_query
      register_run_statement
  tool_name to_ping = (register_ping d).name
  tool_name (to_list_databases limit) = (register_list_databases d).name
  tool_name (to_list_tables args) = (register_list_tables d).name
  tool_name (to_run_query args) = (register_run_query d).name
  tool_name (to_run_statement sql) = (register_run_statement d).name

  -- The handlers that `New` adds.
  unfoldable pub handle : Request → Tool World (Reply f)
  unfolding register_ping register_list_databases register_list_tables register_run_query
      register_run_statement
  handle to_ping = do t ← (register_ping d).handler tt; return (pong t)
  handle (to_list_databases limit) = do
    out ← (register_list_databases d).handler limit
    return (databases out)
  handle (to_list_tables args) = do out ← (register_list_tables d).handler args; return (tables out)
  handle (to_run_query args) = do out ← (register_run_query d).handler args; return (rows out)
  handle (to_run_statement sql) = do
    out ← (register_run_statement d).handler sql
    return (written out)

  -- Requests one after the other: the outcome of each, and the session behind them.
  unfoldable pub serve : List Request → Session World → List (Outcome (Reply f)) × Session World
  serve [] s = ([], s)
  serve (r ∷ rs) s = let (o, t) = handle r s in let (os, u) = serve rs t in (o ∷ os, u)
