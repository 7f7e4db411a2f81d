-- ===== src/Tools/RunStatement.antt =====
-- internal/tools/run_statement.go: the tool for statements that return no rows.
pub mod Written
use clickhouse_mcp.Prelude.{◌++◌, ℕ}
use clickhouse_mcp.Query.Keyword.{is_blank, is_row_returning}
use clickhouse_mcp.Query.Scanner.{contains_multiple_statements}
use clickhouse_mcp.Query.Serialize.{Foreign}
use clickhouse_mcp.Text.{Text, codes}
use clickhouse_mcp.Tools.Driver.{
  Registered, Driver, Tool, exec_written, ◌>>=◌, ◌>>◌, return, reject_if, empty_statement,
  multiple_statements, row_returning,
}

-- `runStatementOutput`.
pub record RunStatementOutput : Type 0 where
  pub rows_written : ℕ

module _ {f : Foreign} (d : Driver f) where
  open d use {World}

  -- `runStatement`, on the text of its arguments.
  unfoldable pub run_statement : Text → Tool World RunStatementOutput
  run_statement sql = do
    reject_if (is_blank sql) empty_statement
    reject_if (contains_multiple_statements sql) multiple_statements
    reject_if (is_row_returning sql) row_returning
    wrote ← exec_written d sql
    return (record { rows_written = wrote })

  -- `RegisterRunStatement`.
  unfoldable pub register_run_statement : Registered World Text RunStatementOutput
  register_run_statement = record {
    name = codes "run_statement";
    description =
        codes "Execute a single ClickHouse statement that does not return rows "
        ++ (codes "(INSERT, ALTER, CREATE, DROP, etc.) and report rows written. Whether the "
            ++ (codes "connected user may run it is enforced by ClickHouse; a lack of privilege "
                ++ (codes
                      "comes back as its error. Use run_query for SELECT and other row-returning "
                    ++ (codes "statements."))));
    handler = run_statement;
  }
