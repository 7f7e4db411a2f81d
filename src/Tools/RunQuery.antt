-- ===== src/Tools/RunQuery.antt =====
-- internal/tools/run_query.go: the tool for statements that return rows.
pub mod Sent
pub mod Bounded
pub mod Wrapped
use clickhouse_mcp.Prelude.{
  ◌++◌, ℕ, suc, Bool, true, false, not, List, [], ◌∷◌, map, Option, none, some, if◌then◌else◌, ℤ,
  pos, add_one, is_positive,
}
use clickhouse_mcp.Query.Bound.{bound}
use clickhouse_mcp.Query.Keyword.{is_blank, is_row_returning}
use clickhouse_mcp.Query.Output.{has_unsupported_output_clause, has_top_level_order_by}
use clickhouse_mcp.Query.Scanner.{contains_multiple_statements}
use clickhouse_mcp.Query.Serialize.{Foreign, Value, Json, to_json_value}
use clickhouse_mcp.Query.Shape.{Result, shape}
use clickhouse_mcp.Text.{Text, codes}
use clickhouse_mcp.Tools.Driver.{
  Registered, Driver, Tool, Rows, Outcome, ok, err, any_values, query, default_read_context,
  conn_query, read_rows, ◌>>=◌, ◌>>◌, return, fail, reject_if, or_panic, empty_statement,
  multiple_statements, not_row_returning, unsupported_output, Call,
}
use clickhouse_mcp.Tools.Limit.{default_row_limit}

-- `runQueryArgs`.
pub record RunQueryArgs : Type 0 where
  pub sql : Text
  pub limit : ℤ

-- The limit that `runQuery` passes on.
unfoldable pub row_limit : ℤ → ℤ
unfolding is_positive
row_limit limit = if not (is_positive limit) then pos default_row_limit else limit

-- The one call of `execBounded`.
unfoldable pub bounded_call : Text → ℤ → Call
bounded_call sql display_limit =
    query (some default_read_context) (bound sql (add_one display_limit)) []

module _ {f : Foreign} (d : Driver f) where
  open d use {World}

  -- One row: the value at each column's index, by the column's type.
  unfoldable pub row_json : List Text → ℕ → (ℕ → Value f) → List (Json f)
  row_json [] i row = []
  row_json (t ∷ ts) i row = to_json_value f (row i) t ∷ row_json ts (suc i) row

  unfoldable pub lift {ℓ} : {A : Type ℓ} → Outcome A → Tool World A
  lift (ok a) = return a
  lift (err e) = fail e

  -- `scanRows`, but for the column names, which it passes on.
  unfoldable pub scan_rows : Rows (ℕ → Value f) → Tool World (List (List (Json f)))
  unfolding lift row_json
  scan_rows rows = do
    fetched ← lift (read_rows rows.rows rows.failure)
    return (map (row_json rows.column_types 0) fetched)

  -- What `execBounded` makes of the rows; the deferred `rows.Close()` is the driver's own matter.
  unfoldable pub shape_answer : Text → ℤ → Rows (ℕ → Value f) → Tool World (Result (Json f))
  shape_answer sql display_limit rows = do
    fetched ← scan_rows rows
    or_panic
        (shape rows.columns rows.column_types fetched display_limit (has_top_level_order_by sql))

  -- `execBounded`.
  unfoldable pub exec_bounded : Text → ℤ → Tool World (Result (Json f))
  exec_bounded sql display_limit =
      conn_query d any_values (bounded_call sql display_limit) >>= shape_answer sql display_limit

  -- `runQuery`.
  unfoldable pub run_query : RunQueryArgs → Tool World (Result (Json f))
  run_query args = do
    reject_if (is_blank args.sql) empty_statement
    reject_if (contains_multiple_statements args.sql) multiple_statements
    reject_if (not (is_row_returning args.sql)) not_row_returning
    reject_if (has_unsupported_output_clause args.sql) unsupported_output
    exec_bounded args.sql (row_limit args.limit)

  -- `RegisterRunQuery`.
  unfoldable pub register_run_query : Registered World RunQueryArgs (Result (Json f))
  register_run_query = record {
    name = codes "run_query";
    description =
        codes "Run a single row-returning ClickHouse query (SELECT/WITH/SHOW/"
        ++ (codes "DESCRIBE/EXPLAIN/EXISTS) and return typed rows plus each column's type. "
            ++ (codes "Large integers and decimals are returned as strings to avoid precision "
                ++ (codes
                      "loss; use column_types to tell those from real strings. Use run_statement "
                    ++ (codes "for writes and DDL."))));
    handler = run_query;
  }
