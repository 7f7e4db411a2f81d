-- ===== src/Tools/ListTables.antt =====
-- internal/tools/list_tables.go: the tool that lists the tables of a database.
pub mod Empty
pub mod Parts
pub mod Bounded
use clickhouse_mcp.Prelude.{
  ℕ, ◌+◌, Bool, true, false, ◌||◌, not, List, [], ◌∷◌, ◌++◌, map, Option, some, ltb, if◌then◌else◌,
  length, take, ℤ, pos, add_one, is_positive,
}
use clickhouse_mcp.Query.Serialize.{Foreign}
use clickhouse_mcp.Query.Shape.{Truncation}
use clickhouse_mcp.Text.{Text, codes, equal}
use clickhouse_mcp.Tools.Driver.{
  Registered, Driver, Tool, Call, table_row, column_row, query, arg_text, arg_int, Arg, TableRow,
  ColumnRow, default_read_context, conn_query, conn_query_row, read_rows, ◌>>=◌, ◌>>◌, return,
  reject_if, or_panic, database_required, database_not_found, table_not_found,
}
use clickhouse_mcp.Tools.Limit.{
  Kept, kept_all, max_columns_per_table, resolve_table_limit, truncate,
}
use clickhouse_mcp.Tools.RunQuery.{lift}

-- `listTablesArgs`.
pub record ListTablesArgs : Type 0 where
  pub database : Text
  pub table : Text
  pub columns : Bool
  pub limit : ℤ

-- `tableInfo`; a `column` is a row of system.columns.
pub record TableInfo : Type 0 where
  pub name : Text
  pub engine : Text
  pub row_count : Option ℕ
  pub comment : Text
  pub columns : List ColumnRow
  pub columns_truncated : Bool

-- `listTablesOutput`.
pub record ListTablesOutput : Type 0 where
  pub database : Text
  pub tables : List TableInfo
  pub truncation : Truncation

unfoldable pub is_empty : Text → Bool
is_empty s = equal s []

-- The text of `leanTables`.
unfoldable pub tables_sql : Text → ℤ → Text
unfolding is_empty
tables_sql table fetch =
    codes "SELECT name, engine, total_rows, comment FROM system.tables WHERE database = ?"
    ++ ((if is_empty table then [] else codes " AND name = ?")
        ++ (codes " ORDER BY name" ++ (if is_positive fetch then codes " LIMIT ?" else [])))

-- The arguments of `leanTables`.
unfoldable pub tables_args : Text → Text → ℤ → List Arg
unfolding is_empty
tables_args database table fetch =
    arg_text database
    ∷ ((if is_empty table then [] else arg_text table ∷ [])
        ++ (if is_positive fetch then arg_int fetch ∷ [] else []))

unfoldable pub tables_call : Text → Text → ℤ → Call
unfolding tables_sql tables_args
tables_call database table fetch =
    query (some default_read_context) (tables_sql table fetch) (tables_args database table fetch)

unfoldable pub columns_call : Text → Text → Call
columns_call database table =
    query (some default_read_context)
      (codes
        "SELECT name, type FROM system.columns WHERE database = ? AND table = ? ORDER BY position LIMIT ?")
      (arg_text database ∷ arg_text table ∷ arg_int (pos (max_columns_per_table + 1)) ∷ [])

unfoldable pub database_call : Text → Call
database_call database =
    query (some default_read_context) (codes "SELECT count() FROM system.databases WHERE name = ?")
      (arg_text database ∷ [])

-- A row as `rows.Scan` leaves it, before any columns are folded in.
unfoldable pub table_info : TableRow → TableInfo
table_info r = record {
  name = r.name;
  engine = r.engine;
  row_count = r.total_rows;
  comment = r.comment;
  columns = [];
  columns_truncated = false;
}

-- The cut of `tableColumns`: the table with at most 200 of the columns that were read.
unfoldable pub with_columns : TableInfo → List ColumnRow → TableInfo
with_columns t cols =
    if ltb max_columns_per_table (length cols)
    then record t { columns = take max_columns_per_table cols; columns_truncated = true }
    else record t { columns = cols; columns_truncated = false }

-- `fetch`: one table is addressed by name, and any other listing reads one more than it shows.
unfoldable pub fetch_of : ListTablesArgs → ℤ → ℤ
unfolding is_empty
fetch_of args limit = if not (is_empty args.table) then pos 0 else add_one limit

module _ {f : Foreign} (d : Driver f) where
  open d use {World}

  -- `leanTables`.
  unfoldable pub lean_tables : Text → Text → ℤ → Tool World (List TableInfo)
  lean_tables database table fetch = do
    rows ← conn_query d table_row (tables_call database table fetch)
    read ← lift d (read_rows rows.rows rows.failure)
    return (map table_info read)

  -- `databaseExists`.
  unfoldable pub database_exists : Text → Tool World Bool
  database_exists database = do n ← conn_query_row d (database_call database); return (ltb 0 n)

  -- `tableColumns`, with the two assignments that follow its call.
  unfoldable pub table_columns : Text → TableInfo → Tool World TableInfo
  unfolding with_columns
  table_columns database t = do
    rows ← conn_query d column_row (columns_call database t.name)
    cols ← lift d (read_rows rows.rows rows.failure)
    return (with_columns t cols)

  -- The loop over the tables.
  unfoldable pub all_columns : Text → List TableInfo → Tool World (List TableInfo)
  all_columns database [] = return []
  all_columns database (t ∷ ts) = do
    t' ← table_columns database t
    ts' ← all_columns database ts
    return (t' ∷ ts')

  -- The check behind an empty listing.
  unfoldable pub explain_empty : ListTablesArgs → List TableInfo → Tool World (Unit {0})
  explain_empty args (t ∷ ts) = return tt
  explain_empty args [] = do
    exists ← database_exists args.database
    reject_if (not exists) (database_not_found args.database)
    reject_if (not (is_empty args.table)) (table_not_found args.table args.database)

  unfoldable pub cut_tables : ListTablesArgs → List TableInfo → ℤ → Tool World (Kept TableInfo)
  cut_tables args tables limit =
      if is_empty args.table
      then or_panic (truncate tables limit (codes "tables"))
      else return (kept_all tables limit)

  -- `listTables`.
  unfoldable pub list_tables : ListTablesArgs → Tool World ListTablesOutput
  list_tables args = do
    reject_if (is_empty args.database) database_required
    let limit = resolve_table_limit args.limit args.columns
    tables ← lean_tables args.database args.table (fetch_of args limit)
    explain_empty args tables
    kept ← cut_tables args tables limit
    folded ←
        (if not (is_empty args.table) || args.columns
          then all_columns args.database kept.items
          else return kept.items)
    return (record { database = args.database; tables = folded; truncation = kept.truncation })

  -- `RegisterListTables`.
  unfoldable pub register_list_tables : Registered World ListTablesArgs ListTablesOutput
  register_list_tables = record {
    name = codes "list_tables";
    description =
        codes "List a database's tables (name, engine, row count). Database "
        ++ (codes "and table names are case-sensitive. Pass table= for one table's full "
            ++ (codes "column schema, or include_columns=true to fold schema for every table "
                ++ (codes "(small databases only).")));
    handler = list_tables;
  }
