-- ===== src/Examples/CatalogWitnesses.antt =====
-- The theorems of the listings and of the server, over a server with three databases, each with one
-- table of two columns.
use clickhouse_mcp.Examples.Mock.{printed}
use clickhouse_mcp.Prelude.{
  inl, ℕ, true, false, ◌++◌, List, [], ◌∷◌, none, some, ◌≡◌, ◌≢◌, refl, pos, arith, map, take, All,
}
use clickhouse_mcp.Server.Allowed.{IsAllowed, serve-IsAllowed}
use clickhouse_mcp.Server.{
  Request, to_ping, to_list_databases, to_list_tables, to_run_statement, serve,
}
use clickhouse_mcp.Text.{Text, codes, equal}
use clickhouse_mcp.Tools.Driver.{
  Driver, Session, Call, query, arg_int, Scan, Scanned, any_values, table_row, column_row, one_text,
  one_count, TableRow, ColumnRow, Rows, answer, ok, err, panicked, conn_query, answered, and_then,
  read_rows, push,
}
use clickhouse_mcp.Tools.Limit.Agrees.{IsCut}
use clickhouse_mcp.Tools.Limit.{
  resolve_limit, resolve_table_limit, truncate, default_database_limit,
}
use clickhouse_mcp.Tools.ListDatabases.Bounded.{HoldsDatabases, list_databases-IsCut}
use clickhouse_mcp.Tools.ListDatabases.{ListDatabasesOutput, list_databases}
use clickhouse_mcp.Tools.ListTables.Bounded.{IsListing, list_tables-IsListing}
use clickhouse_mcp.Tools.ListTables.Empty.{SaysWhy, list_tables-SaysWhy}
use clickhouse_mcp.Tools.ListTables.{
  ListTablesArgs, ListTablesOutput, list_tables, lean_tables, explain_empty, cut_tables,
  all_columns, table_columns, with_columns, table_info, fetch_of, is_empty, tables_call,
  columns_call,
}
use clickhouse_mcp.Tools.RunQuery.{lift}

abbrev names : List Text
names = codes "default" ∷ codes "logs" ∷ codes "system" ∷ []

abbrev readable : {R : Type 0} → List R → Rows R
readable rs = record { columns = []; column_types = []; rows = map some rs; failure = none }

abbrev text_rows : Call → Rows Text
text_rows (query caps sql (arg_int (pos k) ∷ [])) = readable (take k names)
text_rows call = readable names

abbrev one_table : TableRow
one_table = record { name = codes "t"; engine = codes "Log"; total_rows = some 3; comment = [] }

abbrev two_columns : List ColumnRow
two_columns =
    record { name = codes "a"; type = codes "Int8" }
    ∷ record { name = codes "b"; type = codes "Int8" }
    ∷ []

abbrev catalog_rows : (s : Scan) → Call → Rows (Scanned printed s)
catalog_rows any_values call = readable []
catalog_rows table_row call = readable (one_table ∷ [])
catalog_rows column_row call = readable two_columns
catalog_rows one_text call = text_rows call
catalog_rows one_count call = readable (1 ∷ [])

abbrev catalog : Driver printed
catalog = record {
  World = Unit {0};
  answer_query = λ s call w. (answer (catalog_rows s call), w);
  run_row = λ call w. (answer 1, w);
  run_exec = λ call w. record { failure = none; wrote_rows = []; world = w };
}

abbrev idle : Session (Unit {0})
idle = record { world = tt; log = [] }

catalog_holds : HoldsDatabases catalog names
catalog_holds k w = (readable (take k names), record { rows_are = refl; no_failure = refl }, refl)

limit_two : resolve_limit (pos 2) (pos default_database_limit) ≡ pos 2
unfolding resolve_limit
limit_two = refl

list_databases-IsCut_example :
    (out : ListDatabasesOutput) × ((list_databases catalog (pos 2) idle).0 ≡ ok out)
    × IsCut names 2 out.databases out.truncation
list_databases-IsCut_example =
    list_databases-IsCut catalog (pos 2) 2 names idle limit_two (omega arith) (omega arith)
      catalog_holds

abbrev with_columns_of : ListTablesArgs
with_columns_of = record { database = codes "logs"; table = []; columns = true; limit = pos 5 }

abbrev listed : ListTablesOutput
listed = record {
  database = codes "logs";
  tables =
      record {
        name = codes "t";
        engine = codes "Log";
        row_count = some 3;
        comment = [];
        columns = two_columns;
        columns_truncated = false;
      }
      ∷ [];
  truncation = record { count = 1; truncated = false; limit = pos 5; note = [] };
}

lists : (list_tables catalog with_columns_of idle).0 ≡ ok listed
unfolding list_tables lean_tables explain_empty cut_tables all_columns table_columns with_columns
    table_info fetch_of is_empty tables_call columns_call conn_query answered and_then read_rows
    push lift resolve_table_limit truncate equal
lists = refl

list_tables-IsListing_example :
    (n : ℕ) × (resolve_table_limit (pos 5) true ≡ pos n) × IsListing with_columns_of n listed
list_tables-IsListing_example = list_tables-IsListing catalog with_columns_of idle listed lists

-- A server without databases: it lists no tables, and counts no database of any name.
abbrev bare : Driver printed
bare = record {
  World = Unit {0};
  answer_query = λ s call w. (answer (readable []), w);
  run_row = λ call w. (answer 0, w);
  run_exec = λ call w. record { failure = none; wrote_rows = []; world = w };
}

none_read : read_rows {R = TableRow} [] none ≡ ok []
unfolding read_rows
none_read = refl

list_tables-SaysWhy_example :
    SaysWhy with_columns_of (answer 0) (list_tables bare with_columns_of idle).0
list_tables-SaysWhy_example =
    list_tables-SaysWhy bare with_columns_of (readable []) tt idle 5 (λ e. cc)
      (inl (refl, omega arith)) refl none_read

abbrev requests : List Request
requests =
    to_ping
    ∷ to_list_databases (pos 2)
    ∷ to_list_tables with_columns_of
    ∷ to_run_statement (codes "DROP TABLE t")
    ∷ []

serve-IsAllowed_example :
    ((calls : List Call) × ((serve catalog requests idle).1.log ≡ [] ++ calls)
      × All IsAllowed calls)
    × All (λ o. o ≢ err panicked) (serve catalog requests idle).0
serve-IsAllowed_example = serve-IsAllowed catalog requests idle
