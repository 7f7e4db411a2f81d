-- ===== src/Examples/ToolWitnesses.antt =====
-- The theorems of the tools at concrete inputs.
use clickhouse_mcp.Examples.Mock.{printed, two_rows, fresh, number_rows, two_values}
use clickhouse_mcp.Prelude.{
  inl, ℕ, ◌++◌, [], ◌∷◌, ◌≡◌, ◌⊎◌, refl, some, true, false, pos, arith, List,
}
use clickhouse_mcp.Query.Keyword.{
  is_blank, is_row_returning, leading_keyword, round, ends_token, one_of,
}
use clickhouse_mcp.Query.Output.{
  has_unsupported_output_clause, upper_statement, last_index, is_format_clause,
}
use clickhouse_mcp.Query.Scanner.{contains_multiple_statements, scan, step, next_is, blank}
use clickhouse_mcp.Query.Serialize.{Json}
use clickhouse_mcp.Query.Shape.{Result, shape}
use clickhouse_mcp.Text.{
  Text, codes, trim_space, to_upper, starts_with, ends_with, contains, after, before, until, split,
  join, equal,
}
use clickhouse_mcp.Tools.Driver.{Call, ok, exec, read_rows}
use clickhouse_mcp.Tools.Limit.Agrees.{IsCut, truncate-IsCut, shape-sentinel}
use clickhouse_mcp.Tools.Limit.{Kept, truncate}
use clickhouse_mcp.Tools.RunQuery.Wrapped.{
  AllRendered, IsOneCall, run_query-IsRendered, run_query-IsOneCall,
}
use clickhouse_mcp.Tools.RunQuery.Sent.{
  is_query, is_statement, AllSingle, tools_disjoint, tools_send_single,
}
use clickhouse_mcp.Tools.RunQuery.{RunQueryArgs, run_query}
use clickhouse_mcp.Tools.RunStatement.Written.{Reports, run_statement-Reports}
use clickhouse_mcp.Tools.RunStatement.{run_statement}

abbrev select : RunQueryArgs
select = record { sql = codes "SELECT 1"; limit = pos 1 }

abbrev insert : Text
insert = codes "INSERT INTO t VALUES (1)"

select-is_query : is_query (codes "SELECT 1") ≡ true
unfolding is_blank is_row_returning one_of contains_multiple_statements scan step next_is blank
    has_unsupported_output_clause upper_statement last_index is_format_clause leading_keyword round
    ends_token trim_space to_upper starts_with ends_with contains after before until split join
    equal
select-is_query = refl

all_read : read_rows number_rows.rows number_rows.failure ≡ ok two_values
unfolding read_rows
all_read = refl

run_query-IsRendered_example :
    (r : Result (Json printed)) × (shown : List (List (Json printed))) × ((run_query two_rows select
        fresh).0
      ≡ ok r)
    × AllRendered two_rows (codes "UInt64" ∷ []) two_values shown
    × IsCut shown 1 r.rows r.truncation
    × (r.columns ≡ codes "n" ∷ [])
    × (r.column_types ≡ codes "UInt64" ∷ [])
run_query-IsRendered_example =
    run_query-IsRendered two_rows select fresh 1 number_rows two_values select-is_query
      (inl (refl, omega arith)) refl all_read

run_query-IsOneCall_example :
    (calls : List Call) × ((run_query two_rows select fresh).1.log ≡ [] ++ calls)
    × IsOneCall two_rows select calls
run_query-IsOneCall_example = run_query-IsOneCall two_rows select fresh

tools_disjoint_example :
    ((run_query two_rows select fresh).1.log ≡ [])
    ⊎ ((run_statement two_rows (codes "SELECT 1") fresh).1.log ≡ [])
tools_disjoint_example = tools_disjoint two_rows select fresh

tools_send_single_example :
    ((calls : List Call) × ((run_query two_rows select fresh).1.log ≡ [] ++ calls)
      × AllSingle calls)
    × ((calls : List Call) × ((run_statement two_rows (codes "SELECT 1") fresh).1.log ≡ [] ++ calls)
        × AllSingle calls)
tools_send_single_example = tools_send_single two_rows select fresh

abbrev three : List ℕ
three = 1 ∷ 2 ∷ 3 ∷ []

truncate-IsCut_example :
    (k : Kept ℕ) × (truncate three (pos 2) (codes "tables") ≡ some k)
    × IsCut three 2 k.items k.truncation
truncate-IsCut_example = truncate-IsCut three 2 (codes "tables") (omega arith)

abbrev three_rows : List (List ℕ)
three_rows = (1 ∷ []) ∷ (2 ∷ []) ∷ (3 ∷ []) ∷ []

shape-sentinel_example :
    (r : Result ℕ) × (shape [] [] ((1 ∷ []) ∷ (2 ∷ []) ∷ []) (pos 1) false ≡ some r)
    × IsCut three_rows 1 r.rows r.truncation
shape-sentinel_example = shape-sentinel [] [] three_rows 1 false

insert-is_statement : is_statement insert ≡ true
unfolding is_blank is_row_returning one_of contains_multiple_statements scan step next_is blank
    leading_keyword round ends_token trim_space to_upper equal starts_with until
insert-is_statement = refl

run_statement-Reports_example :
    Reports (two_rows.run_exec (exec insert) 0) (run_statement two_rows insert fresh).0
run_statement-Reports_example = run_statement-Reports two_rows insert fresh insert-is_statement
