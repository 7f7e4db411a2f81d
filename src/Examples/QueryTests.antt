-- ===== src/Examples/QueryTests.antt =====
-- Runs of the query package on concrete texts.
use clickhouse_mcp.Prelude.{◌≡◌, refl, true, false, pos}
use clickhouse_mcp.Query.Bound.{bound, inner, itoa}
use clickhouse_mcp.Query.Keyword.{leading_keyword, round, ends_token, can_bound}
use clickhouse_mcp.Query.Output.{has_unsupported_output_clause}
use clickhouse_mcp.Query.Scanner.{contains_multiple_statements, scan, step, next_is, blank}
use clickhouse_mcp.Text.{
  codes, trim_space, to_upper, starts_with, ends_with, contains, after, before, until, split, join,
}

keyword_after_noise : leading_keyword (codes " -- c\n/* x */ (select 1)") ≡ codes "SELECT"
unfolding leading_keyword round ends_token trim_space to_upper starts_with after until
keyword_after_noise = refl

semicolon_in_literal : contains_multiple_statements (codes "SELECT ';' -- ;\n;  ") ≡ false
unfolding contains_multiple_statements scan step next_is blank trim_space
semicolon_in_literal = refl

bound_runs : bound (codes " SELECT 1 ; ") (pos 101) ≡ codes "SELECT * FROM (SELECT 1\n) LIMIT 101"
unfolding bound inner itoa can_bound leading_keyword round ends_token trim_space to_upper
    starts_with after until
bound_runs = refl

format_clause : has_unsupported_output_clause (codes "select 1 format JSON;") ≡ true
unfolding has_unsupported_output_clause trim_space to_upper ends_with join split before contains
format_clause = refl
