-- ===== src/Examples/QueryWitnesses.antt =====
-- The theorems of the query package at concrete inputs.
use clickhouse_mcp.Examples.Mock.{printed}
use clickhouse_mcp.Prelude.{
  ◌<◌, [], ◌∷◌, ◌≡◌, ◌⊎◌, ◌↔◌, refl, some, true, false, pos, arith, length,
}
use clickhouse_mcp.Query.Bound.Single.{bound-single}
use clickhouse_mcp.Query.Bound.{bound}
use clickhouse_mcp.Query.Keyword.Fuel.{find_keyword-leading_keyword}
use clickhouse_mcp.Query.Keyword.Noise.{
  space, line, block, paren, all_onto, leading_keyword-all_onto,
}
use clickhouse_mcp.Query.Keyword.{find_keyword, leading_keyword}
use clickhouse_mcp.Query.Output.Named.{
  NamesOutfile, stripped, EndsInName, has_unsupported_output_clause-Named,
}
use clickhouse_mcp.Query.Output.{has_unsupported_output_clause}
use clickhouse_mcp.Query.Scanner.{contains_multiple_statements, scan, step, next_is, blank}
use clickhouse_mcp.Query.Serialize.Forms.{HasForm, to_json_value-HasForm}
use clickhouse_mcp.Query.Serialize.{
  Value, to_json_value, slice, value, none_left, uint64, nil, bytes, dict, entry, no_entry,
  key_string,
}
use clickhouse_mcp.Query.Types.Args.{IsArg, split_top_level-join}
use clickhouse_mcp.Query.Types.Dates.{date_loop-is_date_only}
use clickhouse_mcp.Query.Types.{date_loop, is_date_only, split_top_level}
use clickhouse_mcp.Text.{Text, codes, trim_space, is_space, starts_with, after, join}

single_semicolon : contains_multiple_statements (codes "SELECT 1;") ≡ false
unfolding contains_multiple_statements scan step next_is blank trim_space
single_semicolon = refl

bound-single_example : contains_multiple_statements (bound (codes "SELECT 1;") (pos 101)) ≡ false
bound-single_example = bound-single (codes "SELECT 1;") (pos 101) single_semicolon

leading_keyword-all_onto_example :
    leading_keyword
      (all_onto (space b' ' ∷ line (codes "a") ∷ block (codes " b") ∷ paren ∷ []) (codes "show"))
    ≡ leading_keyword (codes "show")
unfolding is_space after starts_with
leading_keyword-all_onto_example =
    leading_keyword-all_onto (space b' ' ∷ line (codes "a") ∷ block (codes " b") ∷ paren ∷ [])
      (codes "show") (refl, ((omega arith), ((refl, refl), (tt, tt))))

short_text : length (trim_space (codes "show")) < 9
unfolding trim_space
short_text = omega arith

find_keyword-leading_keyword_example :
    find_keyword 9 (trim_space (codes "show")) ≡ some (leading_keyword (codes "show"))
find_keyword-leading_keyword_example = find_keyword-leading_keyword (codes "show") 9 short_text

abbrev nested : Value printed
nested = dict (
    entry (key_string (codes "a")) (slice (value (uint64 7) (value nil none_left)))
      (entry (key_string (codes "a")) (bytes (1 ∷ 2 ∷ [])) no_entry))

to_json_value-HasForm_example :
    HasForm printed nested (to_json_value printed nested (codes "Map(String, String)"))
to_json_value-HasForm_example = to_json_value-HasForm printed nested (codes "Map(String, String)")

date-IsArg : IsArg (codes "Date")
unfolding trim_space
date-IsArg = record { balanced = refl; trimmed = refl; not_nil = λ e. cc }

split_top_level-join_example :
    split_top_level (join (codes ", ") (codes "Date" ∷ codes "Date" ∷ []))
    ≡ codes "Date" ∷ codes "Date" ∷ []
split_top_level-join_example =
    split_top_level-join (codes "Date" ∷ codes "Date" ∷ []) (date-IsArg, (date-IsArg, tt))

short_type : length (trim_space (codes "Date")) < 5
unfolding trim_space
short_type = omega arith

date_loop-is_date_only_example :
    date_loop 5 (trim_space (codes "Date")) ≡ some (is_date_only (codes "Date"))
date_loop-is_date_only_example = date_loop-is_date_only (codes "Date") 5 short_type

abbrev with_format : Text
with_format = codes "SELECT 1 FORMAT JSON;"

has_unsupported_output_clause-Named_example :
    (has_unsupported_output_clause with_format ≡ true)
    ↔ (NamesOutfile (stripped with_format) ⊎ EndsInName (stripped with_format))
has_unsupported_output_clause-Named_example = has_unsupported_output_clause-Named with_format
