-- ===== src/Query/Output.antt =====
-- `HasUnsupportedOutputClause` of internal/query/result.go and its helpers, and the test for
-- ORDER BY that words the truncation note.
pub mod Clause
pub mod Found
pub mod Named
mod Parts
use clickhouse_mcp.Prelude.{
  ℕ, Bool, true, false, ◌&&◌, ◌||◌, not, [], ◌∷◌, map, Option, none, some, ◌==◌, leb, if◌then◌else◌,
  length, drop,
}
use clickhouse_mcp.Text.{
  Text, codes, equal, trim_space, trim_right, starts_with, ends_with, contains, before, split, join,
  to_upper,
}

-- `stripLineComments`.
unfoldable pub strip_line_comments : Text → Text
strip_line_comments sql = join (codes "\n") (map (before (codes "--")) (split b'\n' sql))

-- `isIdentByte`.
unfoldable pub is_ident_byte : ℕ → Bool
is_ident_byte b =
    b == b'_'
    || (leb b'0' b && leb b b'9')
    || (leb b'A' b && leb b b'Z')
    || (leb b'a' b && leb b b'z')

-- `isIdentifier`.
unfoldable pub is_identifier : Text → Bool
unfolding is_ident_byte
is_identifier [] = true
is_identifier (b ∷ s) = is_ident_byte b && is_identifier s

-- The set of code points of `strings.TrimRight(…, "; ")`.
unfoldable pub is_semi_or_blank : ℕ → Bool
is_semi_or_blank c = c == b';' || c == b' '

-- The last occurrence of a part: the code point in front of it, if any, and what follows it.
pub record Last : Type 0 where
  pub front : Option ℕ
  pub tail : Text

-- The front of an occurrence is the code point passed before it.
unfoldable pub pass : ℕ → Option ℕ → Option ℕ
pass c none = some c
pass c (some d) = some d

-- `strings.LastIndex`, the part first.
unfoldable pub last_index : Text → Text → Option Last
unfolding starts_with pass
last_index x [] = none
last_index x (c ∷ s) = elim (last_index x s) [
  | some l ↦ some (record l { front = pass c l.front })
  | none ↦
      if starts_with x (c ∷ s)
      then some (record { front = none; tail = drop (length x) (c ∷ s) })
      else none
]

-- A whole word before the format's name: no identifier byte stands right in front of it.
unfoldable pub joins_word : Option ℕ → Bool
unfolding is_ident_byte
joins_word none = false
joins_word (some b) = is_ident_byte b

-- What is left of the test once the last "FORMAT " is found.
unfoldable pub is_format_clause : Option Last → Bool
unfolding joins_word is_identifier
is_format_clause none = false
is_format_clause (some l) =
    let tail = trim_space l.tail in
    if joins_word l.front then false else not (equal tail []) && is_identifier tail

-- The text that the test reads: no line comments, no closing `;`, upper case.
unfoldable pub upper_statement : Text → Text
unfolding strip_line_comments is_semi_or_blank
upper_statement sql = to_upper (trim_right is_semi_or_blank (trim_space (strip_line_comments sql)))

-- `HasUnsupportedOutputClause`.
unfoldable pub has_unsupported_output_clause : Text → Bool
unfolding upper_statement last_index is_format_clause
has_unsupported_output_clause sql =
    let upper = upper_statement sql in
    if ends_with (codes "INTO OUTFILE") upper || contains (codes "INTO OUTFILE ") upper
    then true
    else is_format_clause (last_index (codes "FORMAT ") upper)

-- `HasTopLevelOrderBy`.
unfoldable pub has_top_level_order_by : Text → Bool
has_top_level_order_by sql = contains (codes "ORDER BY") (to_upper sql)
