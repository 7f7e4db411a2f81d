-- ===== src/Query/Keyword.antt =====
-- `leadingKeyword` of internal/query/result.go, and the three tests that are made on it.
pub mod Fuel
pub mod Noise
use clickhouse_mcp.Prelude.{
  ℕ, zero, suc, ◌+◌, Bool, true, false, ◌||◌, List, [], ◌∷◌, ◌++◌, Option, none, some, ◌==◌,
  if◌then◌else◌, length, drop,
}
use clickhouse_mcp.Text.{Text, codes, equal, trim_space, starts_with, after, until, to_upper}

-- What one round of the loop decides.
pub data Round : Type 0 where
  again : Text → Round
  blank : Round
  word : Text → Round

-- The code point ends the first token.
unfoldable pub ends_token : ℕ → Bool
ends_token r = r == b' ' || r == b'\t' || r == b'\n' || r == b'\r' || r == b'('

-- `continue` with the text behind a comment's end, or the empty keyword where it has none.
unfoldable pub resume : Option Text → Round
resume none = blank
resume (some rest) = again (trim_space rest)

-- The body of the loop on a trimmed text.
unfoldable pub round : Text → Round
unfolding resume
round s =
    if starts_with (codes "--") s
    then resume (after (codes "\n") s)
    else if starts_with (codes "/*") s
    then resume (after (codes "*/") s)
    else if starts_with (codes "(") s
    then again (trim_space (drop 1 s))
    else word (to_upper (until ends_token s))

-- What the loop does with a round's decision; the function is the loop itself.
unfoldable pub on_round : (Text → Option Text) → Round → Option Text
on_round loop (again rest) = loop rest
on_round loop blank = some []
on_round loop (word w) = some w

-- The loop on fuel; `none` means that the fuel ran out.
unfoldable pub find_keyword : ℕ → Text → Option Text
unfolding on_round
find_keyword zero s = none
find_keyword (suc fuel) s = on_round (find_keyword fuel) (round s)

unfoldable pub or_empty : Option Text → Text
or_empty none = []
or_empty (some w) = w

-- `leadingKeyword`. Each round drops a code point, so the length of the text is fuel enough.
unfoldable pub leading_keyword : Text → Text
unfolding find_keyword or_empty
leading_keyword sql = let s = trim_space sql in or_empty (find_keyword (suc (length s)) s)

-- The text is one of the listed ones.
unfoldable pub one_of : Text → List Text → Bool
unfolding equal
one_of s [] = false
one_of s (t ∷ ts) = equal s t || one_of s ts

-- `IsBlank`.
unfoldable pub is_blank : Text → Bool
unfolding equal
is_blank sql = equal (leading_keyword sql) []

-- `IsRowReturning`.
unfoldable pub is_row_returning : Text → Bool
unfolding one_of
is_row_returning sql = one_of (leading_keyword sql) (
    codes "SELECT"
    ∷ codes "WITH"
    ∷ codes "SHOW"
    ∷ codes "DESCRIBE"
    ∷ codes "DESC"
    ∷ codes "EXPLAIN"
    ∷ codes "EXISTS"
    ∷ [])

-- `canBound`.
unfoldable pub can_bound : Text → Bool
unfolding one_of
can_bound sql = one_of (leading_keyword sql) (codes "SELECT" ∷ codes "WITH" ∷ [])
