-- ===== src/Query/Scanner.antt =====
-- `ContainsMultipleStatements` of internal/query/result.go: the scanner for quotes and comments.
pub mod Pieces
use clickhouse_mcp.Prelude.{ℕ, Bool, true, false, ◌&&◌, List, [], ◌∷◌, ◌==◌, if◌then◌else◌}
use clickhouse_mcp.Text.{Text, equal, trim_space}

-- The local constants of the function.
pub data State : Type 0 where
  normal in_single in_double in_backtick in_line in_block : State

-- What one round of the loop does: return true, or go on in a state. The flag says that the round
-- ends by `i++`, so that the next code point is passed over.
pub data Step : Type 0 where
  found : Step
  go : State → Bool → Step

-- `i+1 < len(sql) && sql[i+1] == b`, on what follows position i.
unfoldable pub next_is : ℕ → Text → Bool
next_is b [] = false
next_is b (c ∷ s) = c == b

-- `strings.TrimSpace(s) == ""`.
unfoldable pub blank : Text → Bool
unfolding equal
blank s = equal (trim_space s) []

-- Inside a literal that knows escapes, closed by `quote`.
unfoldable pub in_literal : State → ℕ → ℕ → Step
in_literal st quote c =
    if c == b'\\' then go st true else if c == quote then go normal false else go st false

-- The body of the loop at `c`, which `s` follows.
unfoldable pub step : State → ℕ → Text → Step
unfolding in_literal
step normal c s =
    if c == b'\''
    then go in_single false
    else if c == b'"'
    then go in_double false
    else if c == b'`'
    then go in_backtick false
    else if c == b'-' && next_is b'-' s
    then go in_line true
    else if c == b'/' && next_is b'*' s
    then go in_block true
    else if c == b';'
    then (if blank s then go normal false else found)
    else go normal false
step in_single c s = in_literal in_single b'\'' c
step in_double c s = in_literal in_double b'"' c
step in_backtick c s = if c == b'`' then go normal false else go in_backtick false
step in_line c s = if c == b'\n' then go normal false else go in_line false
step in_block c s = if c == b'*' && next_is b'/' s then go normal true else go in_block false

-- What the loop does with a round's decision; the function is the rest of the loop.
unfoldable pub on_step : (State → Bool → Bool) → Step → Bool
on_step loop found = true
on_step loop (go st skip) = loop st skip

-- The loop from a state; the flag passes over the first code point.
unfoldable pub scan : State → Bool → Text → Bool
unfolding on_step
scan st skip [] = false
scan st true (c ∷ s) = scan st false s
scan st false (c ∷ s) = on_step (λ st' skip. scan st' skip s) (step st c s)

-- `ContainsMultipleStatements`.
unfoldable pub contains_multiple_statements : Text → Bool
contains_multiple_statements sql = scan normal false sql
