-- ===== src/Query/Bound.antt =====
-- `Bound` of internal/query/result.go, with `strconv.Itoa` on the numbers that it is given.
pub mod Single
pub mod Decimal
use clickhouse_mcp.Prelude.{
  ℕ, zero, suc, ◌+◌, ◌/◌, ◌%◌, [], ◌∷◌, ◌++◌, ltb, if◌then◌else◌, not, ℤ, pos, negsuc,
}
use clickhouse_mcp.Query.Keyword.{can_bound}
use clickhouse_mcp.Query.Output.{is_semi_or_blank}
use clickhouse_mcp.Text.{Text, codes, trim_space, trim_right}

-- The digits of a number below 10 ^ fuel, in front of `out`.
unfoldable pub digits : ℕ → ℕ → Text → Text
digits zero n out = out
digits (suc fuel) n out =
    let more = digits fuel (n / 10) ((b'0' + n % 10) ∷ out) in
    if ltb n 10 then (b'0' + n) ∷ out else more

-- `strconv.Itoa`. An `int` has at most 19 digits.
unfoldable pub itoa : ℤ → Text
unfolding digits
itoa (pos n) = digits 20 n []
itoa (negsuc n) = b'-' ∷ digits 20 (n + 1) []

-- The statement without the blanks round it and the `;` behind it.
unfoldable pub inner : Text → Text
unfolding is_semi_or_blank
inner sql = trim_space (trim_right is_semi_or_blank (trim_space sql))

-- `Bound`.
unfoldable pub bound : Text → ℤ → Text
bound sql fetch_limit =
    if not (can_bound sql)
    then sql
    else codes "SELECT * FROM (" ++ (inner sql ++ (codes "\n) LIMIT " ++ itoa fetch_limit))
