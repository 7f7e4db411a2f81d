-- ===== src/Query/Shape.antt =====
-- `Truncation`, `Result` and `Shape` of internal/query/result.go.
use mathlib.Core.Option
use clickhouse_mcp.Prelude.{
  ℕ, Bool, true, ◌&&◌, not, List, [], ltb, if◌then◌else◌, length, take, ℤ, pos, negsuc, Option,
  none, some,
}
use clickhouse_mcp.Text.{Text, codes}

pub record Truncation : Type 0 where
  pub count : ℕ
  pub truncated : Bool
  pub limit : ℤ
  pub note : Text

-- A row is a list of JSON values, which this package carries as they are.
pub record Result {ℓ} (V : Type ℓ) : Type ℓ where
  pub columns : List Text
  pub column_types : List Text
  pub rows : List (List V)
  pub truncation : Truncation
  pub open truncation use *

abbrev pub arbitrary_note : Text
arbitrary_note =
    codes
      "showing an arbitrary subset; more rows exist. Add ORDER BY + LIMIT or a WHERE filter for a defined result."

abbrev pub first_rows_note : Text
first_rows_note = codes "showing the first rows; more exist. Add LIMIT to control the count."

-- The `switch` that words the note.
unfoldable pub shape_note : Bool → Bool → Text
shape_note truncated ordered =
    if truncated && not ordered then arbitrary_note else if truncated then first_rows_note else []

-- `len(fetched) > displayLimit`.
unfoldable pub exceeds : ℕ → ℤ → Bool
exceeds n (pos limit) = ltb limit n
exceeds n (negsuc _) = true

-- `items[:limit]`; `none` is the panic at a negative bound.
unfoldable pub cut {ℓ} : {A : Type ℓ} → List A → ℤ → Option (List A)
cut items (pos limit) = some (take limit items)
cut items (negsuc _) = none

-- The result with the rows that are shown.
unfoldable pub with_rows {ℓ} :
    {V : Type ℓ} → List Text → List Text → List (List V) → Bool → ℤ → Bool → Result V
unfolding shape_note
with_rows columns column_types rows truncated display_limit ordered = record {
  columns = columns;
  column_types = column_types;
  rows = rows;
  truncation = record {
    count = length rows;
    truncated = truncated;
    limit = display_limit;
    note = shape_note truncated ordered;
  };
}

-- `Shape`; `none` is a panic.
unfoldable pub shape {ℓ} :
    {V : Type ℓ} → List Text → List Text → List (List V) → ℤ → Bool → Option (Result V)
unfolding exceeds cut with_rows
shape columns column_types fetched display_limit ordered =
    let truncated = exceeds (length fetched) display_limit in
    let kept = if truncated then cut fetched display_limit else some fetched in
    Option.map (λ rows. with_rows columns column_types rows truncated display_limit ordered) kept
