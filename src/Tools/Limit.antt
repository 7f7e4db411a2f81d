-- ===== src/Tools/Limit.antt =====
-- internal/tools/limit.go: the limits that apply, and the cut with its truncation record.
pub mod Agrees
use mathlib.Core.Option
use clickhouse_mcp.Prelude.{
  ℕ, Bool, true, false, ◌||◌, not, List, [], ◌++◌, Option, none, some, if◌then◌else◌, length, ℤ,
  pos, is_positive,
}
use clickhouse_mcp.Query.Bound.{itoa}
use clickhouse_mcp.Query.Shape.{Truncation, exceeds, cut}
use clickhouse_mcp.Text.{Text, codes}

abbrev pub default_row_limit : ℕ
default_row_limit = 100

abbrev pub default_database_limit : ℕ
default_database_limit = 200

abbrev pub default_table_limit : ℕ
default_table_limit = 200

abbrev pub default_folded_table_limit : ℕ
default_folded_table_limit = 20

abbrev pub max_columns_per_table : ℕ
max_columns_per_table = 200

-- `resolveTableLimit`.
unfoldable pub resolve_table_limit : ℤ → Bool → ℤ
unfolding is_positive
resolve_table_limit arg_limit folded =
    if is_positive arg_limit
    then arg_limit
    else if folded
    then pos default_folded_table_limit
    else pos default_table_limit

-- `resolveLimit`.
unfoldable pub resolve_limit : ℤ → ℤ → ℤ
unfolding is_positive
resolve_limit arg_limit def = if is_positive arg_limit then arg_limit else def

-- The items that are kept, with what the result says of them.
pub record Kept {ℓ} (A : Type ℓ) : Type ℓ where
  pub items : List A
  pub truncation : Truncation

-- The note of a cut.
unfoldable pub cut_note : ℤ → Text → Text
cut_note limit noun =
    codes "showing "
    ++ (itoa limit
        ++ (codes " " ++ (noun ++ codes "; more exist. Pass a larger limit to see the rest.")))

unfoldable pub kept_all {ℓ} : {A : Type ℓ} → List A → ℤ → Kept A
kept_all items limit = record {
  items = items;
  truncation = record { count = length items; truncated = false; limit = limit; note = [] };
}

unfoldable pub kept_some {ℓ} : {A : Type ℓ} → List A → ℤ → Text → Kept A
kept_some kept limit noun = record {
  items = kept;
  truncation = record {
    count = length kept;
    truncated = true;
    limit = limit;
    note = cut_note limit noun;
  };
}

-- `truncate`; `none` is a panic.
unfoldable pub truncate {ℓ} : {A : Type ℓ} → List A → ℤ → Text → Option (Kept A)
unfolding is_positive exceeds cut kept_all kept_some
truncate items limit noun =
    if not (is_positive limit) || not (exceeds (length items) limit)
    then some (kept_all items limit)
    else Option.map (λ kept. kept_some kept limit noun) (cut items limit)
