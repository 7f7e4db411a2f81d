-- ===== src/Query/Types.antt =====
-- The reading of ClickHouse type names in internal/query/serialize.go.
pub mod Applied
pub mod Args
pub mod Dates
pub mod Wrapped
use clickhouse_mcp.Prelude.{
  ℕ, zero, suc, Bool, true, false, ◌&&◌, ◌||◌, not, List, [], ◌∷◌, ◌++◌, Option, none, some, ◌==◌,
  if◌then◌else◌, length, ℤ, pos, up, down, is_zero,
}
use clickhouse_mcp.Text.{
  Text, codes, equal, trim_space, starts_with, ends_with, contains, after, before,
}

-- `s[:len(s)-1]`.
unfoldable pub drop_last : Text → Text
drop_last [] = []
drop_last (c ∷ []) = []
drop_last (c ∷ d ∷ s) = c ∷ drop_last (d ∷ s)

pub record TypeName : Type 0 where
  pub name : Text
  pub args : Text

unfoldable pub type_name_of : Text → Option Text → TypeName
unfolding drop_last
type_name_of db_type none = record { name = db_type; args = [] }
type_name_of db_type (some behind) =
    if not (ends_with (codes ")") db_type)
    then record { name = db_type; args = [] }
    else record { name = before (codes "(") db_type; args = drop_last behind }

-- `typeName`.
unfoldable pub type_name : Text → TypeName
unfolding type_name_of
type_name db_type = let t = trim_space db_type in type_name_of t (after (codes "(") t)

-- `depth` behind one byte.
unfoldable pub depth_after : ℤ → ℕ → ℤ
depth_after depth c = if c == b'(' then up depth else if c == b')' then down depth else depth

-- The loop of `splitTopLevel` and what follows it; `cur` is `args[start:i]`.
unfoldable pub split_args : ℤ → Text → Text → List Text
unfolding depth_after
split_args depth cur [] = let s = trim_space cur in if not (equal s []) then s ∷ [] else []
split_args depth cur (c ∷ s) =
    let cuts = c == b',' && is_zero depth in
    let rest = split_args (depth_after depth c) (if cuts then [] else cur ++ c ∷ []) s in
    if cuts then trim_space cur ∷ rest else rest

-- `splitTopLevel`.
unfoldable pub split_top_level : Text → List Text
split_top_level args = split_args (pos 0) [] args

unfoldable pub last_or : Text → List Text → Text
last_or d [] = d
last_or d (t ∷ ts) = last_or t ts

-- The argument of a one-argument wrapper; any other list of arguments gives `db_type` back.
unfoldable pub only_arg : Text → List Text → Text
only_arg db_type (t ∷ []) = t
only_arg db_type _ = db_type

-- The last of two or more arguments; a shorter list gives `db_type` back.
unfoldable pub second_arg : Text → List Text → Text
unfolding last_or
second_arg db_type (t ∷ u ∷ ts) = last_or u ts
second_arg db_type _ = db_type

-- `case "", "Map", "Tuple", "Variant"`.
unfoldable pub has_own_args : Text → Bool
has_own_args name =
    equal name []
    || equal name (codes "Map")
    || equal name (codes "Tuple")
    || equal name (codes "Variant")

-- `elemType`.
unfoldable pub elem_type : Text → Text
elem_type db_type =
    let t = type_name db_type in
    if has_own_args t.name
    then db_type
    else if equal t.name (codes "SimpleAggregateFunction")
    then second_arg db_type (split_top_level t.args)
    else only_arg db_type (split_top_level t.args)

-- What one round of the loop of `isDateOnly` decides.
pub data DateRound : Type 0 where
  done : Bool → DateRound
  unwrap : Text → DateRound

unfoldable pub date_round : Text → DateRound
date_round t =
    if equal t (codes "Date") || equal t (codes "Date32")
    then done true
    else if not (equal (elem_type t) t)
    then unwrap (trim_space (elem_type t))
    else done false

-- What the loop does with a round's decision; the function is the loop itself.
unfoldable pub on_date_round : (Text → Option Bool) → DateRound → Option Bool
on_date_round loop (done b) = some b
on_date_round loop (unwrap t) = loop t

-- The loop on fuel; `none` means that the fuel ran out.
unfoldable pub date_loop : ℕ → Text → Option Bool
unfolding on_date_round
date_loop zero t = none
date_loop (suc fuel) t = on_date_round (date_loop fuel) (date_round t)

unfoldable pub or_false : Option Bool → Bool
or_false none = false
or_false (some b) = b

-- `isDateOnly`. Each round drops a wrapper, so the length of the text is fuel enough.
unfoldable pub is_date_only : Text → Bool
unfolding or_false
is_date_only db_type = let t = trim_space db_type in or_false (date_loop (suc (length t)) t)

unfoldable pub field_type_of : Text → Option Text → Text
field_type_of field none = field
field_type_of field (some behind) =
    let rest = trim_space behind in
    let ident = before (codes " ") field in
    if not (equal ident []) && (not (equal rest []) && not (contains (codes "(") ident))
    then rest
    else field

-- `fieldType`.
unfoldable pub field_type : Text → Text
unfolding field_type_of
field_type field = field_type_of field (after (codes " ") field)
