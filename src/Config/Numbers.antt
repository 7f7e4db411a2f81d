-- ===== src/Config/Numbers.antt =====
-- `strconv.Atoi`, `strconv.ParseBool` and `strings.Fields`, which the loader calls.
use clickhouse_mcp.Prelude.{
  ℕ, zero, suc, ◌+◌, ◌-◌, ◌*◌, Bool, true, false, ◌&&◌, ◌||◌, List, [], ◌∷◌, Option, none, some,
  ◌==◌, leb, ltb, if◌then◌else◌, ℤ, pos, negsuc, max_int,
}
use clickhouse_mcp.Text.{Text, codes, equal, is_space, onto_first}

-- The value of decimal digits behind `n`; `none` at another code point.
unfoldable pub read_digits : ℕ → Text → Option ℕ
read_digits n [] = some n
read_digits n (c ∷ s) =
    let rest = read_digits (n * 10 + (c - b'0')) s in
    if leb b'0' c && leb c b'9' then rest else none

unfoldable pub read_number : Text → Option ℕ
unfolding read_digits
read_number [] = none
read_number (c ∷ s) = read_digits 0 (c ∷ s)

unfoldable pub as_positive : Option ℕ → Option ℤ
as_positive none = none
as_positive (some n) = if ltb max_int n then none else some (pos n)

unfoldable pub as_negative : Option ℕ → Option ℤ
as_negative none = none
as_negative (some zero) = some (pos 0)
as_negative (some (suc n)) = if ltb max_int n then none else some (negsuc n)

-- `strconv.Atoi`: a sign at most, then digits, within the range of an `int`.
unfoldable pub atoi : Text → Option ℤ
unfolding read_number as_positive as_negative
atoi [] = none
atoi (c ∷ s) =
    if c == b'-'
    then as_negative (read_number s)
    else if c == b'+'
    then as_positive (read_number s)
    else as_positive (read_number (c ∷ s))

unfoldable pub any_equal : Text → List Text → Bool
any_equal s [] = false
any_equal s (t ∷ ts) = equal s t || any_equal s ts

-- `strconv.ParseBool`.
unfoldable pub parse_bool : Text → Option Bool
unfolding any_equal
parse_bool s =
    if any_equal s
      (codes "1" ∷ codes "t" ∷ codes "T" ∷ codes "true" ∷ codes "TRUE" ∷ codes "True" ∷ [])
    then some true
    else if any_equal s
        (codes "0" ∷ codes "f" ∷ codes "F" ∷ codes "false" ∷ codes "FALSE" ∷ codes "False" ∷ [])
    then some false
    else none

-- One step of `fields`: the word read so far, if there is one, in front of the others.
unfoldable pub close_word : Text → List Text → List Text
close_word [] words = words
close_word (c ∷ w) words = (c ∷ w) ∷ words

-- The parts of a text at its blanks, the first part first.
unfoldable pub words_at : Text → List Text
words_at [] = [] ∷ []
words_at (c ∷ s) = let rest = words_at s in if is_space c then [] ∷ rest else onto_first c rest

unfoldable pub no_empty : List Text → List Text
unfolding close_word
no_empty [] = []
no_empty (w ∷ ws) = close_word w (no_empty ws)

-- `strings.Fields`: the words between blanks.
unfoldable pub fields : Text → List Text
unfolding words_at no_empty
fields s = no_empty (words_at s)
