-- ===== src/Text/Defs.antt =====
-- Strings as lists of code points, with the functions of the package `strings` on them.
use Prim.Native.Char.{code}
use Prim.Native.String.{String}
use clickhouse_mcp.Prelude.{
  ℕ, ◌+◌, ◌-◌, Bool, true, false, ◌&&◌, ◌||◌, List, [], ◌∷◌, ◌++◌, map, Option, none, some, ◌==◌,
  leb, ltb, if◌then◌else◌, length, drop,
}

abbrev pub Text : Type 0
Text = List ℕ

-- A literal of the source.
abbrev pub codes : String → Text
codes String.[] = []
codes (String.◌∷◌ c s) = code c ∷ codes s

-- `len`: the bytes of the UTF-8 form.
unfoldable pub byte_length : Text → ℕ
byte_length [] = 0
byte_length (c ∷ s) =
    (if ltb c 0x80 then 1 else if ltb c 0x800 then 2 else if ltb c 0x10000 then 3 else 4)
    + byte_length s

-- `s == t`.
unfoldable pub equal : Text → Text → Bool
equal [] [] = true
equal (x ∷ xs) (y ∷ ys) = x == y && equal xs ys
equal _ _ = false

-- `unicode.IsSpace`.
unfoldable pub is_space : ℕ → Bool
is_space c =
    (leb 9 c && leb c 13)
    || c == 32
    || c == 0x85
    || c == 0xA0
    || c == 0x1680
    || (leb 0x2000 c && leb c 0x200A)
    || c == 0x2028
    || c == 0x2029
    || c == 0x202F
    || c == 0x205F
    || c == 0x3000

-- `unicode.ToUpper` as far as the result may be ASCII: beside a to z these are U+0131 and U+017F.
-- Other code points stay as they are, which no comparison with an ASCII text tells apart.
unfoldable pub upper_rune : ℕ → ℕ
upper_rune c =
    if leb b'a' c && leb c b'z'
    then c - 32
    else if c == 0x131
    then b'I'
    else if c == 0x17F
    then b'S'
    else c

-- `strings.ToUpper`.
unfoldable pub to_upper : Text → Text
unfolding upper_rune
to_upper s = map upper_rune s

-- `strings.TrimLeftFunc`.
unfoldable pub trim_left : (ℕ → Bool) → Text → Text
trim_left p [] = []
trim_left p (c ∷ s) = let rest = trim_left p s in if p c then rest else c ∷ s

-- One step of `trim_right`: `c` in front of a text that is trimmed already.
unfoldable pub keep_right : (ℕ → Bool) → ℕ → Text → Text
keep_right p c [] = if p c then [] else c ∷ []
keep_right p c (d ∷ s) = c ∷ d ∷ s

-- `strings.TrimRightFunc`.
unfoldable pub trim_right : (ℕ → Bool) → Text → Text
unfolding keep_right
trim_right p [] = []
trim_right p (c ∷ s) = keep_right p c (trim_right p s)

-- `strings.TrimSpace`.
unfoldable pub trim_space : Text → Text
unfolding trim_left trim_right is_space
trim_space s = trim_right is_space (trim_left is_space s)

-- `strings.HasPrefix`, the prefix first.
unfoldable pub starts_with : Text → Text → Bool
starts_with [] s = true
starts_with (x ∷ xs) [] = false
starts_with (x ∷ xs) (y ∷ ys) = x == y && starts_with xs ys

-- `strings.HasSuffix`, the suffix first.
unfoldable pub ends_with : Text → Text → Bool
unfolding equal
ends_with x [] = equal x []
ends_with x (c ∷ s) = equal x (c ∷ s) || ends_with x s

-- `strings.Contains`, the part first.
unfoldable pub contains : Text → Text → Bool
unfolding starts_with
contains x [] = starts_with x []
contains x (c ∷ s) = starts_with x (c ∷ s) || contains x s

-- `s[i+len(x):]` for `i := strings.Index(s, x)`, and `none` for `i < 0`.
unfoldable pub after : Text → Text → Option Text
unfolding starts_with
after x [] = if starts_with x [] then some [] else none
after x (c ∷ s) =
    let rest = after x s in if starts_with x (c ∷ s) then some (drop (length x) (c ∷ s)) else rest

-- `s[:i]` for `i := strings.Index(s, x)`, and the whole of `s` for `i < 0`.
unfoldable pub before : Text → Text → Text
unfolding starts_with
before x [] = []
before x (c ∷ s) = let rest = before x s in if starts_with x (c ∷ s) then [] else c ∷ rest

-- The part of a text before the first code point that passes the test.
unfoldable pub until : (ℕ → Bool) → Text → Text
until p [] = []
until p (c ∷ s) = let rest = until p s in if p c then [] else c ∷ rest

-- One step of `split`: `c` in front of the parts of what follows.
unfoldable pub onto_first : ℕ → List Text → List Text
onto_first c [] = (c ∷ []) ∷ []
onto_first c (p ∷ ps) = (c ∷ p) ∷ ps

-- `strings.Split` by a separator of one ASCII byte.
unfoldable pub split : ℕ → Text → List Text
unfolding onto_first
split sep [] = [] ∷ []
split sep (c ∷ s) = let rest = split sep s in if c == sep then [] ∷ rest else onto_first c rest

-- `strings.Join`.
unfoldable pub join : Text → List Text → Text
join sep [] = []
join sep (p ∷ []) = p
join sep (p ∷ q ∷ ps) = p ++ (sep ++ join sep (q ∷ ps))
