-- ===== src/Query/Scanner/Pieces.antt =====
-- The scanner against the lexical structure of a text: literals, comments, separators, the rest.
use clickhouse_mcp.Prelude.{ℕ, Bool, false, ◌||◌, not, List, [], ◌∷◌, ◌++◌, some, ◌≡◌, ◌≢◌, ◌⊎◌}
use clickhouse_mcp.Query.Scanner.{State, go, blank, in_literal, step, scan}
use clickhouse_mcp.Text.{Text, codes, after, Lacks}

-- A part of a literal: a code point, or a backslash with the code point that it escapes.
pub data Item : Type 0 where
  char : ℕ → Item
  escape : ℕ → Item

pub data Piece : Type 0 where
  plain : ℕ → Piece
  sign : ℕ → ℕ → Piece
  single : List Item → Piece
  double : List Item → Piece
  backtick : Text → Piece
  line : Text → Piece
  block : Text → Piece
  semicolon : Piece

abbrev pub items_onto : List Item → Text → Text
items_onto [] s = s
items_onto (char c ∷ is) s = c ∷ items_onto is s
items_onto (escape c ∷ is) s = b'\\' ∷ c ∷ items_onto is s

-- The piece in front of a text.
abbrev pub onto : Piece → Text → Text
onto (plain c) s = c ∷ s
onto (sign c d) s = c ∷ d ∷ s
onto (single is) s = b'\'' ∷ items_onto is (b'\'' ∷ s)
onto (double is) s = b'"' ∷ items_onto is (b'"' ∷ s)
onto (backtick body) s = b'`' ∷ (body ++ b'`' ∷ s)
onto (line body) s = b'-' ∷ b'-' ∷ (body ++ b'\n' ∷ s)
onto (block body) s = b'/' ∷ b'*' ∷ (body ++ b'*' ∷ b'/' ∷ s)
onto semicolon s = b';' ∷ s

abbrev pub render : List Piece → Text
render [] = []
render (p ∷ ps) = onto p (render ps)

-- A code point that opens nothing and separates nothing, whatever stands behind it.
pub record IsPlain (c : ℕ) : Type 0 where
  pub no_single : c ≢ b'\''
  pub no_double : c ≢ b'"'
  pub no_backtick : c ≢ b'`'
  pub no_dash : c ≢ b'-'
  pub no_slash : c ≢ b'/'
  pub no_semicolon : c ≢ b';'

-- In a literal closed by `quote`, a code point that stands for itself.
abbrev pub IsItem : ℕ → Item → Type 0
IsItem quote (char c) = (c ≢ quote) × (c ≢ b'\\')
IsItem quote (escape c) = Unit

abbrev pub AllItem : ℕ → List Item → Type 0
AllItem quote [] = Unit
AllItem quote (i ∷ is) = IsItem quote i × AllItem quote is

-- A sign is any code point but a quote or `;` that the next one makes no comment of.
abbrev pub IsPiece : Piece → Type 0
IsPiece (plain c) = IsPlain c
IsPiece (sign c d) = ((c ≡ b'-') ⊎ (c ≡ b'/')) × IsPlain d × (d ≢ b'*')
IsPiece (single is) = AllItem b'\'' is
IsPiece (double is) = AllItem b'"' is
IsPiece (backtick body) = Lacks b'`' body
IsPiece (line body) = Lacks b'\n' body
IsPiece (block body) = after (codes "*/") (body ++ codes "*/") ≡ some []
IsPiece semicolon = Unit

abbrev pub AllPiece : List Piece → Type 0
AllPiece [] = Unit
AllPiece (p ∷ ps) = IsPiece p × AllPiece ps

-- A separator with more than blanks behind it stands among the pieces.
abbrev pub has_second : List Piece → Bool
has_second [] = false
has_second (semicolon ∷ ps) = not (blank (render ps)) || has_second ps
has_second (_ ∷ ps) = has_second ps

-- A round that goes on.
pub scan-go :
    (st : State) (c : ℕ) (s : Text) (st' : State) (skip : Bool)
    → step st c s ≡ go st' skip
    → scan st false (c ∷ s) ≡ scan st' skip s
unfolding scan
scan-go st c s st' skip e = rw e

-- A state inside a literal that knows escapes.
abbrev IsLiteral : State → ℕ → Type 0
IsLiteral st quote = (c : ℕ) (t : Text) → step st c t ≡ in_literal st quote c
