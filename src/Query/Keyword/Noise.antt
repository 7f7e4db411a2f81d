-- ===== src/Query/Keyword/Noise.antt =====
-- What `leadingKeyword` skips: blanks, comments and opening parens, in any number and order.
use clickhouse_mcp.Prelude.{
  ℕ, true, false, List, [], ◌∷◌, ◌++◌, append_assoc, some, ◌≡◌, ◌≢◌, inl, inr, refl, sym, ◌∙◌, ap,
  arith,
}
use clickhouse_mcp.Query.Keyword.Fuel.{keyword_of, keyword_of_again}
use clickhouse_mcp.Query.Keyword.{
  again, blank, round, resume, on_round, find_keyword, or_empty, leading_keyword,
}
use clickhouse_mcp.Text.{
  Text, codes, starts_with, after, after-append, after-Lacks, after-Lacks-none, Lacks, trim_space,
  trim_right, is_space, trim_space_skip, trim_space_stop, trim_space-trim_right, trim_right-All,
  trim_right-append_stop, trim_right-append, trim_right-append_none, trim_right-cons,
  trim_space_of_nil, trim_right-cons_none, trim_right_stop, until, to_upper,
}

pub data Noise : Type 0 where
  space : ℕ → Noise
  line : Text → Noise
  block : Text → Noise
  paren : Noise

-- The piece in front of a text.
abbrev pub onto : Noise → Text → Text
onto (space c) s = c ∷ s
onto (line body) s = b'-' ∷ b'-' ∷ (body ++ b'\n' ∷ s)
onto (block body) s = b'/' ∷ b'*' ∷ (body ++ b'*' ∷ b'/' ∷ s)
onto paren s = b'(' ∷ s

abbrev pub all_onto : List Noise → Text → Text
all_onto [] s = s
all_onto (n ∷ ns) s = onto n (all_onto ns s)

-- A space is one, a line comment ends at its first line end, and a block comment at its first `*/`,
-- with no `/` right behind the opening `/*`.
abbrev pub IsNoise : Noise → Type 0
IsNoise (space c) = is_space c ≡ true
IsNoise (line body) = Lacks b'\n' body
IsNoise (block body) =
    (after (codes "*/") (body ++ codes "*/") ≡ some []) × (starts_with (codes "/") body ≡ false)
IsNoise paren = Unit

abbrev pub AllNoise : List Noise → Type 0
AllNoise [] = Unit
AllNoise (n ∷ ns) = IsNoise n × AllNoise ns

-- A trimmed text whose round goes on with what is left of `s`.
hand_over :
    (t s : Text)
    → round t ≡ again (trim_space (trim_right is_space s))
    → keyword_of t ≡ keyword_of (trim_space s)
hand_over t s e = keyword_of_again t _ e ∙ ap keyword_of (trim_space-trim_right s)

keyword_of_paren : (s : Text) → keyword_of (trim_space (b'(' ∷ s)) ≡ keyword_of (trim_space s)
keyword_of_paren s =
    rw (trim_space_stop b'(' s (unfold is_space in refl))
      (hand_over _ s (unfold round starts_with in refl))

after_block :
    (body s : Text)
    → IsNoise (block body)
    → after (codes "*/") (b'/' ∷ b'*' ∷ (body ++ b'*' ∷ b'/' ∷ s)) ≡ some s
after_block body s (close, opening) = unfold after in ground (arith, found, not_yet body opening)
  where
    found : after (codes "*/") (body ++ b'*' ∷ b'/' ∷ s) ≡ some s
    found = rw (append_assoc body (codes "*/") s) at (after-append (codes "*/") _ s close)

    not_yet :
        (body : Text)
        → starts_with (codes "/") body ≡ false
        → starts_with (codes "/") (body ++ b'*' ∷ b'/' ∷ s) ≡ false
    not_yet [] h = unfold starts_with in refl
    not_yet (c ∷ body) h = unfold starts_with in ground arith

trim_space-block :
    (body s : Text) → trim_space (onto (block body) s) ≡ onto (block body) (trim_right is_space s)
unfolding is_space
trim_space-block body s =
    trim_space_stop b'/' (b'*' ∷ (body ++ b'*' ∷ b'/' ∷ s)) refl
    ∙ ap (◌∷◌ b'/') (
        trim_right-append_stop is_space (b'*' ∷ body) b'*' (b'/' ∷ s) refl
        ∙ ap (λ t. b'*' ∷ (body ++ b'*' ∷ t)) (trim_right_stop is_space b'/' s refl))

keyword_of_block :
    (body s : Text)
    → IsNoise (block body)
    → keyword_of (trim_space (onto (block body) s)) ≡ keyword_of (trim_space s)
keyword_of_block body s h =
    ap keyword_of (trim_space-block body s)
    ∙ hand_over (onto (block body) (trim_right is_space s)) s (next (trim_right is_space s))
  where
    next : (u : Text) → round (onto (block body) u) ≡ again (trim_space u)
    next u = unfold round starts_with resume in rw (after_block body u h)

-- A line comment with a line end behind which nothing but blanks stands.
trim_space-line_none :
    (body s : Text)
    → trim_right is_space s ≡ []
    → trim_space (onto (line body) s) ≡ b'-' ∷ b'-' ∷ trim_right is_space body
unfolding is_space
trim_space-line_none body s h =
    trim_space_stop b'-' (b'-' ∷ (body ++ b'\n' ∷ s)) refl
    ∙ ap (◌∷◌ b'-') (
        trim_right-append_none is_space (b'-' ∷ body) (b'\n' ∷ s)
          (trim_right-cons_none is_space b'\n' s refl h)
        ∙ trim_right_stop is_space b'-' body refl)

trim_space-line :
    (body s : Text) {c : ℕ} {r : Text}
    → trim_right is_space s ≡ c ∷ r
    → trim_space (onto (line body) s) ≡ onto (line body) (trim_right is_space s)
unfolding is_space
trim_space-line body s h =
    trim_space_stop b'-' (b'-' ∷ (body ++ b'\n' ∷ s)) refl
    ∙ ap (◌∷◌ b'-') (
        trim_right-append is_space (b'-' ∷ body) (b'\n' ∷ s) (λ e. cc (sym kept ∙ e))
        ∙ ap (λ t. b'-' ∷ (body ++ t)) kept)
  where
    kept : trim_right is_space (b'\n' ∷ s) ≡ b'\n' ∷ trim_right is_space s
    kept = elim (trim_right-cons is_space b'\n' s) [ inl e ↦ e | inr (_, e, _) ↦ cc ]

keyword_of_line :
    (body s : Text)
    → Lacks b'\n' body
    → keyword_of (trim_space (onto (line body) s)) ≡ keyword_of (trim_space s)
keyword_of_line body s h = by_rest (trim_right is_space s) refl
  where
    lacks : Lacks b'\n' (b'-' ∷ b'-' ∷ trim_right is_space body)
    lacks = (omega arith, (omega arith, trim_right-All (λ c. c ≢ b'\n') is_space body h))

    next : (u : Text) → round (onto (line body) u) ≡ again (trim_space u)
    next u =
        unfold round starts_with resume in
        rw (after-Lacks b'\n' (b'-' ∷ b'-' ∷ body) u (omega arith, (omega arith, h)))

    ends : round (b'-' ∷ b'-' ∷ trim_right is_space body) ≡ blank
    ends = unfold round starts_with resume in rw (after-Lacks-none b'\n' _ lacks)

    by_rest :
        (t : Text)
        → trim_right is_space s ≡ t
        → keyword_of (trim_space (onto (line body) s)) ≡ keyword_of (trim_space s)
    by_rest [] e =
        rw (trim_space-line_none body s e, trim_space_of_nil s e)
          (unfold find_keyword or_empty on_round in
            rw ends (unfold round starts_with until to_upper in refl))
    by_rest (c ∷ r) e =
        ap keyword_of (trim_space-line body s e)
        ∙ hand_over (onto (line body) (trim_right is_space s)) s (next (trim_right is_space s))

keyword_of-onto :
    (n : Noise) (s : Text)
    → IsNoise n
    → keyword_of (trim_space (onto n s)) ≡ keyword_of (trim_space s)
keyword_of-onto (space c) s h = ap keyword_of (trim_space_skip c s h)
keyword_of-onto (line body) s h = keyword_of_line body s h
keyword_of-onto (block body) s h = keyword_of_block body s h
keyword_of-onto paren s h = keyword_of_paren s

keyword_of-all_onto :
    (ns : List Noise) (s : Text)
    → AllNoise ns
    → keyword_of (trim_space (all_onto ns s)) ≡ keyword_of (trim_space s)
keyword_of-all_onto [] s h = refl
keyword_of-all_onto (n ∷ ns) s (hn, hs) =
    keyword_of-onto n (all_onto ns s) hn ∙ keyword_of-all_onto ns s hs

-- The leading keyword of a text does not change when any sequence of blanks, line comments,
-- opening parens and closed block comments whose body does not start with a slash is put in front
-- of it.
pub leading_keyword-all_onto :
    (ns : List Noise) (s : Text) → AllNoise ns → leading_keyword (all_onto ns s) ≡ leading_keyword s
unfolding leading_keyword
leading_keyword-all_onto ns s h = keyword_of-all_onto ns s h
