-- ===== src/Query/Output/Named.antt =====
-- `HasUnsupportedOutputClause` of internal/query/result.go, with each of its tests spelled out.
use clickhouse_mcp.Query.Output.Parts.{
  contains_split, contains-append, ends_with_split, ends_with-front,
}
use clickhouse_mcp.Prelude.{
  ℕ, ◌≤◌, true, false, ◌||◌, ◌&&◌, [], ◌∷◌, ◌++◌, map, some, ◌==◌, leb, ◌≡◌, ◌≢◌, ◌⊎◌, ◌↔◌, inl,
  inr, refl, sym, subst, ap, ◌∙◌, arith, Bool-cases, All,
}
use clickhouse_mcp.Query.Output.Clause.{EndsInFormat, has_unsupported_output_clause-EndsInFormat}
use clickhouse_mcp.Query.Output.Found.{last_of}
use clickhouse_mcp.Query.Output.{
  is_ident_byte, is_identifier, joins_word, pass, is_semi_or_blank, strip_line_comments,
  upper_statement, has_unsupported_output_clause,
}
use clickhouse_mcp.Text.{
  Text, codes, contains, ends_with, trim_space, trim_right, before, split, join, to_upper,
}

-- An underscore, a digit or a letter without accents.
abbrev pub IsWordByte : ℕ → Type 0
IsWordByte c = (c ≡ 95) ⊎ ((48 ≤ c) × (c ≤ 57)) ⊎ ((65 ≤ c) × (c ≤ 90)) ⊎ ((97 ≤ c) × (c ≤ 122))

-- The text that the test reads: each line up to its first two dashes, no blanks and semicolons at
-- its end, in upper case.
abbrev pub stripped : Text → Text
stripped sql = to_upper (
    trim_right (λ c. c == b';' || c == b' ')
      (trim_space (join (codes "\n") (map (before (codes "--")) (split b'\n' sql)))))

-- INTO OUTFILE stands at the end, or a blank stands behind it.
abbrev pub NamesOutfile : Text → Type 0
NamesOutfile s =
    ((front : Text) × (s ≡ front ++ codes "INTO OUTFILE"))
    ⊎ ((front : Text) × (tail : Text) × (s ≡ front ++ (codes "INTO OUTFILE " ++ tail)))

-- No underscore, digit or letter stands at the end.
abbrev pub EndsOutsideWord : Text → Type 0
EndsOutsideWord s =
    (s ≡ []) ⊎ ((init : Text) × (last : ℕ) × (s ≡ init ++ last ∷ []) × (¬ IsWordByte last))

-- The last FORMAT before a blank starts a word, and one name stands behind it, blanks round it
-- apart.
pub record EndsInName (upper : Text) : Type 0 where
  pub front : Text
  pub tail : Text
  pub split_is : upper ≡ front ++ (codes "FORMAT " ++ tail)
  pub whole_word : EndsOutsideWord front
  pub is_last : contains (codes "FORMAT ") tail ≡ false
  pub is_named : trim_space tail ≢ []
  pub one_name : All IsWordByte (trim_space tail)

is_ident_byte_word : (c : ℕ) → is_ident_byte c ≡ true → IsWordByte c
unfolding is_ident_byte
is_ident_byte_word c h = elim (Bool-cases (c == 95)) [
  | inl e ↦ inl (ground arith)
  | inr no_line ↦ elim (Bool-cases (leb 48 c && leb c 57)) [
    | inl e ↦ inr (inl (ground arith, ground arith))
    | inr no_digit ↦ elim (Bool-cases (leb 65 c && leb c 90)) [
      | inl e ↦ inr (inr (inl (ground arith, ground arith)))
      | inr no_capital ↦
          let small : leb 97 c && leb c 122 ≡ true = rw (no_line, no_digit, no_capital) at h in
          inr (inr (inr (ground arith, ground arith)))
    ]
  ]
]

word_is_ident_byte : (c : ℕ) → IsWordByte c → is_ident_byte c ≡ true
unfolding is_ident_byte
word_is_ident_byte c (inl e) = ground arith
word_is_ident_byte c (inr (inl (a, b))) = ground arith
word_is_ident_byte c (inr (inr (inl (a, b)))) = ground arith
word_is_ident_byte c (inr (inr (inr (a, b)))) = ground arith

is_identifier_words : (s : Text) → (is_identifier s ≡ true) ↔ All IsWordByte s
unfolding is_identifier
is_identifier_words [] = (λ e. tt, λ h. refl)
is_identifier_words (c ∷ s) = (
  λ e. (is_ident_byte_word c (ground arith), (is_identifier_words s).0 (ground arith)),
  λ (h, hs). rw (word_is_ident_byte c h, (is_identifier_words s).1 hs) refl,
)

last_of-append : (s : Text) (c : ℕ) → last_of (s ++ c ∷ []) ≡ some c
unfolding last_of pass
last_of-append [] c = refl
last_of-append (d ∷ s) c = rw (last_of-append s c) refl

-- A text is empty, or has a last code point.
last_of-cases : (s : Text) → (s ≡ []) ⊎ ((init : Text) × (last : ℕ) × (s ≡ init ++ last ∷ []))
last_of-cases [] = inl refl
last_of-cases (c ∷ s) = elim (last_of-cases s) [
  | inl none_left ↦ inr ([], c, ap (λ t. c ∷ t) none_left)
  | inr (init, last, e) ↦ inr (c ∷ init, last, ap (λ t. c ∷ t) e)
]

joins_word-false : (s : Text) → joins_word (last_of s) ≡ false → EndsOutsideWord s
unfolding joins_word
joins_word-false s h = elim (last_of-cases s) [
  | inl e ↦ inl e
  | inr (init, last, e) ↦
      let at : last_of s ≡ some last = ap last_of e ∙ last_of-append init last in
      let none_joins : joins_word (some last) ≡ false = sym (ap joins_word at) ∙ h in
      inr (init, last, e, (λ word. let joins = word_is_ident_byte last word in cc))
]

false_unless_word : (c : ℕ) → (¬ IsWordByte c) → is_ident_byte c ≡ false
false_unless_word c n = elim (Bool-cases (is_ident_byte c)) [
  | inl e ↦ absurd (n (is_ident_byte_word c e))
  | inr e ↦ e
]

false-joins_word : (s : Text) → EndsOutsideWord s → joins_word (last_of s) ≡ false
unfolding joins_word last_of
false-joins_word s (inl e) = rw e refl
false-joins_word s (inr (init, last, e, n)) =
    ap joins_word (ap last_of e ∙ last_of-append init last) ∙ false_unless_word last n

EndsInFormat-EndsInName : (upper : Text) → EndsInFormat upper ↔ EndsInName upper
EndsInFormat-EndsInName upper = (
  λ h. record {
    front = h.front;
    tail = h.tail;
    split_is = h.split_is;
    whole_word = joins_word-false h.front h.whole_word;
    is_last = h.is_last;
    is_named = h.is_named;
    one_name = (is_identifier_words (trim_space h.tail)).0 h.one_name;
  },
  λ h. record {
    front = h.front;
    tail = h.tail;
    split_is = h.split_is;
    whole_word = false-joins_word h.front h.whole_word;
    is_last = h.is_last;
    is_named = h.is_named;
    one_name = (is_identifier_words (trim_space h.tail)).1 h.one_name;
  },
)

outfile-NamesOutfile :
    (s : Text)
    → (ends_with (codes "INTO OUTFILE") s || contains (codes "INTO OUTFILE ") s ≡ true)
      ↔ NamesOutfile s
outfile-NamesOutfile s = (to_names, from_names)
  where
    to_names :
        ends_with (codes "INTO OUTFILE") s || contains (codes "INTO OUTFILE ") s ≡ true
        → NamesOutfile s
    to_names h = elim (Bool-cases (ends_with (codes "INTO OUTFILE") s)) [
      | inl e ↦ inl (ends_with_split _ s e)
      | inr further ↦ inr (contains_split (codes "INTO OUTFILE ") s (ground arith))
    ]

    from_names :
        NamesOutfile s
        → ends_with (codes "INTO OUTFILE") s || contains (codes "INTO OUTFILE ") s ≡ true
    from_names (inl (front, e)) =
        let found : ends_with (codes "INTO OUTFILE") s ≡ true =
          ap (ends_with (codes "INTO OUTFILE")) e ∙ ends_with-front _ front in
        ground arith
    from_names (inr (front, tail, e)) =
        let found : contains (codes "INTO OUTFILE ") s ≡ true =
          ap (contains (codes "INTO OUTFILE ")) e ∙ contains-append _ front tail in
        ground arith

upper_statement-stripped : (sql : Text) → upper_statement sql ≡ stripped sql
unfolding upper_statement strip_line_comments is_semi_or_blank
upper_statement-stripped sql = refl

-- The test for an output clause holds exactly of a text that, once each line is cut at its first two
-- dashes, blanks and semicolons are taken off its end, and it is put in upper case, has INTO OUTFILE
-- at its end or before a blank, or has a last FORMAT before a blank that starts a word and that one
-- name of letters, digits and underscores follows, blanks round it apart.
pub has_unsupported_output_clause-Named :
    (sql : Text)
    → (has_unsupported_output_clause sql ≡ true)
      ↔ (NamesOutfile (stripped sql) ⊎ EndsInName (stripped sql))
has_unsupported_output_clause-Named sql =
    let whole = has_unsupported_output_clause-EndsInFormat sql in
    (
      λ h. elim (whole.0 h) [
        | inl e ↦
            inl (subst NamesOutfile (upper_statement-stripped sql) ((outfile-NamesOutfile _).0 e))
        | inr e ↦
            inr (subst EndsInName (upper_statement-stripped sql) ((EndsInFormat-EndsInName _).0 e))
      ],
      λ h. elim h [
        | inl e ↦ whole.1 (
            inl (
              (outfile-NamesOutfile _).1
                (subst NamesOutfile (sym (upper_statement-stripped sql)) e)))
        | inr e ↦ whole.1 (
            inr (
              (EndsInFormat-EndsInName _).1
                (subst EndsInName (sym (upper_statement-stripped sql)) e)))
      ],
    )
