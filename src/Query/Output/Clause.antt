-- ===== src/Query/Output/Clause.antt =====
-- `HasUnsupportedOutputClause` of internal/query/result.go against a description of the clauses.
use clickhouse_mcp.Query.Output.Found.{
  last_of, last_index-contains, last_index-append, last_index-IsFound,
}
use clickhouse_mcp.Prelude.{
  Bool, true, false, ◌&&◌, ◌||◌, not, [], ◌++◌, Option, none, some, ◌≡◌, ◌≢◌, ◌⊎◌, ◌↔◌, inl, inr,
  refl, sym, subst, Bool-cases, if◌then◌else◌,
}
use clickhouse_mcp.Query.Output.{
  Last, last_index, joins_word, is_identifier, is_format_clause, upper_statement,
  has_unsupported_output_clause,
}
use clickhouse_mcp.Text.{
  Text, codes, equal, equal_iff, contains, starts_with, ends_with, trim_space,
}

abbrev pub format_word : Text
format_word = codes "FORMAT "

-- An upper-cased statement that ends in FORMAT and a name: behind the last FORMAT and its blank
-- stands one identifier, blanks round it apart, and no identifier byte stands in front.
pub record EndsInFormat (upper : Text) : Type 0 where
  pub front : Text
  pub tail : Text
  pub split_is : upper ≡ front ++ (format_word ++ tail)
  pub whole_word : joins_word (last_of front) ≡ false
  pub is_last : contains format_word tail ≡ false
  pub is_named : trim_space tail ≢ []
  pub one_name : is_identifier (trim_space tail) ≡ true

-- The last FORMAT with its blank is found where it stands.
last_index-format :
    (t : Text)
    → contains format_word t ≡ false
    → last_index format_word (format_word ++ t) ≡ some (record { front = none; tail = t })
unfolding last_index starts_with
last_index-format t h = rw (last_index-contains format_word t h) refl

is_format_clause-parts :
    (l : Last)
    → is_format_clause (some l) ≡ true
    → (joins_word l.front ≡ false)
      × (trim_space l.tail ≢ [])
      × (is_identifier (trim_space l.tail) ≡ true)
unfolding is_format_clause
is_format_clause-parts l h = by_tests (joins_word l.front) _ _ refl refl h
  where
    by_tests :
        (a b c : Bool)
        → joins_word l.front ≡ a
        → equal (trim_space l.tail) [] ≡ b
        → (if a then false else not b && c) ≡ true
        → (a ≡ false) × (trim_space l.tail ≢ []) × (c ≡ true)
    by_tests true b c p q r = cc
    by_tests false true c p q r = cc
    by_tests false false c p q r =
        (refl, (λ e. let same = (equal_iff (trim_space l.tail) []).1 e in cc), r)

is_format_clause_of :
    (l : Last)
    → joins_word l.front ≡ false
    → trim_space l.tail ≢ []
    → is_identifier (trim_space l.tail) ≡ true
    → is_format_clause (some l) ≡ true
unfolding is_format_clause
is_format_clause_of l whole given name = rw (whole, unset, name) refl
  where
    unset : equal (trim_space l.tail) [] ≡ false
    unset = elim (Bool-cases (equal (trim_space l.tail) [])) [
      | inl e ↦ absurd (given ((equal_iff (trim_space l.tail) []).0 e))
      | inr e ↦ e
    ]

format_clause-EndsInFormat :
    (upper : Text) → is_format_clause (last_index format_word upper) ≡ true → EndsInFormat upper
format_clause-EndsInFormat upper h = by_last (last_index format_word upper) refl h
  where
    by_last :
        (o : Option Last)
        → last_index format_word upper ≡ o
        → is_format_clause o ≡ true
        → EndsInFormat upper
    by_last none e q = unfold is_format_clause in cc q
    by_last (some l) e q =
        let (a, at, front, last) = last_index-IsFound b'F' (codes "ORMAT ") upper l e in
        let (whole, given, name) = is_format_clause-parts l q in
        record {
          front = a;
          tail = l.tail;
          split_is = at;
          whole_word = subst (λ o. joins_word o ≡ false) front whole;
          is_last = last;
          is_named = given;
          one_name = name;
        }

is_format_clause-EndsInFormat :
    (upper : Text) → EndsInFormat upper → is_format_clause (last_index format_word upper) ≡ true
is_format_clause-EndsInFormat upper h =
    subst (λ s. is_format_clause (last_index format_word s) ≡ true) (sym h.split_is)
      (subst (λ o. is_format_clause o ≡ true)
        (sym (
          last_index-append format_word h.front (format_word ++ h.tail) h.tail
            (last_index-format h.tail h.is_last)))
        (is_format_clause_of _ h.whole_word h.is_named h.one_name))

-- The test for an output clause holds exactly of a statement that, without its line comments and
-- its closing semicolons and in upper case, names INTO OUTFILE as the test reads it, or ends in
-- FORMAT and the name of a format: the last FORMAT before a blank has no identifier byte in front
-- of it, and behind it stands one identifier, blanks round it apart.
pub has_unsupported_output_clause-EndsInFormat :
    (sql : Text)
    → (has_unsupported_output_clause sql ≡ true) ↔ (
        (ends_with (codes "INTO OUTFILE") (upper_statement sql)
            || contains (codes "INTO OUTFILE ") (upper_statement sql)
          ≡ true)
        ⊎ EndsInFormat (upper_statement sql))
unfolding has_unsupported_output_clause
has_unsupported_output_clause-EndsInFormat sql = by_test _
  where
    upper : Text
    upper = upper_statement sql

    by_test :
        (b : Bool)
        → ((if b then true else is_format_clause (last_index format_word upper)) ≡ true)
          ↔ ((b ≡ true) ⊎ EndsInFormat upper)
    by_test true = ((λ h. inl refl), λ h. refl)
    by_test false = ((λ h. inr (format_clause-EndsInFormat upper h)), by_case)
      where
        by_case :
            (false ≡ true) ⊎ EndsInFormat upper
            → is_format_clause (last_index format_word upper) ≡ true
        by_case (inl h) = cc
        by_case (inr h) = is_format_clause-EndsInFormat upper h
