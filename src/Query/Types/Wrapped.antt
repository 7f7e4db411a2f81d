-- ===== src/Query/Types/Wrapped.antt =====
-- One-argument wrappers: `elemType` gives the argument, and `isDateOnly` looks through them.
use clickhouse_mcp.Prelude.{
  ℕ, ◌<◌, ◌≤◌, true, false, [], ◌∷◌, ◌++◌, ◌≡◌, refl, ap, sym, ◌∙◌, arith, Bool-cases, inl, inr,
  length, length-append,
}
use clickhouse_mcp.Query.Types.Args.{IsArg, split_top_level-join}
use clickhouse_mcp.Query.Types.Dates.{date_of, date_of_unwrap}
use clickhouse_mcp.Query.Types.{
  drop_last, type_name_of, type_name, split_top_level, only_arg, has_own_args, elem_type, unwrap,
  date_round, is_date_only,
}
use clickhouse_mcp.Text.{
  Text, codes, Lacks, equal, equal_iff, join, trim_space, trim_right, trim_space_stop,
  trim_right-append_stop, is_space, after, after-Lacks, after-Lacks-none, before-Lacks, ends_with,
  ends_with-append,
}

-- `Name(arg)`.
abbrev pub wrap : Text → Text → Text
wrap name a = name ++ b'(' ∷ (a ++ b')' ∷ [])

-- A constructor name: it begins with no blank and holds no paren.
pub record IsHead (name : Text) : Type 0 where
  pub head : ℕ
  pub rest : Text
  pub splits : name ≡ head ∷ rest
  pub no_blank : is_space head ≡ false
  pub no_paren : Lacks b'(' name

-- A constructor name of one argument, which is none of those whose arguments the code treats in a
-- way of their own.
pub record IsWrapper (name : Text) : Type 0 where
  pub is_head : IsHead name
  pub one_arg : has_own_args name ≡ false
  pub no_aggregate : equal name (codes "SimpleAggregateFunction") ≡ false

drop_last-append : (a : Text) (c : ℕ) → drop_last (a ++ c ∷ []) ≡ a
unfolding drop_last
drop_last-append [] c = refl
drop_last-append (d ∷ []) c = refl
drop_last-append (d ∷ e ∷ a) c = ap (◌∷◌ d) (drop_last-append (e ∷ a) c)

module _ {name : Text} (w : IsHead name) (a : Text) where
  pub trim_space-wrap : trim_space (wrap name a) ≡ wrap name a
  trim_space-wrap = rw w.splits (
      trim_space_stop w.head (w.rest ++ b'(' ∷ (a ++ b')' ∷ [])) w.no_blank
      ∙ ap (◌∷◌ w.head) (
          trim_right-append_stop is_space w.rest b'(' (a ++ b')' ∷ []) (unfold is_space in refl)
          ∙ ap (λ t. w.rest ++ b'(' ∷ t)
              (trim_right-append_stop is_space a b')' [] (unfold is_space in refl)
                ∙ ap (λ t. a ++ b')' ∷ t) (unfold trim_right in refl))))

  pub type_name-wrap : type_name (wrap name a) ≡ record { name = name; args = a }
  type_name-wrap =
      unfold type_name type_name_of in
      rw (
        trim_space-wrap,
        after-Lacks b'(' name (a ++ b')' ∷ []) w.no_paren,
        closes,
        before-Lacks b'(' name (a ++ b')' ∷ []) w.no_paren,
        drop_last-append a b')',
      )
    where
      closes : ends_with (codes ")") (wrap name a) ≡ true
      closes =
          ends_with-append (codes ")") name (b'(' ∷ (a ++ codes ")"))
            (ends_with-append (codes ")") (b'(' ∷ a) (codes ")") (unfold ends_with equal in refl))

  not_plain : (t : Text) → Lacks b'(' t → equal (wrap name a) t ≡ false
  not_plain t h = elim (Bool-cases (equal (wrap name a) t)) [
    | inr e ↦ e
    | inl e ↦
        let found = after-Lacks b'(' name (a ++ b')' ∷ []) w.no_paren in
        let missing = after-Lacks-none b'(' t h in
        let same = (equal_iff (wrap name a) t).0 e in
        absurd (cc (sym found ∙ ap (after (codes "(")) same ∙ missing))
  ]

  round_of_elem :
      (u : Text)
      → elem_type (wrap name a) ≡ u
      → length u < length (wrap name a)
      → date_round (wrap name a) ≡ unwrap (trim_space u)
  round_of_elem u inside less =
      unfold date_round in
      rw (
        not_plain (codes "Date") (omega arith),
        not_plain (codes "Date32") (omega arith),
        inside,
        other,
      )
    where
      other : equal u (wrap name a) ≡ false
      other = elim (Bool-cases (equal u (wrap name a))) [
        | inr e ↦ e
        | inl e ↦
            let same = ap length ((equal_iff u (wrap name a)).0 e) in absurd (omega (arith, less))
      ]

  -- `isDateOnly` looks through a type whose element is a shorter one.
  pub is_date_only_of_elem :
      (u : Text)
      → elem_type (wrap name a) ≡ u
      → length u < length (wrap name a)
      → is_date_only (wrap name a) ≡ is_date_only u
  is_date_only_of_elem u inside less =
      unfold is_date_only in
      ap date_of trim_space-wrap ∙ date_of_unwrap _ _ (round_of_elem u inside less)

  pub length-wrap-lt : (u : Text) → length u ≤ length a → length u < length (wrap name a)
  length-wrap-lt u h =
      omega (arith, length-append name (b'(' ∷ (a ++ b')' ∷ [])), length-append a (b')' ∷ []))

module _ {name : Text} (w : IsWrapper name) (a : Text) where
  -- `elemType` strips the wrapper and nothing else.
  pub elem_type-wrap : IsArg a → elem_type (wrap name a) ≡ a
  elem_type-wrap h =
      unfold elem_type in
      rw (type_name-wrap w.is_head a, w.one_arg, w.no_aggregate, alone) (unfold only_arg in refl)
    where
      alone : split_top_level a ≡ a ∷ []
      alone = unfold join in split_top_level-join (a ∷ []) (h, tt)

  -- A one-argument wrapper round a type is a calendar date exactly when the type is one, however
  -- deep that type is itself wrapped.
  pub is_date_only-wrap : IsArg a → is_date_only (wrap name a) ≡ is_date_only a
  is_date_only-wrap h =
      is_date_only_of_elem w.is_head a a (elem_type-wrap h)
        (length-wrap-lt w.is_head a a (omega arith))
