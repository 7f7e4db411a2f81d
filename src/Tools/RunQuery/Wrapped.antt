-- ===== src/Tools/RunQuery/Wrapped.antt =====
-- `run_query` in full: the one query that is sent, and the rows that come back.
use mathlib.Core.Option
use clickhouse_mcp.Prelude.{
  ℕ, zero, suc, ◌<◌, Bool, true, false, ◌||◌, not, List, [], ◌∷◌, ◌++◌, map, Option, none, some,
  ◌≡◌, ◌≢◌, ◌+◌, ◌⊎◌, inl, inr, refl, ◌∙◌, ap, Bool-cases, ◌==◌, if◌then◌else◌, ℤ, pos, add_one,
  is_positive, arith,
}
use clickhouse_mcp.Query.Bound.{bound, inner, itoa}
use clickhouse_mcp.Query.Keyword.{leading_keyword, can_bound, one_of}
use clickhouse_mcp.Query.Output.{is_semi_or_blank}
use clickhouse_mcp.Query.Serialize.{Foreign, Value, Json, to_json_value}
use clickhouse_mcp.Query.Shape.{Result}
use clickhouse_mcp.Text.{Text, codes, equal, equal_iff, trim_space, trim_right}
use clickhouse_mcp.Tools.Driver.ReadCaps.{read_caps}
use clickhouse_mcp.Tools.Driver.{
  Driver, Session, Rows, ok, Call, query, answer, any_values, read_rows, default_read_context,
  capped_context,
}
use clickhouse_mcp.Tools.Limit.Agrees.{IsCut}
use clickhouse_mcp.Tools.RunQuery.Bounded.{row_limit-pos, run_query-answer}
use clickhouse_mcp.Tools.RunQuery.Sent.{is_query, run_query-log}
use clickhouse_mcp.Tools.RunQuery.{RunQueryArgs, row_limit, bounded_call, row_json, run_query}

module _ {ℓ} {A : Type ℓ} where
  abbrev pub get_elem? : List A → ℕ → Option A
  get_elem? [] n = none
  get_elem? (x ∷ xs) zero = some x
  get_elem? (x ∷ xs) (suc n) = get_elem? xs n

-- The limit that applies: the caller's own if it is positive, and else 100.
abbrev pub Applies : ℤ → ℕ → Type 0
Applies limit n = ((limit ≡ pos n) × (0 < n)) ⊎ ((is_positive limit ≡ false) × (n ≡ 100))

-- The text that is sent for at most some rows: a SELECT or WITH, without its closing semicolons, as
-- a subquery with that limit, and any other text as it is.
abbrev pub IsBounded : Text → ℤ → Text → Type 0
IsBounded sql fetch_limit sent =
    (((leading_keyword sql ≡ codes "SELECT") ⊎ (leading_keyword sql ≡ codes "WITH"))
      × (sent
          ≡ codes "SELECT * FROM ("
            ++ (trim_space (trim_right (λ c. c == b';' || c == b' ') (trim_space sql))
                ++ (codes "\n) LIMIT " ++ itoa fetch_limit))))
    ⊎ ((leading_keyword sql ≢ codes "SELECT") × (leading_keyword sql ≢ codes "WITH") × (sent ≡ sql))

pub bound-IsBounded : (sql : Text) (n : ℤ) → IsBounded sql n (bound sql n)
unfolding bound can_bound one_of inner is_semi_or_blank
bound-IsBounded sql n = by_tests _ _ refl refl
  where
    wrapped : Text
    wrapped =
        codes "SELECT * FROM ("
        ++ (trim_space (trim_right (λ c. c == b';' || c == b' ') (trim_space sql))
            ++ (codes "\n) LIMIT " ++ itoa n))

    by_tests :
        (a b : Bool)
        → equal (leading_keyword sql) (codes "SELECT") ≡ a
        → equal (leading_keyword sql) (codes "WITH") ≡ b
        → (((leading_keyword sql ≡ codes "SELECT") ⊎ (leading_keyword sql ≡ codes "WITH"))
            × ((if not (a || (b || false)) then sql else wrapped) ≡ wrapped))
          ⊎ ((leading_keyword sql ≢ codes "SELECT")
              × (leading_keyword sql ≢ codes "WITH")
              × ((if not (a || (b || false)) then sql else wrapped) ≡ sql))
    by_tests true b e g = inl (inl ((equal_iff _ (codes "SELECT")).0 e), refl)
    by_tests false true e g = inl (inr ((equal_iff _ (codes "WITH")).0 g), refl)
    by_tests false false e g = inr (
      (λ x. let y = (equal_iff (leading_keyword sql) (codes "SELECT")).1 x in cc),
      (λ x. let y = (equal_iff (leading_keyword sql) (codes "WITH")).1 x in cc),
      refl,
    )

row_limit-Applies : (limit : ℤ) → (n : ℕ) × (row_limit limit ≡ pos n) × Applies limit n
row_limit-Applies limit =
    let (n, at, given, which) = row_limit-pos limit in
    (
      n,
      at,
      elim which [
        | inl own ↦ inl (own, given)
        | inr (none_given, hundred) ↦ inr (none_given, hundred)
      ],
    )

Applies-row_limit : (limit : ℤ) (n : ℕ) → Applies limit n → row_limit limit ≡ pos n
unfolding row_limit is_positive
Applies-row_limit limit n (inl (own, given)) = rw own (ground arith)
Applies-row_limit limit n (inr (none_given, hundred)) = rw (none_given, hundred) refl

module _ {f : Foreign} (d : Driver f) where
  open d use {World}

  -- The calls of `run_query` for a text: none, or one with the text bounded for one row more than
  -- the limit, under the caps of the read context.
  abbrev pub IsOneCall : RunQueryArgs → List Call → Type 0
  IsOneCall args calls =
      ((is_query args.sql ≡ false) × (calls ≡ []))
      ⊎ ((is_query args.sql ≡ true)
          × ((n : ℕ) × (sent : Text) × Applies args.limit n
              × IsBounded args.sql (add_one (pos n)) sent
              × (calls ≡ query (some read_caps) sent [] ∷ [])))

  bounded_call-query :
      (sql : Text) (n : ℤ) → bounded_call sql n ≡ query (some read_caps) (bound sql (add_one n)) []
  unfolding bounded_call default_read_context capped_context
  bounded_call-query sql n = refl

  -- `run_query` makes no call for a text that fails one of its four tests, and exactly one for any
  -- other: under the caps of 100,000 rows, 64 MiB and 30 seconds, with a SELECT or WITH wrapped as a
  -- subquery that is limited to one row more than the limit that applies, and with any other text
  -- as it is. The limit that applies is the caller's if it is positive, and 100 if not.
  pub run_query-IsOneCall :
      (args : RunQueryArgs) (s : Session World)
      → (calls : List Call) × ((run_query d args s).1.log ≡ s.log ++ calls) × IsOneCall args calls
  run_query-IsOneCall args s = (_, run_query-log d args s, by_test)
    where
      by_test :
          IsOneCall args
            (if is_query args.sql then bounded_call args.sql (row_limit args.limit) ∷ [] else [])
      by_test = elim (Bool-cases (is_query args.sql)) [
        | inr failed ↦ inl (failed, rw failed refl)
        | inl passed ↦
            let (n, at, applies) = row_limit-Applies args.limit in
            let sends : (if is_query args.sql
                  then bounded_call args.sql (row_limit args.limit) ∷ []
                  else [])
                ≡ query (some read_caps) (bound args.sql (add_one (pos n))) [] ∷ [] =
              rw (passed, at) (ap (λ c. c ∷ []) (bounded_call-query args.sql (pos n))) in
            inr (passed, (n, _, applies, bound-IsBounded args.sql (add_one (pos n)), sends))
      ]

  -- A value for each type of a column, rendered by it.
  abbrev pub IsRendered : List Text → (ℕ → Value f) → List (Json f) → Type 0
  IsRendered types row out =
      (k : ℕ) → get_elem? out k ≡ Option.map (λ t. to_json_value f (row k) t) (get_elem? types k)

  abbrev pub AllRendered : List Text → List (ℕ → Value f) → List (List (Json f)) → Type 0
  AllRendered types [] outs = outs ≡ []
  AllRendered types (row ∷ rows) outs =
      (out : List (Json f)) × (rest : List (List (Json f))) × (outs ≡ out ∷ rest)
      × IsRendered types row out
      × AllRendered types rows rest

  row_json-rendered :
      (types : List Text) (i : ℕ) (row : ℕ → Value f) (k : ℕ)
      → get_elem? (row_json d types i row) k
        ≡ Option.map (λ t. to_json_value f (row (i + k)) t) (get_elem? types k)
  unfolding row_json
  row_json-rendered [] i row k = refl
  row_json-rendered (t ∷ types) i row zero =
      ap (λ m. some (to_json_value f (row m) t)) (omega arith)
  row_json-rendered (t ∷ types) i row (suc k) =
      row_json-rendered types (suc i) row k
      ∙ ap (λ m. Option.map (λ t. to_json_value f (row m) t) (get_elem? types k)) (omega arith)

  rows_json-AllRendered :
      (types : List Text) (rows : List (ℕ → Value f))
      → AllRendered types rows (map (row_json d types 0) rows)
  rows_json-AllRendered types [] = refl
  rows_json-AllRendered types (row ∷ rows) =
      (_, _, refl, at_index, rows_json-AllRendered types rows)
    where
      at_index : IsRendered types row (row_json d types 0 row)
      at_index k =
          row_json-rendered types 0 row k
          ∙ ap (λ m. Option.map (λ t. to_json_value f (row m) t) (get_elem? types k)) (omega arith)

  -- For a text that passes the tests, an answer to the query that `run_query` sends whose rows are
  -- all read gives the first of them up to the limit that applies, with the value of each column
  -- rendered by the type at the same index, and a flag that is set exactly when the answer held
  -- more rows than the limit.
  pub run_query-IsRendered :
      (args : RunQueryArgs) (s : Session World) (n : ℕ) (rows : Rows (ℕ → Value f))
      (read : List (ℕ → Value f))
      → is_query args.sql ≡ true
      → Applies args.limit n
      → (d.answer_query any_values
          (query (some read_caps) (bound args.sql (add_one (pos n))) [])
          s.world).0
        ≡ answer rows
      → read_rows rows.rows rows.failure ≡ ok read
      → (r : Result (Json f)) × (shown : List (List (Json f))) × ((run_query d args s).0 ≡ ok r)
        × AllRendered rows.column_types read shown
        × IsCut shown n r.rows r.truncation
        × (r.columns ≡ rows.columns)
        × (r.column_types ≡ rows.column_types)
  run_query-IsRendered args s n rows read passes applies answers reads =
      let (r, result, cut, cs, ts) =
        run_query-answer d args s n rows read passes (Applies-row_limit args.limit n applies)
          (ap (λ c. (d.answer_query any_values c s.world).0) (bounded_call-query args.sql (pos n))
            ∙ answers)
          reads in
      (r, _, result, rows_json-AllRendered rows.column_types read, cut, cs, ts)
