-- ===== src/Tools/RunQuery/Bounded.antt =====
-- The result of `run_query`: the first rows of the answer up to the limit, and never a panic.
use clickhouse_mcp.Prelude.{
  ℕ, ◌<◌, true, false, List, [], ◌∷◌, map, Option, none, some, ◌≡◌, ◌≢◌, ◌⊎◌, inl, inr, refl, ap,
  ◌∙◌, arith, Bool-cases, ltb, ℤ, pos, negsuc, is_positive,
}
use clickhouse_mcp.Query.Output.{has_top_level_order_by}
use clickhouse_mcp.Query.Serialize.{Foreign, Value, Json}
use clickhouse_mcp.Query.Shape.{Result}
use clickhouse_mcp.Text.{Text}
use clickhouse_mcp.Tools.Driver.{
  Driver, Session, Rows, Outcome, ok, err, ToolError, panicked, Answer, answer, refused, any_values,
  sent, conn_query, read_rows, push, and_then,
}
use clickhouse_mcp.Tools.Limit.Agrees.{IsCut, shape-IsCut}
use clickhouse_mcp.Tools.Limit.{default_row_limit}
use clickhouse_mcp.Tools.RunQuery.Sent.{is_query}
use clickhouse_mcp.Tools.RunQuery.{
  RunQueryArgs, row_limit, bounded_call, row_json, scan_rows, shape_answer, exec_bounded, run_query,
}

push-ne-panicked :
    {R : Type 0} (r : R) (o : Outcome (List R)) → o ≢ err panicked → push r o ≢ err panicked
unfolding and_then push
push-ne-panicked r (ok rs) h e = cc
push-ne-panicked r (err x) h e = h e

read_rows-ne-panicked :
    {R : Type 0} (rows : List (Option R)) (failure : Option Text)
    → read_rows rows failure ≢ err panicked
unfolding and_then read_rows
read_rows-ne-panicked [] none e = cc
read_rows-ne-panicked [] (some x) e = cc
read_rows-ne-panicked (none ∷ rows) failure e = cc
read_rows-ne-panicked (some r ∷ rows) failure e =
    push-ne-panicked r _ (read_rows-ne-panicked rows failure) e

-- The limit that applies is positive: the caller's own, or 100.
pub row_limit-pos :
    (limit : ℤ)
    → (n : ℕ) × (row_limit limit ≡ pos n)
      × (0 < n)
      × ((limit ≡ pos n) ⊎ ((is_positive limit ≡ false) × (n ≡ default_row_limit)))
unfolding and_then row_limit
row_limit-pos (negsuc k) = (100, refl, omega arith, inr (refl, refl))
row_limit-pos (pos k) = elim (Bool-cases (ltb 0 k)) [
  | inl e ↦ (k, rw e, ground arith, inl refl)
  | inr e ↦ (100, rw e, omega arith, inr (e, refl))
]

module _ {f : Foreign} (d : Driver f) where
  open d use {World}

  run_query-exec_bounded :
      (args : RunQueryArgs) (s : Session World)
      → is_query args.sql ≡ true
      → run_query d args s ≡ exec_bounded d args.sql (row_limit args.limit) s
  unfolding and_then run_query
  run_query-exec_bounded args s h = ground arith

  shape_answer-ok :
      (rows : Rows (ℕ → Value f)) (sql : Text) (n : ℕ) (s : Session World)
      (read : List (ℕ → Value f))
      → read_rows rows.rows rows.failure ≡ ok read
      → (r : Result (Json f)) × (shape_answer d sql (pos n) rows s ≡ (ok r, s))
        × IsCut (map (row_json d rows.column_types 0) read) n r.rows r.truncation
        × (r.columns ≡ rows.columns)
        × (r.column_types ≡ rows.column_types)
  unfolding and_then shape_answer scan_rows
  shape_answer-ok rows sql n s read h =
      let (r, e, cut, cs, ts) =
        shape-IsCut rows.columns rows.column_types (map (row_json d rows.column_types 0) read) n
          (has_top_level_order_by sql) in
      (r, rw (h, e), cut, cs, ts)

  -- The session behind the one call.
  abbrev after_call : Text → ℤ → Session World → Session World
  after_call sql n s =
      sent d (bounded_call sql n) s (d.answer_query any_values (bounded_call sql n) s.world).1

  exec_bounded-answer :
      (sql : Text) (n : ℤ) (s : Session World) (rows : Rows (ℕ → Value f))
      → (d.answer_query any_values (bounded_call sql n) s.world).0 ≡ answer rows
      → exec_bounded d sql n s ≡ shape_answer d sql n rows (after_call sql n s)
  unfolding and_then exec_bounded conn_query
  exec_bounded-answer sql n s rows h = rw h

  -- For a text that passes the tests, an answer whose rows are all read gives the first of them up
  -- to the limit, each value rendered by its column's type, with a flag that is set exactly when
  -- the answer held more rows than the limit.
  pub run_query-answer :
      (args : RunQueryArgs) (s : Session World) (n : ℕ) (rows : Rows (ℕ → Value f))
      (read : List (ℕ → Value f))
      → is_query args.sql ≡ true
      → row_limit args.limit ≡ pos n
      → (d.answer_query any_values (bounded_call args.sql (pos n)) s.world).0 ≡ answer rows
      → read_rows rows.rows rows.failure ≡ ok read
      → (r : Result (Json f)) × ((run_query d args s).0 ≡ ok r)
        × IsCut (map (row_json d rows.column_types 0) read) n r.rows r.truncation
        × (r.columns ≡ rows.columns)
        × (r.column_types ≡ rows.column_types)
  run_query-answer args s n rows read passes limit answers reads =
      let (r, e, cut, cs, ts) =
        shape_answer-ok rows args.sql n (after_call args.sql (pos n) s) read reads in
      (
        r,
        ap (λ (p : Outcome (Result (Json f)) × Session World). p.0)
            (run_query-exec_bounded args s passes
              ∙ ap (λ m. exec_bounded d args.sql m s) limit
              ∙ exec_bounded-answer args.sql (pos n) s rows answers
              ∙ e),
        cut,
        cs,
        ts,
      )

  shape_answer-err :
      (rows : Rows (ℕ → Value f)) (sql : Text) (n : ℤ) (s : Session World) (x : ToolError)
      → read_rows rows.rows rows.failure ≡ err x
      → shape_answer d sql n rows s ≡ (err x, s)
  unfolding and_then shape_answer scan_rows
  shape_answer-err rows sql n s x h = rw h

  shape_answer-ne-panicked :
      (rows : Rows (ℕ → Value f)) (sql : Text) (n : ℕ) (s : Session World)
      → (shape_answer d sql (pos n) rows s).0 ≢ err panicked
  shape_answer-ne-panicked rows sql n s = by_read (read_rows rows.rows rows.failure) refl
    where
      by_read :
          (o : Outcome (List (ℕ → Value f)))
          → read_rows rows.rows rows.failure ≡ o
          → (shape_answer d sql (pos n) rows s).0 ≢ err panicked
      by_read (ok read) h = rw (shape_answer-ok rows sql n s read h).1 (λ e. cc)
      by_read (err x) h =
          rw (shape_answer-err rows sql (pos n) s x h) (λ e. read_rows-ne-panicked _ _ (h ∙ e' e))
        where
          e' :
              ◌≡◌ {A = Outcome (Result (Json f))} (err x) (err panicked)
              → ◌≡◌ {A = Outcome (List (ℕ → Value f))} (err x) (err panicked)
          e' e = cc

  exec_bounded-ne-panicked :
      (sql : Text) (n : ℕ) (s : Session World) → (exec_bounded d sql (pos n) s).0 ≢ err panicked
  exec_bounded-ne-panicked sql n s =
      by_answer (d.answer_query any_values (bounded_call sql (pos n)) s.world).0 refl
    where
      refuse :
          (x : Text)
          → (d.answer_query any_values (bounded_call sql (pos n)) s.world).0 ≡ refused x
          → (exec_bounded d sql (pos n) s).0 ≢ err panicked
      refuse x h = unfold exec_bounded conn_query and_then in rw h (λ e. cc)

      by_answer :
          (a : Answer (Rows (ℕ → Value f)))
          → (d.answer_query any_values (bounded_call sql (pos n)) s.world).0 ≡ a
          → (exec_bounded d sql (pos n) s).0 ≢ err panicked
      by_answer (refused x) h = refuse x h
      by_answer (answer rows) h =
          rw (exec_bounded-answer sql (pos n) s rows h) (shape_answer-ne-panicked rows sql n _)

  -- Whatever the arguments and the driver's answers are, `run_query` does not panic.
  pub run_query-ne-panicked :
      (args : RunQueryArgs) (s : Session World) → (run_query d args s).0 ≢ err panicked
  run_query-ne-panicked args s = elim (Bool-cases (is_query args.sql)) [
    | inr rejected ↦ unfold run_query and_then in ground arith
    | inl passes ↦
        let (n, limit, _, _) = row_limit-pos args.limit in
        rw (run_query-exec_bounded args s passes, limit) (exec_bounded-ne-panicked args.sql n s)
  ]
