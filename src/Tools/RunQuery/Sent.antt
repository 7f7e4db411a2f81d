-- ===== src/Tools/RunQuery/Sent.antt =====
-- What `run_query` and `run_statement` send to the driver.
use clickhouse_mcp.Prelude.{
  ℕ, Bool, false, ◌&&◌, not, List, [], ◌∷◌, ◌++◌, append-nil, ◌≡◌, ◌⊎◌, inl, inr, refl, arith,
  if◌then◌else◌, Bool-cases, All, ℤ, add_one, ap, ◌∙◌, map, Option, none, some,
}
use clickhouse_mcp.Query.Bound.Single.{bound-single}
use clickhouse_mcp.Query.Keyword.{is_blank, is_row_returning}
use clickhouse_mcp.Query.Output.{has_unsupported_output_clause, has_top_level_order_by}
use clickhouse_mcp.Query.Scanner.{contains_multiple_statements}
use clickhouse_mcp.Query.Serialize.{Foreign, Value, Json}
use clickhouse_mcp.Query.Shape.{Result, shape}
use clickhouse_mcp.Text.{Text}
use clickhouse_mcp.Tools.Driver.{
  Driver, Session, Rows, Outcome, ok, err, Call, query, exec, Answer, answer, refused, any_values,
  answered, sent, conn_query, exec_written, executed, read_rows, and_then, or_panic, return,
}
use clickhouse_mcp.Tools.RunQuery.{
  RunQueryArgs, row_limit, bounded_call, row_json, shape_answer, lift, scan_rows, exec_bounded,
  run_query,
}
use clickhouse_mcp.Tools.RunStatement.{RunStatementOutput, run_statement}

-- The tests that a text passes before `run_query` sends it.
abbrev pub is_query : Text → Bool
is_query sql =
    not (is_blank sql)
    && (not (contains_multiple_statements sql)
        && (is_row_returning sql && not (has_unsupported_output_clause sql)))

-- The tests that a text passes before `run_statement` sends it.
abbrev pub is_statement : Text → Bool
is_statement sql =
    not (is_blank sql) && (not (contains_multiple_statements sql) && not (is_row_returning sql))

-- The text that a call carries.
abbrev pub call_text : Call → Text
call_text (query caps sql args) = sql
call_text (exec sql) = sql

-- The calls that a tool makes, each carrying one statement.
abbrev pub AllSingle : List Call → Type 0
AllSingle calls = All (λ call. contains_multiple_statements (call_text call) ≡ false) calls

bounded_call-single :
    (sql : Text) (n : ℤ)
    → contains_multiple_statements sql ≡ false
    → AllSingle (bounded_call sql n ∷ [])
unfolding and_then bounded_call
bounded_call-single sql n h = (bound-single sql (add_one n) h, tt)

query_single :
    (args : RunQueryArgs)
    → AllSingle
        (if is_query args.sql then bounded_call args.sql (row_limit args.limit) ∷ [] else [])
query_single args = elim (Bool-cases (is_query args.sql)) [
  | inl e ↦ rw e (bounded_call-single args.sql (row_limit args.limit) (ground arith))
  | inr e ↦ rw e tt
]

statement_single : (sql : Text) → AllSingle (if is_statement sql then exec sql ∷ [] else [])
statement_single sql = elim (Bool-cases (is_statement sql)) [
  | inl e ↦ rw e (ground arith, tt)
  | inr e ↦ rw e tt
]

module _ {f : Foreign} (d : Driver f) where
  open d use {World}

  scan_rows-session : (rows : Rows (ℕ → Value f)) (s : Session World) → (scan_rows d rows s).1 ≡ s
  unfolding and_then scan_rows
  scan_rows-session rows s = by_read (read_rows rows.rows rows.failure)
    where
      by_read :
          (o : Outcome (List (ℕ → Value f)))
          → (and_then
              (λ fetched s'. (ok (map (row_json d rows.column_types 0) fetched), s'))
              (lift d o s)).1
            ≡ s
      by_read (ok rs) = refl
      by_read (err e) = refl

  -- What `execBounded` does with an answer sends nothing.
  shaped-session :
      (rows : Rows (ℕ → Value f)) (sql : Text) (n : ℤ) (s : Session World)
      → (shape_answer d sql n rows s).1 ≡ s
  unfolding and_then shape_answer
  shaped-session rows sql n s = by_scan (scan_rows d rows s) (scan_rows-session rows s)
    where
      by_shape : (o : Option (Result (Json f))) (t : Session World) → t ≡ s → (or_panic o t).1 ≡ s
      by_shape none t e = e
      by_shape (some r) t e = e

      by_scan :
          (p : Outcome (List (List (Json f))) × Session World)
          → p.1 ≡ s
          → (and_then
              (λ fetched.
                or_panic
                  (shape rows.columns rows.column_types fetched n (has_top_level_order_by sql)))
              p).1
            ≡ s
      by_scan (ok fetched, t) e = by_shape _ t e
      by_scan (err x, t) e = e

  exec_bounded-log :
      (sql : Text) (n : ℤ) (s : Session World)
      → (exec_bounded d sql n s).1.log ≡ s.log ++ bounded_call sql n ∷ []
  unfolding and_then exec_bounded conn_query
  exec_bounded-log sql n s = by_answer (d.answer_query any_values (bounded_call sql n) s.world).0
    where
      by_answer :
          (a : Answer (Rows (ℕ → Value f)))
          → (and_then (shape_answer d sql n) (
              answered a (
                sent d
                  (bounded_call sql n)
                  s
                  (d.answer_query any_values (bounded_call sql n) s.world).1))).1.log
            ≡ s.log ++ bounded_call sql n ∷ []
      by_answer (answer rows) = ap (λ (t : Session World). t.log) (shaped-session rows sql n _)
      by_answer (refused e) = refl

  -- `run_query` sends one call, and only for a text that passes the four tests: the text as
  -- `Bound` wraps it for one row more than the limit. It sends nothing for any other text.
  pub run_query-log :
      (args : RunQueryArgs) (s : Session World)
      → (run_query d args s).1.log
        ≡ s.log
          ++ (if is_query args.sql then bounded_call args.sql (row_limit args.limit) ∷ [] else [])
  unfolding and_then run_query
  run_query-log args s =
      ground (arith, exec_bounded-log args.sql (row_limit args.limit) s, append-nil s.log)

  exec_written-log :
      (sql : Text) (s : Session World) → (exec_written d sql s).1.log ≡ s.log ++ exec sql ∷ []
  unfolding and_then exec_written
  exec_written-log sql s = by_failure (d.run_exec (exec sql) s.world).failure _
    where
      by_failure :
          (o : Option Text) (n : ℕ)
          → (executed d o n (sent d (exec sql) s (d.run_exec (exec sql) s.world).world)).1.log
            ≡ s.log ++ exec sql ∷ []
      by_failure none n = refl
      by_failure (some e) n = refl

  written-log :
      (sql : Text) (s : Session World)
      → (and_then {B = RunStatementOutput}
          (λ wrote. return (record { rows_written = wrote }))
          (exec_written d sql s)).1.log
        ≡ s.log ++ exec sql ∷ []
  unfolding and_then
  written-log sql s = by_count (exec_written d sql s) (exec_written-log sql s)
    where
      by_count :
          (p : Outcome ℕ × Session World)
          → p.1.log ≡ s.log ++ exec sql ∷ []
          → (and_then {B = RunStatementOutput}
              (λ wrote. return (record { rows_written = wrote }))
              p).1.log
            ≡ s.log ++ exec sql ∷ []
      by_count (ok n, t) e = e
      by_count (err x, t) e = e

  -- `run_statement` sends the text itself, once, and only if it passes the three tests.
  pub run_statement-log :
      (sql : Text) (s : Session World)
      → (run_statement d sql s).1.log ≡ s.log ++ (if is_statement sql then exec sql ∷ [] else [])
  unfolding and_then run_statement
  run_statement-log sql s = ground (arith, written-log sql s, append-nil s.log)

  -- No text is sent by both tools: on one session, with any limit, at least one of them sends
  -- nothing at all.
  pub tools_disjoint :
      (args : RunQueryArgs) (s : Session World)
      → ((run_query d args s).1.log ≡ s.log) ⊎ ((run_statement d args.sql s).1.log ≡ s.log)
  tools_disjoint args s = elim (Bool-cases (is_row_returning args.sql)) [
    | inl reads ↦ inr (run_statement-log args.sql s ∙ ground (arith, append-nil s.log))
    | inr writes ↦ inl (run_query-log args s ∙ ground (arith, append-nil s.log))
  ]

  -- Whatever the two tools send is a single statement, the wrapped form of a query included: the
  -- calls that either adds to the log carry texts in which the scanner finds no second statement.
  pub tools_send_single :
      (args : RunQueryArgs) (s : Session World)
      → ((calls : List Call) × ((run_query d args s).1.log ≡ s.log ++ calls) × AllSingle calls)
        × ((calls : List Call) × ((run_statement d args.sql s).1.log ≡ s.log ++ calls)
            × AllSingle calls)
  tools_send_single args s = (
    (_, run_query-log args s, query_single args),
    (_, run_statement-log args.sql s, statement_single args.sql),
  )
