-- ===== src/Tools/RunStatement/Written.antt =====
-- internal/tools/run_statement.go with internal/clickhouse/exec.go: the number of rows that is
-- reported, and the error that is.
use mathlib.Core.List.{Permᴰ}
use clickhouse_mcp.Prelude.{
  ℕ, ◌+◌, ◌%◌, ◌^◌, ◌<◌, Bool, true, false, List, [], ◌∷◌, Option, none, some, ◌≡◌, refl, ap, ◌∙◌,
  arith, ◌&&◌, not,
}
use clickhouse_mcp.Query.Keyword.{is_blank, is_row_returning}
use clickhouse_mcp.Query.Scanner.{contains_multiple_statements}
use clickhouse_mcp.Query.Serialize.{Foreign}
use clickhouse_mcp.Text.{Text}
use clickhouse_mcp.Tools.Driver.{
  Driver, Session, Executed, Outcome, ok, err, call_failed, exec, add_all, executed, exec_written,
  and_then, return,
}
use clickhouse_mcp.Tools.RunQuery.Sent.{is_statement}
use clickhouse_mcp.Tools.RunStatement.{RunStatementOutput, run_statement}

-- The sum of the counts.
unfoldable pub total : List ℕ → ℕ
total [] = 0
total (n ∷ ns) = n + total ns

total_perm : {a b : List ℕ} → Permᴰ a b → total a ≡ total b
unfolding total
total_perm Permᴰ.nil = refl
total_perm (Permᴰ.cons x p) = let same = total_perm p in omega arith
total_perm (Permᴰ.swap x y) = omega arith
total_perm (Permᴰ.trans p q) = total_perm p ∙ total_perm q

add_all-total :
    (ns : List ℕ) (wrote : ℕ) → wrote < 2 ^ 64 → add_all wrote ns ≡ (wrote + total ns) % 2 ^ 64
unfolding add_all total
add_all-total [] wrote h = omega arith
add_all-total (n ∷ ns) wrote h = add_all-total ns ((wrote + n) % 2 ^ 64) (omega arith) ∙ omega arith

-- What a statement is answered with: the sum of all counts that the callbacks reported, in whatever
-- order they came, where there is no error, and the error alone where there is one.
pub data Reports {W : Type 0} (r : Executed W) (o : Outcome RunStatementOutput) : Type 0 where
  wrote :
      r.failure ≡ none
      → ((counts : List ℕ)
          → Permᴰ counts r.wrote_rows
          → o ≡ ok (record { rows_written = total counts % 2 ^ 64 }))
      → Reports r o
  failed : (e : Text) → r.failure ≡ some e → o ≡ err (call_failed e) → Reports r o

module _ {f : Foreign} (d : Driver f) where
  open d use {World}

  abbrev report : ℕ → Session World → Outcome RunStatementOutput × Session World
  report n = return (record { rows_written = n })

  executed-Reports :
      (r : Executed World) (o : Option Text) (s : Session World)
      → r.failure ≡ o
      → Reports r (and_then report (executed d o (add_all 0 r.wrote_rows) s)).0
  unfolding executed and_then
  executed-Reports r none s e = wrote e (λ counts p.
      ap (λ n. ok (record { rows_written = n }))
        (counted (add_all 0 r.wrote_rows) _ _ (add_all-total r.wrote_rows 0 (omega arith))
          (total_perm p)))
    where
      counted : (n a b : ℕ) → n ≡ (0 + a) % 2 ^ 64 → b ≡ a → n ≡ b % 2 ^ 64
      counted n a b h k = omega arith
  executed-Reports r (some x) s e = failed x e refl

  -- For a text that passes its three tests, run_statement reports the number of rows that all
  -- progress callbacks have counted together, in whatever order they came, as a 64-bit word; and
  -- where the driver gives an error, that error with no count, whatever was counted before it.
  pub run_statement-Reports :
      (sql : Text) (s : Session World)
      → is_statement sql ≡ true
      → Reports (d.run_exec (exec sql) s.world) (run_statement d sql s).0
  unfolding run_statement and_then exec_written
  run_statement-Reports sql s h =
      let (full, single, writes) =
        parts (is_blank sql) (contains_multiple_statements sql) (is_row_returning sql) h in
      rw (full, single, writes) (executed-Reports (d.run_exec (exec sql) s.world) _ _ refl)
    where
      parts :
          (a b c : Bool)
          → not a && (not b && not c) ≡ true
          → (a ≡ false) × (b ≡ false) × (c ≡ false)
      parts false false false h = (refl, refl, refl)
      parts true b c h = cc
      parts false true c h = cc
      parts false false true h = cc
