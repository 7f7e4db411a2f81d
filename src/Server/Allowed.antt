-- ===== src/Server/Allowed.antt =====
-- What the server sends to ClickHouse on any sequence of requests.
use mathlib.Core.List.{Memᴰ}
use clickhouse_mcp.Prelude.{
  ℕ, ◌⊎◌, Bool, true, false, List, [], ◌∷◌, ◌++◌, none, some, ◌≡◌, ◌≢◌, refl, sym, ap, ◌∙◌, All,
  All-append, append_assoc, append-nil, ℤ, pos, add_one, Bool-cases, inl, inr, if◌then◌else◌,
  is_positive,
}
use clickhouse_mcp.Query.Keyword.{is_blank, is_row_returning}
use clickhouse_mcp.Query.Scanner.{contains_multiple_statements}
use clickhouse_mcp.Query.Serialize.{Foreign}
use clickhouse_mcp.Server.{
  Request, to_ping, to_list_databases, to_list_tables, to_run_query, to_run_statement, Reply, pong,
  databases, tables, rows, written, handle, serve,
}
use clickhouse_mcp.Text.{Text, codes}
use clickhouse_mcp.Tools.Driver.{
  Driver, Session, Call, query, exec, Outcome, ok, err, panicked, default_read_context, Arg,
  and_then,
}
use clickhouse_mcp.Tools.Ensures.{
  Holds, Holds-of_ne, ne-of_Holds, Runs-exec_written, on_ok, on_err, Runs, Runs-bind, Runs-guard,
  Runs-return, Runs-conn_query_row,
}
use clickhouse_mcp.Tools.ListDatabases.Bounded.{resolve_limit-pos, list_databases-Runs}
use clickhouse_mcp.Tools.ListDatabases.{databases_call, list_databases}
use clickhouse_mcp.Tools.ListTables.Bounded.{SendsOnly, list_tables-Runs}
use clickhouse_mcp.Tools.ListTables.Parts.{
  NotPanic, resolve_table_limit-pos, call_failed-ne-panicked,
}
use clickhouse_mcp.Tools.ListTables.{
  tables_call, tables_sql, columns_call, database_call, is_empty, ListTablesArgs, list_tables,
}
use clickhouse_mcp.Tools.Ping.{ping}
use clickhouse_mcp.Tools.RunQuery.Bounded.{run_query-ne-panicked}
use clickhouse_mcp.Tools.RunQuery.Sent.{is_query, is_statement, run_query-log}
use clickhouse_mcp.Tools.RunQuery.Wrapped.{IsBounded, bound-IsBounded}
use clickhouse_mcp.Tools.RunQuery.{RunQueryArgs, row_limit, bounded_call, run_query}
use clickhouse_mcp.Tools.RunStatement.{run_statement}

-- The texts of the listings. What a caller gives goes along as arguments, never in the text.
abbrev pub catalog_texts : List Text
catalog_texts =
    codes "SELECT name FROM system.databases ORDER BY name LIMIT ?"
    ∷ codes "SELECT count() FROM system.databases WHERE name = ?"
    ∷ codes
        "SELECT name, type FROM system.columns WHERE database = ? AND table = ? ORDER BY position LIMIT ?"
    ∷ codes
        "SELECT name, engine, total_rows, comment FROM system.tables WHERE database = ? ORDER BY name"
    ∷ codes
        "SELECT name, engine, total_rows, comment FROM system.tables WHERE database = ? ORDER BY name LIMIT ?"
    ∷ codes
        "SELECT name, engine, total_rows, comment FROM system.tables WHERE database = ? AND name = ? ORDER BY name"
    ∷ codes
        "SELECT name, engine, total_rows, comment FROM system.tables WHERE database = ? AND name = ? ORDER BY name LIMIT ?"
    ∷ []

-- The calls that the server may make: the probe, a listing, a text that passes the tests of
-- `run_query`, as it is or wrapped with a limit, or a text that passes those of `run_statement`.
pub data IsAllowed : Call → Type 0 where
  probe : IsAllowed (query none (codes "SELECT 1") [])
  listing :
      {sql : Text} {args : List Arg}
      → Memᴰ sql catalog_texts
      → IsAllowed (query (some default_read_context) sql args)
  reading :
      {sent : Text} (q : Text) (n : ℤ)
      → is_query q ≡ true
      → IsBounded q n sent
      → IsAllowed (query (some default_read_context) sent [])
  writing : {sql : Text} → is_statement sql ≡ true → IsAllowed (exec sql)

bounded_call-IsAllowed : (q : Text) (n : ℤ) → is_query q ≡ true → IsAllowed (bounded_call q n)
unfolding bounded_call
bounded_call-IsAllowed q n h = reading q (add_one n) h (bound-IsBounded q (add_one n))

tables_sql-catalog : (table : Text) (fetch : ℤ) → Memᴰ (tables_sql table fetch) catalog_texts
unfolding tables_sql
tables_sql-catalog table fetch = by_tests (is_empty table) (is_positive fetch)
  where
    by_tests :
        (e p : Bool)
        → Memᴰ
            (codes "SELECT name, engine, total_rows, comment FROM system.tables WHERE database = ?"
              ++ ((if e then [] else codes " AND name = ?")
                  ++ (codes " ORDER BY name" ++ (if p then codes " LIMIT ?" else []))))
            catalog_texts
    by_tests true false = Memᴰ.tail (Memᴰ.tail (Memᴰ.tail (Memᴰ.head refl)))
    by_tests true true = Memᴰ.tail (Memᴰ.tail (Memᴰ.tail (Memᴰ.tail (Memᴰ.head refl))))
    by_tests false false =
        Memᴰ.tail (Memᴰ.tail (Memᴰ.tail (Memᴰ.tail (Memᴰ.tail (Memᴰ.head refl)))))
    by_tests false true =
        Memᴰ.tail (Memᴰ.tail (Memᴰ.tail (Memᴰ.tail (Memᴰ.tail (Memᴰ.tail (Memᴰ.head refl))))))

tables_call-IsAllowed :
    (database table : Text) (fetch : ℤ) → IsAllowed (tables_call database table fetch)
unfolding tables_call
tables_call-IsAllowed database table fetch = listing (tables_sql-catalog table fetch)

listing_calls :
    (args : ListTablesArgs) (n : ℕ) {f : Foreign} (d : Driver f) → SendsOnly d IsAllowed args n
unfolding database_call columns_call
listing_calls args n d = record {
  tables = tables_call-IsAllowed args.database args.table _;
  database = listing (Memᴰ.tail (Memᴰ.head refl));
  columns = λ name. listing (Memᴰ.tail (Memᴰ.tail (Memᴰ.head refl)));
}

databases_call-IsAllowed : (n : ℤ) → IsAllowed (databases_call n)
unfolding databases_call
databases_call-IsAllowed n = listing (Memᴰ.head refl)

module _ {f : Foreign} (d : Driver f) where
  open d use {World}

  -- A run in which every call is allowed and nothing panics.
  abbrev Serves {ℓ} : {A : Type ℓ} → Session World → Outcome A × Session World → Type ℓ
  Serves s r = Runs IsAllowed NotPanic (λ _. Unit) s r

  ping-Serves : (s : Session World) → Serves s (ping d s)
  unfolding ping
  ping-Serves s =
      Runs-bind IsAllowed NotPanic (λ _. Unit) (λ _. Unit) s _ _
        (Runs-conn_query_row d IsAllowed NotPanic _ s probe call_failed-ne-panicked)
        (λ n t _. Runs-return IsAllowed NotPanic (λ _. Unit) t _ tt)

  list_databases-Serves : (limit : ℤ) (s : Session World) → Serves s (list_databases d limit s)
  list_databases-Serves limit s =
      let (n, e, h) = resolve_limit-pos limit in
      list_databases-Runs d IsAllowed limit n s e h (databases_call-IsAllowed (pos n))

  list_tables-Serves : (args : ListTablesArgs) (s : Session World) → Serves s (list_tables d args s)
  list_tables-Serves args s =
      let (n, e, h) = resolve_table_limit-pos args.limit args.columns in
      forget (list_tables-Runs d IsAllowed args n s e h (listing_calls args n d))
    where
      weaken :
          {A : Type 0} {P : A → Type 0} {o : Outcome A}
          → Holds NotPanic P o
          → Holds NotPanic (λ _. Unit) o
      weaken (on_ok x) = on_ok tt
      weaken (on_err x) = on_err x

      forget :
          {A : Type 0} {P : A → Type 0} {r : Outcome A × Session World}
          → Runs IsAllowed NotPanic P s r
          → Serves s r
      forget h = record {
        calls = h.calls;
        log_is = h.log_is;
        sends = h.sends;
        holds = weaken h.holds;
      }

  run_query-Serves : (args : RunQueryArgs) (s : Session World) → Serves s (run_query d args s)
  run_query-Serves args s = record {
    calls = _;
    log_is = run_query-log d args s;
    sends = by_test (Bool-cases (is_query args.sql));
    holds = Holds-of_ne panicked _ (run_query-ne-panicked d args s);
  }
    where
      by_test :
          ((is_query args.sql ≡ true) ⊎ (is_query args.sql ≡ false))
          → All IsAllowed
              (if is_query args.sql then bounded_call args.sql (row_limit args.limit) ∷ [] else [])
      by_test (inl e) = rw e (bounded_call-IsAllowed args.sql _ e, tt)
      by_test (inr e) = rw e tt

  run_statement-Serves : (sql : Text) (s : Session World) → Serves s (run_statement d sql s)
  unfolding run_statement
  run_statement-Serves sql s =
      Runs-guard IsAllowed NotPanic (λ _. Unit) s (is_blank sql) _ _ (λ e. cc)
        (λ given.
          Runs-guard IsAllowed NotPanic (λ _. Unit) s (contains_multiple_statements sql) _ _
            (λ e. cc)
            (λ single.
              Runs-guard IsAllowed NotPanic (λ _. Unit) s (is_row_returning sql) _ _ (λ e. cc)
                (λ writes.
                  Runs-bind IsAllowed NotPanic (λ _. Unit) (λ _. Unit) s _ _
                    (Runs-exec_written d IsAllowed NotPanic sql s
                      (writing (rw (given, single, writes) refl)) call_failed-ne-panicked)
                    (λ wrote t _. Runs-return IsAllowed NotPanic (λ _. Unit) t _ tt))))

  -- A tool's answer, wrapped.
  wrap-Serves {ℓ} :
      {A : Type ℓ} (s : Session World) (k : A → Reply f) (p : Outcome A × Session World)
      → Serves s p
      → Serves s (and_then (λ a t. (ok (k a), t)) p)
  wrap-Serves s k p h =
      Runs-bind IsAllowed NotPanic (λ _. Unit) (λ _. Unit) s _ p h
        (λ a t _. Runs-return IsAllowed NotPanic (λ _. Unit) t (k a) tt)

  handle-Serves : (r : Request) (s : Session World) → Serves s (handle d r s)
  unfolding handle
  handle-Serves to_ping s = wrap-Serves s pong _ (ping-Serves s)
  handle-Serves (to_list_databases limit) s =
      wrap-Serves s databases _ (list_databases-Serves limit s)
  handle-Serves (to_list_tables args) s = wrap-Serves s tables _ (list_tables-Serves args s)
  handle-Serves (to_run_query args) s = wrap-Serves s rows _ (run_query-Serves args s)
  handle-Serves (to_run_statement sql) s = wrap-Serves s written _ (run_statement-Serves sql s)

  -- On any sequence of requests no handler panics, and each call that is made is one of these: the
  -- probe `SELECT 1`; a listing whose text is one of seven, under the default caps; a text that
  -- passes the tests of `run_query`, wrapped as a subquery with a limit if it is a SELECT or WITH,
  -- and else as it is; or a text that passes those of `run_statement`.
  pub serve-IsAllowed :
      (rs : List Request) (s : Session World)
      → ((calls : List Call) × ((serve d rs s).1.log ≡ s.log ++ calls) × All IsAllowed calls)
        × All (λ o. o ≢ err panicked) (serve d rs s).0
  unfolding serve
  serve-IsAllowed [] s = (([], sym (append-nil s.log), tt), tt)
  serve-IsAllowed (r ∷ rs) s =
      let first = handle-Serves r s in
      let ((calls, log, allowed), calm) = serve-IsAllowed rs (handle d r s).1 in
      (
        (
          first.calls ++ calls,
          log ∙ ap (λ l. l ++ calls) first.log_is ∙ append_assoc s.log first.calls calls,
          All-append IsAllowed first.calls calls first.sends allowed,
        ),
        (ne-of_Holds panicked (λ _. Unit) first.holds, calm),
      )
