-- ===== src/Tools/ListDatabases/Bounded.antt =====
-- What `list_databases` gives of the server's databases.
use clickhouse_mcp.Prelude.{
  ℕ, suc, ◌<◌, List, [], ◌∷◌, none, some, ◌≡◌, refl, map, arith, take, ltb, ℤ, pos, negsuc, add_one,
  max_int, Bool-cases, inl, inr,
}
use clickhouse_mcp.Query.Serialize.{Foreign}
use clickhouse_mcp.Text.{Text, codes}
use clickhouse_mcp.Tools.Driver.{
  Driver, Session, Call, Rows, ok, one_text, answer, or_panic, and_then, read_rows, push, query,
  arg_int, default_read_context, conn_query,
}
use clickhouse_mcp.Tools.Ensures.{
  on_ok, Runs, Runs-bind, Runs-return, Runs-still, Runs-conn_query, Runs-read_rows,
}
use clickhouse_mcp.Tools.Limit.Agrees.{IsCut, IsCut-sentinel, truncate-IsCut}
use clickhouse_mcp.Tools.Limit.{Kept, resolve_limit, truncate, default_database_limit}
use clickhouse_mcp.Tools.ListDatabases.{ListDatabasesOutput, databases_call, list_databases}
use clickhouse_mcp.Tools.ListTables.Parts.{NotPanic, call_failed-ne-panicked, read_error}
use clickhouse_mcp.Tools.RunQuery.{lift}

-- The limit that applies is positive: the caller's, or 200.
pub resolve_limit-pos :
    (limit : ℤ) → (n : ℕ) × (resolve_limit limit (pos default_database_limit) ≡ pos n) × (0 < n)
unfolding resolve_limit
resolve_limit-pos (negsuc k) = (default_database_limit, refl, omega arith)
resolve_limit-pos (pos k) = elim (Bool-cases (ltb 0 k)) [
  | inl e ↦ (k, rw e, ground arith)
  | inr e ↦ (default_database_limit, rw e, omega arith)
]

module _ {f : Foreign} (d : Driver f) where
  open d use {World}

  -- With any calls that have a property, the listing does not panic.
  pub list_databases-Runs :
      (Q : Call → Type 0) (limit : ℤ) (n : ℕ) (s : Session World)
      → resolve_limit limit (pos default_database_limit) ≡ pos n
      → 0 < n
      → Q (databases_call (pos n))
      → Runs Q NotPanic (λ _. Unit) s (list_databases d limit s)
  unfolding list_databases
  list_databases-Runs Q limit n s e h q = rw e (
      Runs-bind Q NotPanic (λ _. Unit) (λ _. Unit) s _ _
        (Runs-conn_query d Q NotPanic one_text _ s q call_failed-ne-panicked)
        (λ rows t _.
          Runs-bind Q NotPanic (λ _. Unit) (λ _. Unit) t _ _
            (Runs-read_rows d Q NotPanic rows.rows rows.failure t read_error)
            (λ names u _.
              Runs-bind Q NotPanic (λ _. Unit) (λ _. Unit) u _ _
                (by_truncate names u (truncate-IsCut names n (codes "databases") h))
                (λ kept v _. Runs-return Q NotPanic (λ _. Unit) v _ tt))))
    where
      by_truncate :
          (names : List Text) (u : Session World)
          → ((k : Kept Text) × (truncate names (pos n) (codes "databases") ≡ some k)
              × IsCut names n k.items k.truncation)
          → Runs Q NotPanic (λ _. Unit) u (or_panic (truncate names (pos n) (codes "databases")) u)
      by_truncate names u (k, t, c) = rw t (Runs-still Q NotPanic (λ _. Unit) u (ok k) (on_ok tt))

read_rows-map-some : {R : Type 0} (rs : List R) → read_rows (map some rs) none ≡ ok rs
unfolding read_rows push
read_rows-map-some [] = refl
read_rows-map-some (r ∷ rs) = rw (read_rows-map-some rs)

-- The rows of one answer, all of which can be read.
pub record Answers {R : Type 0} (rows : Rows R) (rs : List R) : Type 0 where
  pub rows_are : rows.rows ≡ map some rs
  pub no_failure : rows.failure ≡ none

-- A server that holds certain databases: it answers the listing's text, under any limit that goes
-- along, with the first of them up to that limit.
abbrev pub HoldsDatabases : {f : Foreign} → Driver f → List Text → Type 0
HoldsDatabases d all =
    (k : ℕ) (w : d.World)
    → (rows : Rows Text) × Answers rows (take k all)
      × ((d.answer_query one_text
            (query (some default_read_context)
              (codes "SELECT name FROM system.databases ORDER BY name LIMIT ?")
              (arg_int (pos k) ∷ []))
            w).0
          ≡ answer rows)

add_one-pos : (n : ℕ) → n < max_int → add_one (pos n) ≡ pos (suc n)
unfolding add_one
add_one-pos n h = ground arith

-- Of a server that holds certain databases, the listing gives the first names up to the limit that
-- applies, if that is less than the largest int, and its flag is set exactly when the server has
-- more.
pub list_databases-IsCut :
    {f : Foreign} (d : Driver f) (limit : ℤ) (n : ℕ) (all : List Text) (s : Session d.World)
    → resolve_limit limit (pos default_database_limit) ≡ pos n
    → 0 < n
    → n < max_int
    → HoldsDatabases d all
    → (out : ListDatabasesOutput) × ((list_databases d limit s).0 ≡ ok out)
      × IsCut all n out.databases out.truncation
unfolding list_databases conn_query and_then lift databases_call
list_databases-IsCut d limit n all s e h small holds =
    let (rows, r, a) = holds (suc n) s.world in
    let (k, t, c) = truncate-IsCut (take (suc n) all) n (codes "databases") h in
    let read : read_rows rows.rows rows.failure ≡ ok (take (suc n) all) =
      rw (r.rows_are, r.no_failure) (read_rows-map-some (take (suc n) all)) in
    (
      record { databases = k.items; truncation = k.truncation },
      rw (e, add_one-pos n small, a, read, t),
      IsCut-sentinel all n k.items k.truncation c,
    )
