-- ===== src/Tools/Driver.antt =====
-- The driver's side of the tools, as a parameter; the calls that the tools make, and their errors.
-- From internal/clickhouse: the caps of settings.go and `ExecWritten` of exec.go.
pub mod ReadCaps
use clickhouse_mcp.Prelude.{
  ℕ, ◌+◌, ◌*◌, Bool, true, false, ◌%◌, ◌^◌, List, [], ◌∷◌, ◌++◌, Option, none, some, ℤ,
}
use clickhouse_mcp.Query.Serialize.{Foreign, Value}
use clickhouse_mcp.Text.{Text, codes}

-- `CappedContext`: the settings that go along with a query. The overflow mode is always "throw".
pub record Caps : Type 0 where
  pub max_result_rows : ℕ
  pub max_result_bytes : ℕ
  pub result_overflow_mode : Text
  pub max_execution_time : ℕ

unfoldable pub capped_context : ℕ → ℕ → ℕ → Caps
capped_context max_rows max_bytes max_exec_seconds = record {
  max_result_rows = max_rows;
  max_result_bytes = max_bytes;
  result_overflow_mode = codes "throw";
  max_execution_time = max_exec_seconds;
}

-- `DefaultReadContext`.
unfoldable pub default_read_context : Caps
unfolding capped_context
default_read_context = capped_context 100_000 (64 * 2 ^ 20) 30

-- An argument that the driver binds to a `?` of the text.
pub data Arg : Type 0 where
  arg_text : Text → Arg
  arg_int : ℤ → Arg

-- What is sent: a query, with no caps for a plain context, or a statement.
pub data Call : Type 0 where
  query : Option Caps → Text → List Arg → Call
  exec : Text → Call

-- The destinations that a loop hands to `Scan`.
pub data Scan : Type 0 where
  any_values table_row column_row one_text one_count : Scan

-- A row of system.tables; `total_rows` is null for engines that keep no count.
pub record TableRow : Type 0 where
  pub name : Text
  pub engine : Text
  pub total_rows : Option ℕ
  pub comment : Text

pub record ColumnRow : Type 0 where
  pub name : Text
  pub type : Text

-- What `Scan` leaves in its destinations; a row of any values is read by its index.
abbrev pub Scanned : Foreign → Scan → Type 0
Scanned f any_values = ℕ → Value f
Scanned f table_row = TableRow
Scanned f column_row = ColumnRow
Scanned f one_text = Text
Scanned f one_count = ℕ

-- The rows of an answer. At `none` a row's `Scan` fails; `failure` is what `rows.Err` says at last.
pub record Rows (R : Type 0) : Type 0 where
  pub columns : List Text
  pub column_types : List Text
  pub rows : List (Option R)
  pub failure : Option Text

pub data Answer (A : Type 0) : Type 0 where
  answer : A → Answer A
  refused : Text → Answer A

-- What becomes of a statement: its error, if any, and the rows that each progress callback reports,
-- which may have come before the error.
pub record Executed (W : Type 0) : Type 0 where
  pub failure : Option Text
  pub wrote_rows : List ℕ
  pub world : W

-- The driver with the server behind it. Any call may change the server.
pub record Driver (f : Foreign) : Type 1 where
  pub World : Type 0
  pub answer_query : (s : Scan) → Call → World → Answer (Rows (Scanned f s)) × World
  pub run_row : Call → World → Answer ℕ × World
  pub run_exec : Call → World → Executed World

-- The error messages of the tools.
pub data ToolError : Type 0 where
  empty_statement multiple_statements not_row_returning row_returning : ToolError
  unsupported_output database_required panicked : ToolError
  call_failed : Text → ToolError
  scan_failed : ToolError
  read_failed : Text → ToolError
  database_not_found : Text → ToolError
  table_not_found : Text → Text → ToolError

pub data Outcome {ℓ} (A : Type ℓ) : Type ℓ where
  ok : A → Outcome A
  err : ToolError → Outcome A

-- The server, and the calls that a tool has made so far, in order.
pub record Session (W : Type 0) : Type 0 where
  pub world : W
  pub log : List Call

abbrev pub Tool {ℓ} : Type 0 → Type ℓ → Type ℓ
Tool W A = Session W → Outcome A × Session W

unfoldable pub and_then {ℓ κ} :
    {W : Type 0} {A : Type ℓ} {B : Type κ}
    → (A → Tool W B)
    → Outcome A × Session W
    → Outcome B × Session W
and_then k (ok a, s) = k a s
and_then k (err e, s) = (err e, s)

infixl 5 ◌>>=◌ ◌>>◌
abbrev pub ◌>>=◌ {ℓ κ} :
    {W : Type 0} {A : Type ℓ} {B : Type κ} → Tool W A → (A → Tool W B) → Tool W B
◌>>=◌ m k s = and_then k (m s)

abbrev pub ◌>>◌ {ℓ} : {W : Type 0} {B : Type ℓ} → Tool W (Unit {0}) → Tool W B → Tool W B
m >> k = m >>= λ _. k

abbrev pub return {ℓ} : {W : Type 0} {A : Type ℓ} → A → Tool W A
return a s = (ok a, s)

abbrev pub fail {ℓ} : {W : Type 0} {A : Type ℓ} → ToolError → Tool W A
fail e s = (err e, s)

-- An early return with an error where the test holds.
abbrev pub reject_if : {W : Type 0} → Bool → ToolError → Tool W (Unit {0})
reject_if true e s = (err e, s)
reject_if false e s = (ok tt, s)

-- A value whose `none` is a panic.
abbrev pub or_panic {ℓ} : {W : Type 0} {A : Type ℓ} → Option A → Tool W A
or_panic none s = (err panicked, s)
or_panic (some a) s = (ok a, s)

unfoldable pub push : {R : Type 0} → R → Outcome (List R) → Outcome (List R)
push r (ok rs) = ok (r ∷ rs)
push r (err e) = err e

-- The rows in order, up to the first whose `Scan` fails; then what `rows.Err` says.
unfoldable pub read_rows : {R : Type 0} → List (Option R) → Option Text → Outcome (List R)
unfolding push
read_rows [] none = ok []
read_rows [] (some e) = err (read_failed e)
read_rows (none ∷ rows) failure = err scan_failed
read_rows (some r ∷ rows) failure = push r (read_rows rows failure)

unfoldable pub answered : {R W : Type 0} → Answer (Rows R) → Tool W (Rows R)
answered (answer rows) = return rows
answered (refused e) = fail (call_failed e)

unfoldable pub answered_row : {W : Type 0} → Answer ℕ → Tool W ℕ
answered_row (answer n) = return n
answered_row (refused e) = fail (call_failed e)

-- `atomic.Uint64.Add` for each callback.
unfoldable pub add_all : ℕ → List ℕ → ℕ
add_all wrote [] = wrote
add_all wrote (n ∷ ns) = add_all ((wrote + n) % 2 ^ 64) ns

-- `mcp.AddTool`'s arguments: the tool as clients see it, and its handler.
pub record Registered (W Args Out : Type 0) : Type 0 where
  pub name : Text
  pub description : Text
  pub handler : Args → Tool W Out

module _ {f : Foreign} (d : Driver f) where
  open d use {World, answer_query, run_row, run_exec}

  -- The call is written to the log before the driver answers.
  abbrev pub sent : Call → Session World → World → Session World
  sent call s w = record { world = w; log = s.log ++ call ∷ [] }

  -- `conn.Query`.
  unfoldable pub conn_query : (s : Scan) → Call → Tool World (Rows (Scanned f s))
  unfolding answered
  conn_query shape call s =
      let (a, w) = answer_query shape call s.world in answered a (sent call s w)

  -- `conn.QueryRow(…).Scan`, of one number.
  unfoldable pub conn_query_row : Call → Tool World ℕ
  unfolding answered_row
  conn_query_row call s = let (a, w) = run_row call s.world in answered_row a (sent call s w)

  unfoldable pub executed : Option Text → ℕ → Tool World ℕ
  executed none wrote = return wrote
  executed (some e) wrote = fail (call_failed e)

  -- `ExecWritten`: the rows written, or the error and no count.
  unfoldable pub exec_written : Text → Tool World ℕ
  unfolding add_all executed
  exec_written sql s =
      let r = run_exec (exec sql) s.world in
      executed r.failure (add_all 0 r.wrote_rows) (sent (exec sql) s r.world)
