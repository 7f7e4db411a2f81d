-- ===== src/Tools/Ensures.antt =====
-- What is sure of a run of a tool: of the calls that it adds to the log, and of its outcome. With a
-- rule for each way in which the tools are put together.
use clickhouse_mcp.Prelude.{
  ℕ, Bool, true, false, List, [], ◌∷◌, ◌++◌, Option, none, some, ◌≡◌, ◌≢◌, refl, sym, ap, ◌∙◌,
  append_assoc, append-nil, All, All-append,
}
use clickhouse_mcp.Query.Serialize.{Foreign}
use clickhouse_mcp.Text.{Text}
use clickhouse_mcp.Tools.RunQuery.{lift}
use clickhouse_mcp.Tools.Driver.{
  Driver, Session, Call, Scan, Scanned, Rows, Answer, answer, refused, Outcome, ok, err, ToolError,
  Tool, and_then, return, reject_if, answered, answered_row, conn_query, conn_query_row, executed,
  exec_written, exec, sent, read_rows, push,
}

-- The property of the value where there is one, and that of the error where there is none.
pub data Holds {ℓ} {A : Type ℓ} (E : ToolError → Type 0) (P : A → Type 0) : Outcome A → Type ℓ where
  on_ok : {a : A} → P a → Holds E P (ok a)
  on_err : {e : ToolError} → E e → Holds E P (err e)

pub Holds-ok {ℓ} :
    {A : Type ℓ} (E : ToolError → Type 0) (P : A → Type 0) {a : A} → Holds E P (ok a) → P a
Holds-ok E P (on_ok h) = h

-- An outcome that is no such error.
pub Holds-of_ne {ℓ} :
    {A : Type ℓ} (x : ToolError) (o : Outcome A) → o ≢ err x → Holds (λ e. e ≢ x) (λ _. Unit) o
Holds-of_ne x (ok a) h = on_ok tt
Holds-of_ne x (err e) h = on_err (λ p. h (ap err p))

err_inj {ℓ} : {A : Type ℓ} {a b : ToolError} → ◌≡◌ {A = Outcome A} (err a) (err b) → a ≡ b
err_inj e = cc

pub ne-of_Holds {ℓ} :
    {A : Type ℓ} (x : ToolError) (P : A → Type 0) {o : Outcome A}
    → Holds (λ e. e ≢ x) P o
    → o ≢ err x
ne-of_Holds x P (on_ok h) e = cc
ne-of_Holds x P (on_err h) e = h (err_inj e)

-- A run that was begun at `s`: its calls have `Q`, and its outcome has `P` or `E`.
pub record Runs {ℓ} {W : Type 0} {A : Type ℓ} (Q : Call → Type 0) (E : ToolError → Type 0)
    (P : A → Type 0) (s : Session W) (r : Outcome A × Session W) : Type ℓ where
  pub calls : List Call
  pub log_is : r.1.log ≡ s.log ++ calls
  pub sends : All Q calls
  pub holds : Holds E P r.0

module _ {W : Type 0} (Q : Call → Type 0) (E : ToolError → Type 0) where
  -- Nothing is sent.
  pub Runs-still {ℓ} :
      {A : Type ℓ} (P : A → Type 0) (s : Session W) (o : Outcome A)
      → Holds E P o
      → Runs Q E P s (o, s)
  Runs-still P s o h = record { calls = []; log_is = sym (append-nil s.log); sends = tt; holds = h }

  -- One run behind another.
  Runs-trans {ℓ κ} :
      {A : Type ℓ} {B : Type κ} (P : A → Type 0) (R : B → Type 0) (s t : Session W) (o : Outcome A)
      (r : Outcome B × Session W)
      → Runs Q E P s (o, t)
      → Runs Q E R t r
      → Runs Q E R s r
  Runs-trans P R s t o r h k = record {
    calls = h.calls ++ k.calls;
    log_is = k.log_is ∙ ap (λ l. l ++ k.calls) h.log_is ∙ append_assoc s.log h.calls k.calls;
    sends = All-append Q h.calls k.calls h.sends k.sends;
    holds = k.holds;
  }

  Runs-err {ℓ κ} :
      {A : Type ℓ} {B : Type κ} (P : A → Type 0) (R : B → Type 0) (s t : Session W) (e : ToolError)
      → Runs Q E P s (err e, t)
      → Runs Q E R s (err e, t)
  Runs-err P R s t e h = record {
    calls = h.calls;
    log_is = h.log_is;
    sends = h.sends;
    holds = on_err (reason h.holds);
  }
    where
      reason : Holds E P (err e) → E e
      reason (on_err x) = x

  -- A step and what follows it.
  pub Runs-bind {ℓ κ} :
      {A : Type ℓ} {B : Type κ} (P : A → Type 0) (R : B → Type 0) (s : Session W) (k : A → Tool W B)
      (p : Outcome A × Session W)
      → Runs Q E P s p
      → ((a : A) (t : Session W) → P a → Runs Q E R t (k a t))
      → Runs Q E R s (and_then k p)
  unfolding and_then
  Runs-bind P R s k (ok a, t) h then_run =
      Runs-trans P R s t (ok a) (k a t) h (then_run a t (Holds-ok E P h.holds))
  Runs-bind P R s k (err e, t) h then_run = Runs-err P R s t e h

  pub Runs-return {ℓ} :
      {A : Type ℓ} (P : A → Type 0) (s : Session W) (a : A) → P a → Runs Q E P s (return a s)
  Runs-return P s a h = Runs-still P s (ok a) (on_ok h)

  -- An early return: what follows may rely on the test's failure.
  pub Runs-guard {κ} :
      {B : Type κ} (R : B → Type 0) (s : Session W) (b : Bool) (e : ToolError)
      (k : Unit {0} → Tool W B)
      → E e
      → (b ≡ false → Runs Q E R s (k tt s))
      → Runs Q E R s (and_then k (reject_if b e s))
  unfolding and_then
  Runs-guard R s true e k h then_run = Runs-still R s (err e) (on_err h)
  Runs-guard R s false e k h then_run = then_run refl

  -- An early return at the end.
  pub Runs-reject_if :
      (s : Session W) (b : Bool) (e : ToolError) → E e → Runs Q E (λ _. Unit) s (reject_if b e s)
  Runs-reject_if s true e h = Runs-still (λ _. Unit) s (err e) (on_err h)
  Runs-reject_if s false e h = Runs-still (λ _. Unit) s (ok tt) (on_ok tt)

module _ {f : Foreign} (d : Driver f) (Q : Call → Type 0) (E : ToolError → Type 0) where
  open d use {World}

  -- One call, with any answer.
  Runs-one {ℓ} :
      {A : Type ℓ} (P : A → Type 0) (s : Session World) (call : Call) (o : Outcome A) (w : World)
      → Q call
      → Holds E P o
      → Runs Q E P s (o, sent d call s w)
  Runs-one P s call o w q h = record {
    calls = call ∷ [];
    log_is = refl;
    sends = (q, tt);
    holds = h;
  }

  pub Runs-conn_query :
      (shape : Scan) (call : Call) (s : Session World)
      → Q call
      → ((x : Text) → E (ToolError.call_failed x))
      → Runs Q E (λ _. Unit) s (conn_query d shape call s)
  unfolding conn_query
  Runs-conn_query shape call s q e = by_answer (d.answer_query shape call s.world).0 _
    where
      by_answer :
          (a : Answer (Rows (Scanned f shape))) (w : World)
          → Runs Q E (λ _. Unit) s (answered a (sent d call s w))
      by_answer (answer rows) w = Runs-one (λ _. Unit) s call (ok rows) w q (on_ok tt)
      by_answer (refused x) w = Runs-one (λ _. Unit) s call (err _) w q (on_err (e x))

  pub Runs-conn_query_row :
      (call : Call) (s : Session World)
      → Q call
      → ((x : Text) → E (ToolError.call_failed x))
      → Runs Q E (λ _. Unit) s (conn_query_row d call s)
  unfolding conn_query_row
  Runs-conn_query_row call s q e = by_answer (d.run_row call s.world).0 _
    where
      by_answer :
          (a : Answer ℕ) (w : World) → Runs Q E (λ _. Unit) s (answered_row a (sent d call s w))
      by_answer (answer n) w = Runs-one (λ _. Unit) s call (ok n) w q (on_ok tt)
      by_answer (refused x) w = Runs-one (λ _. Unit) s call (err _) w q (on_err (e x))

  pub Runs-exec_written :
      (sql : Text) (s : Session World)
      → Q (exec sql)
      → ((x : Text) → E (ToolError.call_failed x))
      → Runs Q E (λ _. Unit) s (exec_written d sql s)
  unfolding exec_written
  Runs-exec_written sql s q e = by_failure (d.run_exec (exec sql) s.world).failure _ _
    where
      by_failure :
          (o : Option Text) (n : ℕ) (w : World)
          → Runs Q E (λ _. Unit) s (executed d o n (sent d (exec sql) s w))
      by_failure none n w = Runs-one (λ _. Unit) s (exec sql) (ok n) w q (on_ok tt)
      by_failure (some x) n w = Runs-one (λ _. Unit) s (exec sql) (err _) w q (on_err (e x))

-- What reading the rows may fail with.
abbrev pub ReadError : (ToolError → Type 0) → Type 0
ReadError E = E ToolError.scan_failed × ((x : Text) → E (ToolError.read_failed x))

push-Holds :
    {R : Type 0} (E : ToolError → Type 0) (r : R) {o : Outcome (List R)}
    → Holds E (λ _. Unit) o
    → Holds E (λ _. Unit) (push r o)
unfolding push
push-Holds E r (on_ok x) = on_ok tt
push-Holds E r (on_err x) = on_err x

pub read_rows-Holds :
    {R : Type 0} (E : ToolError → Type 0) (rows : List (Option R)) (failure : Option Text)
    → ReadError E
    → Holds E (λ _. Unit) (read_rows rows failure)
unfolding read_rows
read_rows-Holds E [] none e = on_ok tt
read_rows-Holds E [] (some x) e = on_err (e.1 x)
read_rows-Holds E (none ∷ rows) failure e = on_err e.0
read_rows-Holds E (some r ∷ rows) failure e = push-Holds E r (read_rows-Holds E rows failure e)

module _ {f : Foreign} (d : Driver f) (Q : Call → Type 0) (E : ToolError → Type 0) where
  open d use {World}

  -- An outcome that is computed, and no call.
  pub Runs-lift {ℓ} :
      {A : Type ℓ} (P : A → Type 0) (o : Outcome A) (s : Session World)
      → Holds E P o
      → Runs Q E P s (lift d o s)
  unfolding lift
  Runs-lift P (ok a) s h = Runs-still Q E P s (ok a) h
  Runs-lift P (err e) s h = Runs-still Q E P s (err e) h

  -- The rows of an answer.
  pub Runs-read_rows :
      {R : Type 0} (rows : List (Option R)) (failure : Option Text) (s : Session World)
      → ReadError E
      → Runs Q E (λ _. Unit) s (lift d (read_rows rows failure) s)
  Runs-read_rows rows failure s e =
      Runs-lift (λ _. Unit) (read_rows rows failure) s (read_rows-Holds E rows failure e)
