-- ===== src/Tools/ListTables/Parts.antt =====
-- What each step of `list_tables` is sure of, with any calls that have a property.
use clickhouse_mcp.Prelude.{
  ℕ, zero, suc, ◌≤◌, ◌<◌, Bool, true, false, not, List, [], ◌∷◌, map, some, ◌≡◌, ◌≢◌, ◌⊎◌, inl, inr,
  refl, sym, ap, subst, ◌∙◌, arith, ltb, if◌then◌else◌, length, take, length-take, ℤ, pos, negsuc,
  All, Bool-cases,
}
use clickhouse_mcp.Query.Serialize.{Foreign}
use clickhouse_mcp.Text.{Text, codes}
use clickhouse_mcp.Tools.Driver.{
  Driver, Session, Call, Outcome, ok, ToolError, panicked, TableRow, ColumnRow, table_row,
  column_row, or_panic, return,
}
use clickhouse_mcp.Tools.Ensures.{
  on_ok, Runs, Runs-bind, Runs-guard, Runs-return, Runs-reject_if, Runs-read_rows, Runs-still,
  Runs-conn_query, Runs-conn_query_row, ReadError,
}
use clickhouse_mcp.Tools.Limit.Agrees.{IsCut, truncate-IsCut}
use clickhouse_mcp.Tools.Limit.{
  Kept, kept_all, resolve_table_limit, truncate, default_folded_table_limit, default_table_limit,
  max_columns_per_table,
}
use clickhouse_mcp.Tools.ListTables.{
  ListTablesArgs, TableInfo, is_empty, tables_call, columns_call, database_call, table_info,
  with_columns, lean_tables, database_exists, table_columns, all_columns, explain_empty, cut_tables,
}

-- At most 200 columns.
abbrev pub HasFewColumns : TableInfo → Type 0
HasFewColumns t = length t.columns ≤ 200

abbrev pub NotPanic : ToolError → Type 0
NotPanic e = e ≢ panicked

-- The limit that applies: the caller's, or 20 with columns and 200 without.
pub resolve_table_limit-pos :
    (limit : ℤ) (folded : Bool) → (n : ℕ) × (resolve_table_limit limit folded ≡ pos n) × (0 < n)
unfolding resolve_table_limit
resolve_table_limit-pos (negsuc k) true = (default_folded_table_limit, refl, omega arith)
resolve_table_limit-pos (negsuc k) false = (default_table_limit, refl, omega arith)
resolve_table_limit-pos (pos k) folded = elim (Bool-cases (ltb 0 k)) [
  | inl e ↦ (k, rw e, ground arith)
  | inr e ↦ by_default folded e
]
  where
    by_default :
        (b : Bool)
        → ltb 0 k ≡ false
        → (n : ℕ) × ((if ltb 0 k
              then pos k
              else if b
              then pos default_folded_table_limit
              else pos default_table_limit)
            ≡ pos n)
          × (0 < n)
    by_default true e = (default_folded_table_limit, rw e, omega arith)
    by_default false e = (default_table_limit, rw e, omega arith)

All-map-table_info : (rows : List TableRow) → All HasFewColumns (map table_info rows)
unfolding table_info
All-map-table_info [] = tt
All-map-table_info (r ∷ rows) = (omega arith, All-map-table_info rows)

All-take : (n : ℕ) (ts : List TableInfo) → All HasFewColumns ts → All HasFewColumns (take n ts)
All-take zero ts h = tt
All-take (suc n) [] h = tt
All-take (suc n) (t ∷ ts) h = (h.0, All-take n ts h.1)

length-take_le {ℓ} : {A : Type ℓ} (n : ℕ) (xs : List A) → length (take n xs) ≤ n
length-take_le n xs = omega (arith, length-take n xs)

leb_of_ltb : (a b : ℕ) → ltb a b ≡ false → b ≤ a
leb_of_ltb a b h = ground arith

with_columns-HasFewColumns :
    (t : TableInfo) (cols : List ColumnRow) → HasFewColumns (with_columns t cols)
unfolding with_columns
with_columns-HasFewColumns t cols = elim (Bool-cases (ltb max_columns_per_table (length cols))) [
  | inl more ↦ rw more (length-take_le max_columns_per_table cols)
  | inr fits ↦ rw fits (leb_of_ltb max_columns_per_table (length cols) fits)
]

-- The errors of a listing are the driver's and the code's own, and no panic.
pub call_failed-ne-panicked : (x : Text) → NotPanic (ToolError.call_failed x)
call_failed-ne-panicked x e = cc

pub read_error : ReadError NotPanic
read_error = (λ e. cc, λ x e. cc)

module _ {f : Foreign} (d : Driver f) (Q : Call → Type 0) where
  open d use {World}

  -- What a part of the tool is sure of, with any calls that have `Q`.
  abbrev pub Gives {ℓ} :
      {A : Type ℓ} → (A → Type 0) → Session World → Outcome A × Session World → Type ℓ
  Gives P s r = Runs Q NotPanic P s r

  pub lean_tables-Runs :
      (database table : Text) (fetch : ℤ) (s : Session World)
      → Q (tables_call database table fetch)
      → Gives (All HasFewColumns) s (lean_tables d database table fetch s)
  unfolding lean_tables
  lean_tables-Runs database table fetch s q =
      Runs-bind Q NotPanic (λ _. Unit) (All HasFewColumns) s _ _
        (Runs-conn_query d Q NotPanic table_row _ s q call_failed-ne-panicked)
        (λ rows t _.
          Runs-bind Q NotPanic (λ _. Unit) (All HasFewColumns) t _ _
            (Runs-read_rows d Q NotPanic rows.rows rows.failure t read_error)
            (λ read u _. Runs-return Q NotPanic (All HasFewColumns) u _ (All-map-table_info read)))

  database_exists-Runs :
      (database : Text) (s : Session World)
      → Q (database_call database)
      → Gives (λ _. Unit) s (database_exists d database s)
  unfolding database_exists
  database_exists-Runs database s q =
      Runs-bind Q NotPanic (λ _. Unit) (λ _. Unit) s _ _
        (Runs-conn_query_row d Q NotPanic _ s q call_failed-ne-panicked)
        (λ n t _. Runs-return Q NotPanic (λ _. Unit) t _ tt)

  table_columns-Runs :
      (database : Text) (t : TableInfo) (s : Session World)
      → Q (columns_call database t.name)
      → Gives HasFewColumns s (table_columns d database t s)
  unfolding table_columns
  table_columns-Runs database t s q =
      Runs-bind Q NotPanic (λ _. Unit) HasFewColumns s _ _
        (Runs-conn_query d Q NotPanic column_row _ s q call_failed-ne-panicked)
        (λ rows u _.
          Runs-bind Q NotPanic (λ _. Unit) HasFewColumns u _ _
            (Runs-read_rows d Q NotPanic rows.rows rows.failure u read_error)
            (λ cols v _.
              Runs-return Q NotPanic HasFewColumns v _ (with_columns-HasFewColumns t cols)))

  -- As many tables, with at most 200 columns each.
  abbrev pub IsFolded : ℕ → List TableInfo → Type 0
  IsFolded n ts = All HasFewColumns ts × (length ts ≡ n)

  all_columns-Runs :
      (database : Text) (ts : List TableInfo) (s : Session World)
      → ((name : Text) → Q (columns_call database name))
      → Gives (IsFolded (length ts)) s (all_columns d database ts s)
  unfolding all_columns
  all_columns-Runs database [] s q = Runs-return Q NotPanic (IsFolded 0) s [] (tt, refl)
  all_columns-Runs database (t ∷ ts) s q =
      Runs-bind Q NotPanic HasFewColumns (IsFolded (suc (length ts))) s _ _
        (table_columns-Runs database t s (q t.name))
        (λ t' u few.
          Runs-bind Q NotPanic (IsFolded (length ts)) (IsFolded (suc (length ts))) u _ _
            (all_columns-Runs database ts u q)
            (λ ts' v h.
              Runs-return Q NotPanic (IsFolded (suc (length ts))) v (t' ∷ ts')
                ((few, h.0), ap suc h.1)))

  pub fold-Runs :
      (b : Bool) (database : Text) (ts : List TableInfo) (s : Session World)
      → All HasFewColumns ts
      → ((name : Text) → Q (columns_call database name))
      → Gives (IsFolded (length ts)) s ((if b then all_columns d database ts else return ts) s)
  fold-Runs true database ts s few q = all_columns-Runs database ts s q
  fold-Runs false database ts s few q =
      Runs-return Q NotPanic (IsFolded (length ts)) s ts (few, refl)

  pub explain_empty-Runs :
      (args : ListTablesArgs) (ts : List TableInfo) (s : Session World)
      → Q (database_call args.database)
      → Gives (λ _. Unit) s (explain_empty d args ts s)
  unfolding explain_empty
  explain_empty-Runs args (t ∷ ts) s q = Runs-return Q NotPanic (λ _. Unit) s tt tt
  explain_empty-Runs args [] s q =
      Runs-bind Q NotPanic (λ _. Unit) (λ _. Unit) s _ _ (database_exists-Runs args.database s q)
        (λ exists t _.
          Runs-guard Q NotPanic (λ _. Unit) t (not exists) _ _ (λ e. cc)
            (λ _. Runs-reject_if Q NotPanic t (not (is_empty args.table)) _ (λ e. cc)))

  -- What `cut_tables` keeps, under a limit.
  abbrev pub IsKept : ListTablesArgs → ℕ → Kept TableInfo → Type 0
  IsKept args n k =
      All HasFewColumns k.items
      × ((is_empty args.table ≡ false) ⊎ (length k.items ≤ n))
      × (k.truncation.count ≡ length k.items)
      × (k.truncation.limit ≡ pos n)

  pub cut_tables-Runs :
      (args : ListTablesArgs) (ts : List TableInfo) (n : ℕ) (s : Session World)
      → 0 < n
      → All HasFewColumns ts
      → Gives (IsKept args n) s (cut_tables d args ts (pos n) s)
  unfolding cut_tables
  cut_tables-Runs args ts n s h few = by_test (is_empty args.table) refl
    where
      shown : (k : Kept TableInfo) → IsCut ts n k.items k.truncation → IsKept args n k
      shown k c = (
        subst (All HasFewColumns) (sym c.shown_is) (All-take n ts few),
        inr (subst (λ l. length l ≤ n) (sym c.shown_is) (length-take_le n ts)),
        c.count_is ∙ sym (ap length c.shown_is ∙ length-take n ts),
        c.limit_is,
      )

      by_truncate :
          ((k : Kept TableInfo) × (truncate ts (pos n) (codes "tables") ≡ some k)
            × IsCut ts n k.items k.truncation)
          → Gives (IsKept args n) s (or_panic (truncate ts (pos n) (codes "tables")) s)
      by_truncate (k, e, c) =
          rw e (Runs-still Q NotPanic (IsKept args n) s (ok k) (on_ok (shown k c)))

      by_test :
          (b : Bool)
          → is_empty args.table ≡ b
          → Gives (IsKept args n) s (
              (if b
                  then or_panic (truncate ts (pos n) (codes "tables"))
                  else return (kept_all ts (pos n)))
                s)
      by_test true e = by_truncate (truncate-IsCut ts n (codes "tables") h)
      by_test false e =
          Runs-return Q NotPanic (IsKept args n) s (kept_all ts (pos n))
            (unfold kept_all in (few, inl e, refl, refl))
