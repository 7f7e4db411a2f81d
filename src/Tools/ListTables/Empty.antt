-- ===== src/Tools/ListTables/Empty.antt =====
-- What `list_tables` says where the server lists no table.
use clickhouse_mcp.Prelude.{
  some, ◌++◌, ◌∷◌, ◌≢◌, ◌⊎◌, add_one, is_positive, subst, ℕ, ◌<◌, Bool, true, false, ◌||◌, not, [],
  ◌≡◌, refl, ap, ◌∙◌, arith, pos, ltb, Bool-cases, inl, inr, if◌then◌else◌,
}
use clickhouse_mcp.Query.Serialize.{Foreign}
use clickhouse_mcp.Query.Shape.{exceeds}
use clickhouse_mcp.Text.{Text, codes, equal, equal_iff}
use clickhouse_mcp.Tools.Driver.ReadCaps.{read_caps}
use clickhouse_mcp.Tools.Driver.{
  query, arg_text, arg_int, default_read_context, capped_context, Driver, Session, ToolError, Call,
  Rows, TableRow, Tool, ◌>>=◌, ◌>>◌, table_row, Answer, answer, refused, Outcome, ok, err,
  call_failed, database_not_found, table_not_found, and_then, return, reject_if, answered,
  answered_row, conn_query, conn_query_row, read_rows, sent,
}
use clickhouse_mcp.Tools.Limit.{resolve_table_limit, truncate, kept_all}
use clickhouse_mcp.Tools.ListTables.{
  tables_sql, tables_args, ListTablesArgs, ListTablesOutput, is_empty, tables_call, database_call,
  fetch_of, lean_tables, database_exists, all_columns, explain_empty, cut_tables, list_tables,
}
use clickhouse_mcp.Tools.RunQuery.{lift}

-- The limit that applies: the caller's own if it is positive, and else 20 with columns and 200
-- without.
abbrev pub TableLimit : ListTablesArgs → ℕ → Type 0
TableLimit args n =
    ((args.limit ≡ pos n) × (0 < n))
    ⊎ ((is_positive args.limit ≡ false) × (n ≡ (if args.columns then 20 else 200)))

TableLimit-resolve :
    (args : ListTablesArgs) (n : ℕ)
    → TableLimit args n
    → (resolve_table_limit args.limit args.columns ≡ pos n) × (0 < n)
unfolding resolve_table_limit is_positive
TableLimit-resolve args n (inl (own, given)) = (rw own (ground arith), given)
TableLimit-resolve args n (inr (none_given, default)) = elim (Bool-cases args.columns) [
  | inl e ↦ let at : n ≡ 20 = default ∙ rw e refl in (rw (none_given, e, at) refl, omega arith)
  | inr e ↦ let at : n ≡ 200 = default ∙ rw e refl in (rw (none_given, e, at) refl, omega arith)
]

-- The listing of the named table, or of the tables up to one more than the limit.
abbrev pub listing_call : ListTablesArgs → ℕ → Call
listing_call args n =
    query (some read_caps)
      (codes "SELECT name, engine, total_rows, comment FROM system.tables WHERE database = ?"
        ++ (if equal args.table []
            then codes " ORDER BY name"
              ++ (if is_positive (add_one (pos n)) then codes " LIMIT ?" else [])
            else codes " AND name = ? ORDER BY name"))
      (arg_text args.database
        ∷ (if equal args.table []
            then (if is_positive (add_one (pos n)) then arg_int (add_one (pos n)) ∷ [] else [])
            else arg_text args.table ∷ []))

tables_call-listing :
    (args : ListTablesArgs) (n : ℕ)
    → tables_call args.database args.table (fetch_of args (pos n)) ≡ listing_call args n
unfolding tables_call tables_sql tables_args fetch_of is_empty default_read_context capped_context
tables_call-listing args n = elim (Bool-cases (equal args.table [])) [
  | inl e ↦ rw e refl
  | inr e ↦ rw e (unfold is_positive in refl)
]

-- The question whether the database is there.
abbrev pub question_call : ListTablesArgs → Call
question_call args =
    query (some read_caps) (codes "SELECT count() FROM system.databases WHERE name = ?")
      (arg_text args.database ∷ [])

database_call-question : (args : ListTablesArgs) → database_call args.database ≡ question_call args
unfolding database_call default_read_context capped_context
database_call-question args = refl

-- The outcome by what the server answers when it is asked for the database: its error; the database
-- is not there; the table that is named is not; or a listing of no tables, which is not cut.
pub data SaysWhy (args : ListTablesArgs) (exists : Answer ℕ) (o : Outcome ListTablesOutput)
    : Type 0 where
  no_answer : (e : Text) → exists ≡ refused e → o ≡ err (call_failed e) → SaysWhy args exists o
  no_database :
      exists ≡ answer 0 → o ≡ err (database_not_found args.database) → SaysWhy args exists o
  no_table :
      (n : ℕ)
      → exists ≡ answer n
      → 0 < n
      → args.table ≢ []
      → o ≡ err (table_not_found args.table args.database)
      → SaysWhy args exists o
  no_tables :
      (n k : ℕ)
      → exists ≡ answer n
      → 0 < n
      → args.table ≡ []
      → TableLimit args k
      → o
        ≡ ok (record {
          database = args.database;
          tables = [];
          truncation = record { count = 0; truncated = false; limit = pos k; note = [] };
        })
      → SaysWhy args exists o

is_empty-nil : (s : Text) → is_empty s ≡ true → s ≡ []
unfolding is_empty
is_empty-nil s h = (equal_iff s []).0 h

is_empty-given : (s : Text) → is_empty s ≡ false → s ≢ []
unfolding is_empty
is_empty-given s h e = let same = (equal_iff s []).1 e in cc

given-is_empty : (s : Text) → s ≢ [] → is_empty s ≡ false
given-is_empty s h = elim (Bool-cases (is_empty s)) [
  | inl e ↦ absurd (h (is_empty-nil s e))
  | inr e ↦ e
]

-- Two tests that pass leave what follows them.
passed :
    {W A : Type 0} (next : Tool W A) (first second : Bool) (e g : ToolError) (s : Session W)
    → first ≡ true
    → second ≡ true
    → and_then
        (λ _. next)
        (and_then (λ there. reject_if (not there) e >> reject_if (not second) g) (ok first, s))
      ≡ next s
unfolding and_then
passed next first second e g s there all = rw (there, all) refl

module _ {f : Foreign} (d : Driver f) (args : ListTablesArgs) where
  open d use {World}

  abbrev lean_call : Call
  lean_call =
      tables_call args.database args.table
        (fetch_of args (resolve_table_limit args.limit args.columns))

  lean_tables_none :
      (rows : Rows TableRow) (w : World) (s : Session World)
      → d.answer_query table_row lean_call s.world ≡ (answer rows, w)
      → read_rows rows.rows rows.failure ≡ ok []
      → lean_tables d args.database args.table
          (fetch_of args (resolve_table_limit args.limit args.columns))
          s
        ≡ (ok [], sent d lean_call s w)
  unfolding lean_tables conn_query answered and_then lift
  lean_tables_none rows w s given none_read = rw (given, none_read) refl

  -- What follows the check behind an empty listing.
  abbrev behind : Tool World ListTablesOutput
  behind = do
    kept ← cut_tables d args [] (resolve_table_limit args.limit args.columns)
    folded ←
        (if not (is_empty args.table) || args.columns
          then all_columns d args.database kept.items
          else return kept.items)
    return (record { database = args.database; tables = folded; truncation = kept.truncation })

  behind_empty :
      (k : ℕ) (s : Session World)
      → resolve_table_limit args.limit args.columns ≡ pos k
      → 0 < k
      → is_empty args.table ≡ true
      → (behind s).0
        ≡ ok (record {
          database = args.database;
          tables = [];
          truncation = record { count = 0; truncated = false; limit = pos k; note = [] };
        })
  unfolding cut_tables truncate kept_all and_then exceeds all_columns
  behind_empty k s at given all = elim (Bool-cases args.columns) [
    | inl e ↦ rw (at, all, given_test, none_over, e) refl
    | inr e ↦ rw (at, all, given_test, none_over, e) refl
  ]
    where
      given_test : ltb 0 k ≡ true
      given_test = ground arith

      none_over : ltb k 0 ≡ false
      none_over = ground arith

  says_why :
      (k : ℕ)
      → TableLimit args k
      → (a : Answer ℕ) (s : Session World)
      → SaysWhy args a
          (and_then
            (λ _. behind)
            (and_then
              (λ exists.
                reject_if (not exists) (database_not_found args.database)
                >> reject_if (not (is_empty args.table)) (table_not_found args.table args.database))
              (and_then (λ n. return (ltb 0 n)) (answered_row a s)))).0
  unfolding and_then answered_row
  says_why k applies (refused e) s = no_answer e refl refl
  says_why k applies (answer n) s = elim (Bool-cases (ltb 0 n)) [
    | inl there ↦ elim (Bool-cases (is_empty args.table)) [
      | inl all ↦
          let (at, given) = TableLimit-resolve args k applies in
          no_tables n k refl (ground arith) (is_empty-nil args.table all) applies (
            ap (λ r. r.0) (passed behind (ltb 0 n) (is_empty args.table) _ _ s there all)
            ∙ behind_empty k s at given all)
      | inr named ↦
          no_table n refl (ground arith) (is_empty-given args.table named) (rw (there, named) refl)
    ]
    | inr missing ↦
        let none_there : n ≡ 0 = ground arith in
        no_database (ap (λ m. answer m) none_there) (rw missing refl)
  ]

  asks_database :
      (rows : Rows TableRow) (w : World) (s : Session World) (k : ℕ)
      → is_empty args.database ≡ false
      → TableLimit args k
      → d.answer_query table_row lean_call s.world ≡ (answer rows, w)
      → read_rows rows.rows rows.failure ≡ ok []
      → SaysWhy args (d.run_row (database_call args.database) w).0 (list_tables d args s).0
  unfolding list_tables and_then explain_empty database_exists conn_query_row
  asks_database rows w s k named applies given none_read =
      rw (named, lean_tables_none rows w s given none_read)
        (says_why k applies (d.run_row (database_call args.database) w).0 _)

  lean_call-listing : (k : ℕ) → TableLimit args k → lean_call ≡ listing_call args k
  lean_call-listing k applies =
      ap (λ limit. tables_call args.database args.table (fetch_of args limit))
        ((TableLimit-resolve args k applies).0)
      ∙ tables_call-listing args k

  -- Where a database is named and the server answers the listing of its tables, or of the one that
  -- is named, with no row, the caller is told why, by the server's answer when it counts the
  -- databases of that name: the error of that question; that the database is not there; that the
  -- table which is named is not; or a listing of no tables under the limit that applies, which is
  -- not cut.
  pub list_tables-SaysWhy :
      (rows : Rows TableRow) (w : World) (s : Session World) (k : ℕ)
      → args.database ≢ []
      → TableLimit args k
      → d.answer_query table_row (listing_call args k) s.world ≡ (answer rows, w)
      → read_rows rows.rows rows.failure ≡ ok []
      → SaysWhy args (d.run_row (question_call args) w).0 (list_tables d args s).0
  list_tables-SaysWhy rows w s k named applies given none_read =
      subst (λ c. SaysWhy args (d.run_row c w).0 (list_tables d args s).0)
        (database_call-question args)
        (asks_database rows w s k (given-is_empty args.database named) applies
          (ap (λ c. d.answer_query table_row c s.world) (lean_call-listing k applies) ∙ given)
          none_read)
