-- ===== src/Tools/ListTables/Bounded.antt =====
-- What `list_tables` gives at most, whatever the server answers.
use clickhouse_mcp.Prelude.{
  ℕ, ◌≤◌, ◌<◌, false, ◌||◌, not, List, ◌≡◌, ◌⊎◌, inl, inr, sym, subst, ◌∙◌, arith, length, pos, All,
}
use clickhouse_mcp.Query.Serialize.{Foreign}
use clickhouse_mcp.Text.{Text}
use clickhouse_mcp.Tools.Driver.{Driver, Session, Call, ok}
use clickhouse_mcp.Tools.Ensures.{Holds, Holds-ok, Runs-bind, Runs-guard, Runs-return}
use clickhouse_mcp.Tools.Limit.{Kept, resolve_table_limit}
use clickhouse_mcp.Tools.ListTables.Parts.{
  HasFewColumns, NotPanic, resolve_table_limit-pos, Gives, IsFolded, IsKept, lean_tables-Runs,
  explain_empty-Runs, cut_tables-Runs, fold-Runs,
}
use clickhouse_mcp.Tools.ListTables.{
  ListTablesArgs, TableInfo, ListTablesOutput, is_empty, tables_call, columns_call, database_call,
  fetch_of, list_tables,
}

-- What a listing of a limit holds at most; a table that is named is not cut.
pub record IsListing (args : ListTablesArgs) (n : ℕ) (out : ListTablesOutput) : Type 0 where
  pub few_tables : (is_empty args.table ≡ false) ⊎ (length out.tables ≤ n)
  pub few_columns : All HasFewColumns out.tables
  pub count_is : out.truncation.count ≡ length out.tables
  pub limit_is : out.truncation.limit ≡ pos n

module _ {f : Foreign} (d : Driver f) (Q : Call → Type 0) where
  open d use {World}

  -- The calls of one listing.
  pub record SendsOnly (args : ListTablesArgs) (n : ℕ) : Type 0 where
    pub tables : Q (tables_call args.database args.table (fetch_of args (pos n)))
    pub database : Q (database_call args.database)
    pub columns : (name : Text) → Q (columns_call args.database name)

  pub list_tables-Runs :
      (args : ListTablesArgs) (n : ℕ) (s : Session World)
      → resolve_table_limit args.limit args.columns ≡ pos n
      → 0 < n
      → SendsOnly args n
      → Gives d Q (IsListing args n) s (list_tables d args s)
  unfolding list_tables
  list_tables-Runs args n s limit h q = rw limit (
      Runs-guard Q NotPanic (IsListing args n) s (is_empty args.database) _ _ (λ e. cc)
        (λ _.
          Runs-bind Q NotPanic (All HasFewColumns) (IsListing args n) s _ _
            (lean_tables-Runs d Q args.database args.table (fetch_of args (pos n)) s q.tables)
            (λ tables t few.
              Runs-bind Q NotPanic (λ _. Unit) (IsListing args n) t _ _
                (explain_empty-Runs d Q args tables t q.database)
                (λ _ u _.
                  Runs-bind Q NotPanic (IsKept d Q args n) (IsListing args n) u _ _
                    (cut_tables-Runs d Q args tables n u h few)
                    (λ kept v k.
                      Runs-bind Q NotPanic (IsFolded d Q (length kept.items)) (IsListing args n) v _
                        _
                        (fold-Runs d Q (not (is_empty args.table) || args.columns) args.database
                          kept.items v k.0 q.columns)
                        (λ folded w g.
                          Runs-return Q NotPanic (IsListing args n) w _
                            (listed kept folded k g)))))))
    where
      listed :
          (kept : Kept TableInfo) (folded : List TableInfo)
          → IsKept d Q args n kept
          → IsFolded d Q (length kept.items) folded
          → IsListing args n
              (record { database = args.database; tables = folded; truncation = kept.truncation })
      listed kept folded (few, bound, count, lim) (few', same) = record {
        few_tables = shorter bound;
        few_columns = few';
        count_is = count ∙ sym same;
        limit_is = lim;
      }
        where
          shorter :
              (is_empty args.table ≡ false) ⊎ (length kept.items ≤ n)
              → (is_empty args.table ≡ false) ⊎ (length folded ≤ n)
          shorter (inl e) = inl e
          shorter (inr e) = inr (omega (arith, same))

-- A listing that succeeds holds at most as many tables as the limit that applies, unless a table
-- was named, and no table has more than 200 columns; its count is the number of the tables that it
-- holds. So it is whatever the server answers.
pub list_tables-IsListing :
    {f : Foreign} (d : Driver f) (args : ListTablesArgs) (s : Session d.World)
    (out : ListTablesOutput)
    → (list_tables d args s).0 ≡ ok out
    → (n : ℕ) × (resolve_table_limit args.limit args.columns ≡ pos n) × IsListing args n out
list_tables-IsListing d args s out e =
    let (n, limit, h) = resolve_table_limit-pos args.limit args.columns in
    let run =
      list_tables-Runs d (λ _. Unit) args n s limit h
        (record { tables = tt; database = tt; columns = λ _. tt }) in
    (
      n,
      limit,
      Holds-ok NotPanic (IsListing args n) (subst (Holds NotPanic (IsListing args n)) e run.holds),
    )
