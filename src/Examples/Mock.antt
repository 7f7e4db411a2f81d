-- ===== src/Examples/Mock.antt =====
-- A driver that answers every query with two rows of one number, and types of other packages that
-- print themselves.
use clickhouse_mcp.Prelude.{ℕ, false, List, [], ◌∷◌, none, some}
use clickhouse_mcp.Query.Serialize.{Foreign, Value, uint64}
use clickhouse_mcp.Text.{Text, codes}
use clickhouse_mcp.Tools.Driver.{
  Scan, any_values, table_row, column_row, one_text, one_count, Scanned, Rows, Driver, answer,
  Session,
}

abbrev pub printed : Foreign
printed = record {
  Decimal = Text;
  decimal_string = λ t. t;
  Uuid = Text;
  uuid_string = λ t. t;
  Address = Text;
  address_string = λ t. t;
  Time = Text;
  format_date = λ t. t;
  format_rfc3339 = λ t. t;
  Float64 = ℕ;
  Float32 = ℕ;
  widen = λ x. x;
  is_inf = λ _. false;
  is_nan = λ _. false;
  Other = Text;
  sprint = λ t. t;
}

abbrev pub two_values : List (ℕ → Value printed)
two_values = (λ _. uint64 7) ∷ (λ _. uint64 8) ∷ []

abbrev pub number_rows : Rows (ℕ → Value printed)
number_rows = record {
  columns = codes "n" ∷ [];
  column_types = codes "UInt64" ∷ [];
  rows = some (λ _. uint64 7) ∷ some (λ _. uint64 8) ∷ [];
  failure = none;
}

abbrev no_rows : (R : Type 0) → Rows R
no_rows R = record { columns = []; column_types = []; rows = []; failure = none }

abbrev rows_for : (s : Scan) → Rows (Scanned printed s)
rows_for any_values = number_rows
rows_for table_row = no_rows _
rows_for column_row = no_rows _
rows_for one_text = no_rows _
rows_for one_count = no_rows _

abbrev pub two_rows : Driver printed
two_rows = record {
  World = ℕ;
  answer_query = λ s call w. (answer (rows_for s), w);
  run_row = λ call w. (answer 1, w);
  run_exec = λ call w. record { failure = none; wrote_rows = 3 ∷ 4 ∷ []; world = w };
}

abbrev pub fresh : Session ℕ
fresh = record { world = 0; log = [] }
