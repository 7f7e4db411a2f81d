-- ===== src/TestSupport/Tidy.antt =====
-- What the tests of a package do to the shared container.
use clickhouse_mcp.TestSupport.Nested.{IsNested}
use clickhouse_mcp.Prelude.{List, [], ◌++◌}
use clickhouse_mcp.TestSupport.{Act, Outside}

module _ {Ctr C : Type 0} (out : Outside Ctr C) where
  -- What the tests do, one after the other.
  pub data IsTidy : (before l : List (Act C)) → Type 0 where
    no_test : {b : List (Act C)} → IsTidy b []
    a_test :
        {b l rest : List (Act C)} → IsNested out b l → IsTidy (b ++ l) rest → IsTidy b (l ++ rest)
