-- ===== src/Examples/TestWitness.antt =====
-- The helpers of the integration tests at concrete inputs.
use clickhouse_mcp.Client.{opened}
use clickhouse_mcp.Prelude.{ℕ, List, [], ◌∷◌, none, ◌≡◌, refl}
use clickhouse_mcp.TestSupport.{
  Outside, got, Test, own_statement, own_database, other_user, shared_connection, sanitize, clean,
  is_alphanumeric, all_bytes, utf8, fnv32a, hex, hex_digit,
}
use clickhouse_mcp.Text.{codes}

-- A runtime in which every container and every statement works.
abbrev works : Outside ℕ ℕ
works = record {
  run_container = λ setup. got 0;
  host_of = λ ctr. got (codes "localhost");
  port_of = λ ctr port. got 32768;
  dialer = record { dial = λ o. opened 0; ping_error = λ c. none };
  exec_error = λ done conn sql. none;
}

-- One test uses a database and another user at once, and one its database only.
abbrev two_tests : List (Test ℕ)
two_tests =
    record {
      name = codes "TestA/b";
      uses =
          own_database
          ∷ own_statement 0 (codes "CREATE USER ro")
          ∷ other_user (codes "ro") (codes "p")
          ∷ own_statement 0 (codes "DROP USER ro")
          ∷ [];
    }
    ∷ record { name = codes "TestA_b"; uses = shared_connection ∷ own_database ∷ [] }
    ∷ []

-- The FNV-1a hash of the text "a" is e40c292c.
sanitize_a : sanitize (codes "a") ≡ codes "test_a_e40c292c"
unfolding sanitize clean is_alphanumeric all_bytes utf8 fnv32a hex hex_digit
sanitize_a = refl
