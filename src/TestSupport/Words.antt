-- ===== src/TestSupport/Words.antt =====
-- The names that `sanitize` makes of the names of tests.
use clickhouse_mcp.Prelude.{
  ℕ, zero, suc, ◌/◌, ◌%◌, ◌<◌, true, [], ◌∷◌, map, ◌≡◌, refl, arith, All, All-append,
}
use clickhouse_mcp.Query.Output.{is_ident_byte}
use clickhouse_mcp.TestSupport.{is_alphanumeric, clean, hex_digit, hex, sanitize}
use clickhouse_mcp.Text.{Text, codes}

-- A name that needs no quotes.
abbrev pub IsWord : Text → Type 0
IsWord s = All (λ c. is_ident_byte c ≡ true) s

clean_word : (c : ℕ) → is_ident_byte (clean c) ≡ true
unfolding is_ident_byte clean is_alphanumeric
clean_word c = ground arith

map-clean-IsWord : (s : Text) → IsWord (map clean s)
map-clean-IsWord [] = tt
map-clean-IsWord (c ∷ s) = (clean_word c, map-clean-IsWord s)

hex_digit_word : (n : ℕ) → n < 16 → is_ident_byte (hex_digit n) ≡ true
unfolding is_ident_byte hex_digit
hex_digit_word n h = ground arith

hex-IsWord : (k n : ℕ) (out : Text) → IsWord out → IsWord (hex k n out)
unfolding hex
hex-IsWord zero n out h = h
hex-IsWord (suc k) n out h =
    hex-IsWord k (n / 16) (hex_digit (n % 16) ∷ out) (hex_digit_word (n % 16) (omega arith), h)

pub sanitize-IsWord : (name : Text) → IsWord (sanitize name)
unfolding sanitize
sanitize-IsWord name =
    All-append (λ c. is_ident_byte c ≡ true) (codes "test_") _
      (unfold is_ident_byte in (refl, (refl, (refl, (refl, (refl, tt))))))
      (All-append (λ c. is_ident_byte c ≡ true) (map clean name) _ (map-clean-IsWord name)
        (underscore, hex-IsWord 8 _ [] tt))
  where
    underscore : is_ident_byte b'_' ≡ true
    underscore = unfold is_ident_byte in refl
