-- ===== src/Query/Bound/Decimal.antt =====
-- `strconv.Atoi` reads back what `strconv.Itoa` wrote.
use clickhouse_mcp.Config.Numbers.{read_digits, read_number, as_positive, as_negative, atoi}
use clickhouse_mcp.Prelude.{
  ℕ, zero, suc, ◌+◌, ◌-◌, ◌*◌, ◌/◌, ◌%◌, ◌^◌, ◌≤◌, ◌<◌, true, false, ◌&&◌, [], ◌∷◌, some, ◌≡◌, refl,
  ap, ◌∙◌, arith, Bool-cases, inl, inr, ltb, leb, ◌==◌, ℤ, pos, negsuc, max_int,
}
use clickhouse_mcp.Query.Bound.{digits, itoa}
use clickhouse_mcp.Text.{Text}

read_digits_cons :
    (acc d : ℕ) (s : Text)
    → d < 10
    → read_digits acc ((b'0' + d) ∷ s) ≡ read_digits (acc * 10 + d) s
unfolding read_digits
read_digits_cons acc d s h = rw (is_digit, value) refl
  where
    is_digit : leb b'0' (b'0' + d) && leb (b'0' + d) b'9' ≡ true
    is_digit = ground arith

    value : b'0' + d - b'0' ≡ d
    value = omega arith

-- The digits of a number are read as the number, with whatever follows.
read_digits-digits :
    (fuel n : ℕ) (out : Text)
    → n < 10 ^ fuel
    → read_digits 0 (digits fuel n out) ≡ read_digits n out
unfolding digits
read_digits-digits zero n out h = ap (λ k. read_digits k out) (omega arith)
read_digits-digits (suc fuel) n out h = elim (Bool-cases (ltb n 10)) [
  | inl small ↦
      rw small (read_digits_cons 0 n out (ground arith) ∙ ap (λ k. read_digits k out) (omega arith))
  | inr large ↦ rw large (
      read_digits-digits fuel (n / 10) ((b'0' + n % 10) ∷ out) (ground arith)
      ∙ read_digits_cons (n / 10) (n % 10) out (omega arith)
      ∙ ap (λ k. read_digits k out) (omega arith))
]

-- A text that starts with a digit.
abbrev Leads : Text → Type 0
Leads t = (d : ℕ) × (s : Text) × (d < 10) × (t ≡ (b'0' + d) ∷ s)

digits-Leads : (fuel n : ℕ) (out : Text) (d : ℕ) → d < 10 → Leads (digits fuel n ((b'0' + d) ∷ out))
unfolding digits
digits-Leads zero n out d h = (d, out, h, refl)
digits-Leads (suc fuel) n out d h = elim (Bool-cases (ltb n 10)) [
  | inl small ↦ rw small (n, (b'0' + d) ∷ out, ground arith, refl)
  | inr large ↦ rw large (digits-Leads fuel (n / 10) ((b'0' + d) ∷ out) (n % 10) (omega arith))
]

written-Leads : (fuel n : ℕ) → Leads (digits (suc fuel) n [])
unfolding digits
written-Leads fuel n = elim (Bool-cases (ltb n 10)) [
  | inl small ↦ rw small (n, [], ground arith, refl)
  | inr large ↦ rw large (digits-Leads fuel (n / 10) [] (n % 10) (omega arith))
]

read_number-Leads : (t : Text) → Leads t → read_number t ≡ read_digits 0 t
unfolding read_number
read_number-Leads t (d, s, h, e) = rw e refl

atoi-Leads : (t : Text) → Leads t → atoi t ≡ as_positive (read_number t)
unfolding atoi
atoi-Leads t (d, s, h, e) = rw (e, no_minus, no_plus) refl
  where
    no_minus : (b'0' + d == b'-') ≡ false
    no_minus = ground arith

    no_plus : (b'0' + d == b'+') ≡ false
    no_plus = ground arith

-- The digits of a number with at most 20 digits are read as the number.
read_number-digits : (n : ℕ) → n < 10 ^ 20 → read_number (digits 20 n []) ≡ some n
read_number-digits n h =
    read_number-Leads _ (written-Leads 19 n)
    ∙ read_digits-digits 20 n [] h
    ∙ unfold read_digits in refl

-- A number that an `int` holds.
unfoldable pub InRange : ℤ → Type 0
InRange (pos n) = n ≤ max_int
InRange (negsuc n) = n ≤ max_int

-- The decimal form of an `int` is read back as the same number, for the smallest and the largest
-- one too.
pub atoi-itoa : (z : ℤ) → InRange z → atoi (itoa z) ≡ some z
unfolding InRange itoa as_positive as_negative
atoi-itoa (pos n) h =
    atoi-Leads _ (written-Leads 19 n)
    ∙ ap as_positive (read_number-digits n (omega arith))
    ∙ unfold as_positive in ground arith
atoi-itoa (negsuc n) h =
    unfold atoi in
    (ap as_negative (read_number-digits (n + 1) (omega arith)) ∙ unfold as_negative in ground arith)
