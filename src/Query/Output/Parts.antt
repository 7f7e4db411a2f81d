-- ===== src/Query/Output/Parts.antt =====
-- `strings.Contains` and `strings.HasSuffix` in terms of the text in front of a part and behind it.
use clickhouse_mcp.Prelude.{true, [], ◌∷◌, ◌++◌, ◌≡◌, inl, inr, refl, sym, ap, arith, Bool-cases}
use clickhouse_mcp.Text.{Text, equal, equal_iff, contains, starts_with, ends_with}

pub starts_with_split : (x s : Text) → starts_with x s ≡ true → (t : Text) × (s ≡ x ++ t)
unfolding starts_with
starts_with_split [] s h = (s, refl)
starts_with_split (c ∷ x) [] h = cc
starts_with_split (c ∷ x) (d ∷ s) h =
    let (t, e) = starts_with_split x s (ground arith) in
    let same : d ≡ c = ground arith in (t, (λ i. same i ∷ e i))

pub starts_with_self : (x t : Text) → starts_with x (x ++ t) ≡ true
unfolding starts_with
starts_with_self [] t = refl
starts_with_self (c ∷ x) t = ground (arith, starts_with_self x t)

pub contains_split :
    (x s : Text) → contains x s ≡ true → (front : Text) × (tail : Text) × (s ≡ front ++ (x ++ tail))
unfolding contains
contains_split x [] h = let (t, e) = starts_with_split x [] h in ([], t, e)
contains_split x (c ∷ s) h = elim (Bool-cases (starts_with x (c ∷ s))) [
  | inl here ↦ let (t, e) = starts_with_split x (c ∷ s) here in ([], t, e)
  | inr further ↦
      let (front, tail, e) = contains_split x s (ground arith) in
      (c ∷ front, tail, ap (λ t. c ∷ t) e)
]

pub contains-append : (x front tail : Text) → contains x (front ++ (x ++ tail)) ≡ true
unfolding contains
contains-append x [] tail = by_text (x ++ tail) (starts_with_self x tail)
  where
    by_text : (s : Text) → starts_with x s ≡ true → contains x s ≡ true
    by_text [] h = h
    by_text (c ∷ s) h = rw h refl
contains-append x (c ∷ front) tail = ground (arith, contains-append x front tail)

pub ends_with_split : (x s : Text) → ends_with x s ≡ true → (front : Text) × (s ≡ front ++ x)
unfolding ends_with
ends_with_split x [] h = ([], sym ((equal_iff x []).0 h))
ends_with_split x (c ∷ s) h = elim (Bool-cases (equal x (c ∷ s))) [
  | inl here ↦ ([], sym ((equal_iff x (c ∷ s)).0 here))
  | inr further ↦
      let (front, e) = ends_with_split x s (ground arith) in (c ∷ front, ap (λ t. c ∷ t) e)
]

pub ends_with-front : (x front : Text) → ends_with x (front ++ x) ≡ true
unfolding ends_with
ends_with-front x [] = by_text x ((equal_iff x x).1 refl)
  where
    by_text : (s : Text) → equal x s ≡ true → ends_with x s ≡ true
    by_text [] h = h
    by_text (c ∷ s) h = rw h refl
ends_with-front x (c ∷ front) = ground (arith, ends_with-front x front)
