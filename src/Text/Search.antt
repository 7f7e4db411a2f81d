-- ===== src/Text/Search.antt =====
-- Laws of comparison and search.
use clickhouse_mcp.Prelude.{
  ℕ, ◌≤◌, ◌<◌, true, [], ◌∷◌, ◌++◌, none, some, ◌≡◌, ◌≢◌, ◌↔◌, inl, inr, refl, Bool-cases, arith,
  length, drop, All,
}
use clickhouse_mcp.Text.Defs.{Text, equal, starts_with, ends_with, before, after}

pub equal_iff : (a b : Text) → (equal a b ≡ true) ↔ (a ≡ b)
unfolding equal
equal_iff (x ∷ a) (y ∷ b) = ground (arith, equal_iff a b)
equal_iff _ _ = ground arith

abbrev pub Lacks : ℕ → Text → Type 0
Lacks b = All (λ c. c ≢ b)

pub starts_with-append : (x s t : Text) → starts_with x s ≡ true → starts_with x (s ++ t) ≡ true
unfolding starts_with
starts_with-append [] s t h = refl
starts_with-append (c ∷ x) [] t h = cc
starts_with-append (c ∷ x) (d ∷ s) t h = ground (arith, starts_with-append x s t)

starts_with-append_long :
    (x s t : Text) → length x ≤ length s → starts_with x (s ++ t) ≡ starts_with x s
unfolding starts_with
starts_with-append_long [] s t h = refl
starts_with-append_long (c ∷ x) [] t h = absurd (omega arith)
starts_with-append_long (c ∷ x) (d ∷ s) t h =
    ground (arith, starts_with-append_long x s t (omega arith))

starts_with-length : (x s : Text) → starts_with x s ≡ true → length x ≤ length s
unfolding starts_with
starts_with-length [] s h = omega arith
starts_with-length (c ∷ x) [] h = absurd (cc)
starts_with-length (c ∷ x) (d ∷ s) h = ground (arith, starts_with-length x s)

drop-append :
    (x s t : Text) → length x ≤ length s → drop (length x) (s ++ t) ≡ drop (length x) s ++ t
drop-append [] s t h = refl
drop-append (c ∷ x) [] t h = absurd (omega arith)
drop-append (c ∷ x) (d ∷ s) t h = drop-append x s t (omega arith)

length-drop-le : (x s : Text) → length (drop (length x) s) ≤ length s
length-drop-le [] s = omega arith
length-drop-le (c ∷ x) [] = omega arith
length-drop-le (c ∷ x) (d ∷ s) = omega (arith, length-drop-le x s)

-- What is found leaves room for the part, and no more than the text.
pub after-length :
    (x s : Text) {r : Text} → after x s ≡ some r → (length x ≤ length s) × (length r ≤ length s)
unfolding after
after-length x [] {r} h = ground (arith, starts_with-length x [])
after-length x (c ∷ s) {r} h =
    ground (arith, starts_with-length x (c ∷ s), after-length x s {r = r}, length-drop-le x (c ∷ s))

-- The first occurrence in a text is the first one in any longer text.
pub after-append : (x s t : Text) {r : Text} → after x s ≡ some r → after x (s ++ t) ≡ some (r ++ t)
unfolding after
after-append [] [] [] h = ground arith
after-append [] [] (c ∷ t) {r} h = unfold starts_with in ground arith
after-append (b ∷ x) [] t h = unfold starts_with in cc
after-append x (c ∷ s) t {r} h = elim (Bool-cases (starts_with x (c ∷ s))) [
  | inl e ↦
      let room = starts_with-length x (c ∷ s) e in
      ground (arith, starts_with-append_long x (c ∷ s) t room, drop-append x (c ∷ s) t room)
  | inr e ↦
      let later : after x s ≡ some r = rw e at h in
      let room = (after-length x s {r = r} later).0 in
      ground (arith, starts_with-append_long x (c ∷ s) t (omega arith), after-append x s t later)
]

-- Behind a part that the separator does not occur in.
pub after-Lacks : (b : ℕ) (s t : Text) → Lacks b s → after (b ∷ []) (s ++ b ∷ t) ≡ some t
unfolding after starts_with
after-Lacks b [] t h = ground arith
after-Lacks b (c ∷ s) t h = ground (arith, after-Lacks b s t)

pub after-Lacks-none : (b : ℕ) (s : Text) → Lacks b s → after (b ∷ []) s ≡ none
unfolding after starts_with
after-Lacks-none b [] h = refl
after-Lacks-none b (c ∷ s) h = ground (arith, after-Lacks-none b s)

-- What stands behind a part that is not empty is shorter than the text.
pub after-shrinks : (b : ℕ) (x s r : Text) → after (b ∷ x) s ≡ some r → length r < length s
unfolding after
after-shrinks b x [] r h = unfold starts_with in absurd (cc)
after-shrinks b x (c ∷ s) r h = ground (arith, after-shrinks b x s r, length-drop-le x s)

pub before-Lacks : (b : ℕ) (s t : Text) → Lacks b s → before (b ∷ []) (s ++ b ∷ t) ≡ s
unfolding before starts_with
before-Lacks b [] t h = ground arith
before-Lacks b (c ∷ s) t h = ground (arith, before-Lacks b s t)

pub ends_with-append : (x a s : Text) → ends_with x s ≡ true → ends_with x (a ++ s) ≡ true
unfolding ends_with
ends_with-append x [] s h = h
ends_with-append x (c ∷ a) s h = ground (arith, ends_with-append x a s h)
