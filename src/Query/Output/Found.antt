-- ===== src/Query/Output/Found.antt =====
-- `strings.LastIndex`: where the last occurrence of a part stands.
use clickhouse_mcp.Prelude.{
  ℕ, zero, suc, Bool, true, false, ◌||◌, [], ◌∷◌, ◌++◌, Option, none, some, ◌≡◌, inl, inr, refl,
  sym, ap, subst, ◌∙◌, arith, Bool-cases, length, drop, if◌then◌else◌,
}
use clickhouse_mcp.Query.Output.{Last, pass, last_index}
use clickhouse_mcp.Text.{Text, contains, starts_with}

-- The last code point of a text.
unfoldable pub last_of : Text → Option ℕ
unfolding pass
last_of [] = none
last_of (c ∷ s) = pass c (last_of s)

pub last_index-contains : (x s : Text) → contains x s ≡ false → last_index x s ≡ none
unfolding last_index contains
last_index-contains x [] h = refl
last_index-contains x (c ∷ s) h = elim (Bool-cases (starts_with x (c ∷ s))) [
  | inl e ↦ cc
  | inr e ↦ rw (last_index-contains x s (ground arith), e) refl
]

last_index-none :
    (x : Text) (c : ℕ) (s : Text)
    → last_index x s ≡ none
    → last_index x (c ∷ s) ≡ (
        if starts_with x (c ∷ s)
        then some (record { front = none; tail = drop (length x) (c ∷ s) })
        else none)
unfolding last_index
last_index-none x c s e = rw e refl

last_index-some :
    (x : Text) (c : ℕ) (s : Text) (l : Last)
    → last_index x s ≡ some l
    → last_index x (c ∷ s) ≡ some (record { front = pass c l.front; tail = l.tail })
unfolding last_index
last_index-some x c s l e = rw e refl

contains-last_index :
    (y : ℕ) (x s : Text) → last_index (y ∷ x) s ≡ none → contains (y ∷ x) s ≡ false
unfolding contains
contains-last_index y x [] h = unfold starts_with in refl
contains-last_index y x (c ∷ s) h = by_rest (last_index (y ∷ x) s) refl (contains-last_index y x s)
  where
    here : (b : Bool) (l : Last) → (if b then some l else none) ≡ none → b ≡ false
    here true l q = cc
    here false l q = refl

    by_rest :
        (o : Option Last)
        → last_index (y ∷ x) s ≡ o
        → (last_index (y ∷ x) s ≡ none → contains (y ∷ x) s ≡ false)
        → starts_with (y ∷ x) (c ∷ s) || contains (y ∷ x) s ≡ false
    by_rest none e rest =
        let starts =
          here (starts_with (y ∷ x) (c ∷ s)) _ (sym (last_index-none (y ∷ x) c s e) ∙ h) in
        rw (starts, rest e) refl
    by_rest (some l) e rest = let found = last_index-some (y ∷ x) c s l e in cc

contains-drop : (x : Text) (n : ℕ) (s : Text) → contains x s ≡ false → contains x (drop n s) ≡ false
unfolding contains
contains-drop x zero s h = h
contains-drop x (suc n) [] h = h
contains-drop x (suc n) (c ∷ s) h = contains-drop x n s (ground arith)

starts_with-drop : (x s : Text) → starts_with x s ≡ true → s ≡ x ++ drop (length x) s
unfolding starts_with
starts_with-drop [] s h = refl
starts_with-drop (y ∷ x) [] h = cc
starts_with-drop (y ∷ x) (c ∷ s) h = ground (arith, starts_with-drop x s)

-- Where the last occurrence of a part stands.
abbrev pub IsFound : Text → Text → Last → Type 0
IsFound x s l =
    (a : Text) × (s ≡ a ++ (x ++ l.tail)) × (l.front ≡ last_of a) × (contains x l.tail ≡ false)

pub last_index-IsFound :
    (y : ℕ) (x s : Text) (l : Last) → last_index (y ∷ x) s ≡ some l → IsFound (y ∷ x) s l
unfolding last_of
last_index-IsFound y x [] l h = unfold last_index in cc h
last_index-IsFound y x (c ∷ s) l h =
    by_rest (last_index (y ∷ x) s) refl (λ k e. last_index-IsFound y x s k e)
  where
    at_start :
        (b : Bool)
        → starts_with (y ∷ x) (c ∷ s) ≡ b
        → last_index (y ∷ x) s ≡ none
        → (if b then some (record { front = none; tail = drop (length (y ∷ x)) (c ∷ s) }) else none)
          ≡ some l
        → IsFound (y ∷ x) (c ∷ s) l
    at_start true b e q =
        let same : record { front = none; tail = drop (length (y ∷ x)) (c ∷ s) } ≡ l = cc in
        subst (λ k. IsFound (y ∷ x) (c ∷ s) k) same
          (
            [],
            starts_with-drop (y ∷ x) (c ∷ s) b,
            refl,
            contains-drop (y ∷ x) (length x) s (contains-last_index y x s e),
          )
    at_start false b e q = cc

    by_rest :
        (o : Option Last)
        → last_index (y ∷ x) s ≡ o
        → ((k : Last) → last_index (y ∷ x) s ≡ some k → IsFound (y ∷ x) s k)
        → IsFound (y ∷ x) (c ∷ s) l
    by_rest none e rest =
        at_start (starts_with (y ∷ x) (c ∷ s)) refl e (sym (last_index-none (y ∷ x) c s e) ∙ h)
    by_rest (some k) e rest =
        let (a, at, front, last) = rest k e in
        let same : record { front = pass c k.front; tail = k.tail } ≡ l =
          (let q = sym (last_index-some (y ∷ x) c s k e) ∙ h in cc) in
        subst (λ m. IsFound (y ∷ x) (c ∷ s) m) same
          (c ∷ a, ap (λ t. c ∷ t) at, ap (λ o. pass c o) front, last)

-- What stands in front of an occurrence.
pub last_index-append :
    (x a s t : Text)
    → last_index x s ≡ some (record { front = none; tail = t })
    → last_index x (a ++ s) ≡ some (record { front = last_of a; tail = t })
unfolding last_index last_of
last_index-append x [] s t h = h
last_index-append x (c ∷ a) s t h = rw (last_index-append x a s t h) refl
