-- ===== src/Query/Bound/Single.antt =====
-- `Bound` keeps a single statement single: what it appends never makes a second one.
use clickhouse_mcp.Prelude.{
  ℕ, zero, suc, ◌+◌, ◌/◌, Bool, true, false, [], ◌∷◌, ◌++◌, ◌≡◌, ◌≢◌, ◌⊎◌, inl, inr, refl, sym, ap,
  ◌∙◌, arith, All, All-append, Bool-cases, ℤ, pos, negsuc, ltb,
}
use clickhouse_mcp.Query.Bound.{digits, itoa, inner, bound}
use clickhouse_mcp.Query.Keyword.{can_bound}
use clickhouse_mcp.Query.Output.{is_semi_or_blank}
use clickhouse_mcp.Query.Scanner.{
  State, normal, Step, found, go, next_is, blank, step, on_step, scan, contains_multiple_statements,
}
use clickhouse_mcp.Query.Scanner.Pieces.{IsPlain, scan-go}
use clickhouse_mcp.Text.{
  Text, codes, Lacks, equal_iff, is_space, trim_right, keep_right, trim_left, trim_right-cons,
  trim_left_idem, trim_left-trim_right_fix, trim_space, trim_space-nil,
}

-- One round, when what it leaves unread is answered by false.
scan-cons :
    (st : State) (c : ℕ) (s : Text)
    → step st c s ≢ found
    → ((st' : State) (skip : Bool) → scan st' skip s ≡ false)
    → scan st false (c ∷ s) ≡ false
unfolding scan
scan-cons st c s = by_step (step st c s)
  where
    by_step :
        (o : Step)
        → o ≢ found
        → ((st' : State) (skip : Bool) → scan st' skip s ≡ false)
        → on_step (λ st' skip. scan st' skip s) o ≡ false
    by_step found ne ih = absurd (ne refl)
    by_step (go st' skip) ne ih = ih st' skip

-- The same round in front of another text.
scan-cons_same :
    (st : State) (c : ℕ) (s t : Text)
    → step st c s ≡ step st c t
    → ((st' : State) (skip : Bool) → scan st' skip s ≡ false → scan st' skip t ≡ false)
    → scan st false (c ∷ s) ≡ false
    → scan st false (c ∷ t) ≡ false
unfolding scan
scan-cons_same st c s t e = rw (← e) (by_step (step st c s))
  where
    by_step :
        (o : Step)
        → ((st' : State) (skip : Bool) → scan st' skip s ≡ false → scan st' skip t ≡ false)
        → on_step (λ st' skip. scan st' skip s) o ≡ false
        → on_step (λ st' skip. scan st' skip t) o ≡ false
    by_step found ih h = h
    by_step (go st' skip) ih h = ih st' skip h

-- Not a separator of statements: another state, or another code point.
abbrev NoSeparator : State → ℕ → Type 0
NoSeparator st c = (st ≢ normal) ⊎ (c ≢ b';')

separator-cases : (st : State) (c : ℕ) → NoSeparator st c ⊎ ((st ≡ normal) × (c ≡ b';'))
separator-cases normal c = ground arith
separator-cases _ c = inl (inl (λ e. cc))

step-NoSeparator : (st : State) (c : ℕ) (s : Text) → NoSeparator st c → step st c s ≢ found
unfolding step
step-NoSeparator normal c s h = ground arith
step-NoSeparator _ c s h = ground arith

-- Where no `;` is left, no second statement begins.
scan-Lacks : (s : Text) (st : State) (skip : Bool) → Lacks b';' s → scan st skip s ≡ false
scan-Lacks [] st skip h = unfold scan in refl
scan-Lacks (c ∷ s) st true (_, h) = go_on (scan-Lacks s st false h)
  where
    go_on : scan st false s ≡ false → scan st true (c ∷ s) ≡ false
    go_on e = unfold scan in e
scan-Lacks (c ∷ s) st false (hc, h) =
    scan-cons st c s (step-NoSeparator st c s (inr hc)) (λ st' skip. scan-Lacks s st' skip h)

-- A round depends on what follows by the next code point alone, but at a separator.
step-next :
    (st : State) (c d : ℕ) (s t : Text) → NoSeparator st c → step st c (d ∷ s) ≡ step st c (d ∷ t)
unfolding step next_is
step-next normal c d s t h = ground arith
step-next _ c d s t h = refl

scan_separator : (s : Text) → scan normal false (b';' ∷ s) ≡ false → blank s ≡ true
unfolding scan step
scan_separator s h = ground arith

-- The right end as `Bound` trims it, with the leading blanks left on.
trim_end : Text → Text
trim_end s = trim_right is_space (trim_right is_semi_or_blank (trim_right is_space s))

trim_end-cons : (c : ℕ) (s : Text) → (trim_end (c ∷ s) ≡ c ∷ trim_end s) ⊎ (trim_end (c ∷ s) ≡ [])
unfolding trim_end
trim_end-cons c s =
    let a = trim_right is_space s in
    elim (trim_right-cons is_space c s) [
      | inr (e, _, _) ↦ inr (rw e (unfold trim_right in refl))
      | inl e ↦ elim (trim_right-cons is_semi_or_blank c a) [
        | inr (f, _, _) ↦ inr (rw (e, f) (unfold trim_right in refl))
        | inl f ↦ elim (trim_right-cons is_space c (trim_right is_semi_or_blank a)) [
          | inr (g, _, _) ↦ inr (rw (e, f, g))
          | inl g ↦ inl (rw (e, f, g))
        ]
      ]
    ]

trim_end-nil : trim_end [] ≡ []
unfolding trim_end trim_right
trim_end-nil = refl

trim_end_separator : (s : Text) → blank s ≡ true → trim_end (b';' ∷ s) ≡ []
unfolding trim_end blank
trim_end_separator s h =
    let empty = trim_space-nil s ((equal_iff (trim_space s) []).0 h) in
    unfold trim_right keep_right is_space is_semi_or_blank in rw empty

trim_end-head : (s : Text) {d : ℕ} {r : Text} → trim_end s ≡ d ∷ r → (t : Text) × (s ≡ d ∷ t)
trim_end-head [] e = absurd (cc (sym trim_end-nil ∙ e))
trim_end-head (c ∷ s) e = elim (trim_end-cons c s) [ inl f ↦ (s, cc) | inr f ↦ absurd (cc) ]

module _ (u : Text) (free : Lacks b';' u) where
  -- The next code point is kept too, or the appended text is next.
  scan-cons_kept :
      (st : State) (c : ℕ) (s : Text)
      → NoSeparator st c
      → ((st' : State) (skip : Bool)
          → scan st' skip s ≡ false
          → scan st' skip (trim_end s ++ u) ≡ false)
      → scan st false (c ∷ s) ≡ false
      → scan st false (c ∷ (trim_end s ++ u)) ≡ false
  scan-cons_kept st c s other ih h = by_end (trim_end s) refl
    where
      by_end : (t : Text) → trim_end s ≡ t → scan st false (c ∷ (trim_end s ++ u)) ≡ false
      by_end [] e = rw e (
          scan-cons st c u (step-NoSeparator st c u other) (λ st' skip. scan-Lacks u st' skip free))
      by_end (d ∷ r) e =
          let (t, split) = trim_end-head s e in
          scan-cons_same st c s (trim_end s ++ u)
            (rw (e, split) (step-next st c d t (r ++ u) other)) ih h

  scan_kept :
      (st : State) (skip : Bool) (c : ℕ) (s : Text)
      → trim_end (c ∷ s) ≡ c ∷ trim_end s
      → ((st' : State) (skip' : Bool)
          → scan st' skip' s ≡ false
          → scan st' skip' (trim_end s ++ u) ≡ false)
      → scan st skip (c ∷ s) ≡ false
      → scan st skip (c ∷ (trim_end s ++ u)) ≡ false
  scan_kept st true c s e ih h = unfold scan in ih st false h
  scan_kept st false c s e ih h = elim (separator-cases st c) [
    | inl other ↦ scan-cons_kept st c s other ih h
    | inr (p, q) ↦
        let last : scan normal false (b';' ∷ s) ≡ false = rw (p, q) at h in
        let gone = trim_end_separator s (scan_separator s last) in absurd (cc)
  ]

  -- What follows the trimmed end of a text does not matter, if it has no `;`.
  scan-trim_end :
      (s : Text) (st : State) (skip : Bool)
      → scan st skip s ≡ false
      → scan st skip (trim_end s ++ u) ≡ false
  scan-trim_end [] st skip h = rw trim_end-nil (scan-Lacks u st skip free)
  scan-trim_end (c ∷ s) st skip h = elim (trim_end-cons c s) [
    | inr e ↦ rw e (scan-Lacks u st skip free)
    | inl e ↦ rw e (scan_kept st skip c s e (λ st' skip'. scan-trim_end s st' skip') h)
  ]

scan-trim_left :
    (s : Text) → scan normal false s ≡ false → scan normal false (trim_left is_space s) ≡ false
unfolding trim_left scan step is_space
scan-trim_left [] h = refl
scan-trim_left (c ∷ s) h = ground (arith, scan-trim_left s)

-- `inner` trims both ends once; the blanks on the left go first.
inner-trim_end : (sql : Text) → inner sql ≡ trim_end (trim_left is_space sql)
unfolding inner trim_end trim_space
inner-trim_end sql = ap (trim_right is_space) (
    trim_left-trim_right_fix is_space is_semi_or_blank _
      (trim_left-trim_right_fix is_space is_space _ (trim_left_idem is_space sql)))

digits-Lacks : (fuel n : ℕ) (out : Text) → Lacks b';' out → Lacks b';' (digits fuel n out)
unfolding digits
digits-Lacks zero n out h = h
digits-Lacks (suc fuel) n out h = elim (Bool-cases (ltb n 10)) [
  | inl small ↦ rw small (ground arith, h)
  | inr more ↦ rw more (digits-Lacks fuel (n / 10) _ (omega arith, h))
]

itoa-Lacks : (n : ℤ) → Lacks b';' (itoa n)
unfolding itoa
itoa-Lacks (pos n) = digits-Lacks 20 n [] tt
itoa-Lacks (negsuc n) = (omega arith, digits-Lacks 20 (n + 1) [] tt)

scan-plain : (a s : Text) → All IsPlain a → scan normal false (a ++ s) ≡ scan normal false s
scan-plain [] s h = refl
scan-plain (c ∷ a) s (hc, h) =
    scan-go normal c (a ++ s) normal false (unfold step in ground arith) ∙ scan-plain a s h

-- If the scanner finds one statement in a text, it finds one in what `Bound` makes of the text,
-- whether the text is wrapped or passes through.
pub bound-single :
    (sql : Text) (fetch_limit : ℤ)
    → contains_multiple_statements sql ≡ false
    → contains_multiple_statements (bound sql fetch_limit) ≡ false
unfolding contains_multiple_statements bound
bound-single sql n h = elim (Bool-cases (can_bound sql)) [
  | inr plain ↦ rw plain h
  | inl wraps ↦
      rw (wraps, inner-trim_end)
        (scan-plain (codes "SELECT * FROM (") _ (omega arith)
          ∙ scan-trim_end (codes "\n) LIMIT " ++ itoa n)
              (All-append (λ c. c ≢ b';') (codes "\n) LIMIT ") (itoa n) (omega arith)
                (itoa-Lacks n))
              (trim_left is_space sql) normal false (scan-trim_left sql h))
]
