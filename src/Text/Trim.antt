-- ===== src/Text/Trim.antt =====
-- Laws of the trimming functions.
use clickhouse_mcp.Prelude.{
  ℕ, ◌≤◌, Bool, true, false, [], ◌∷◌, ◌++◌, ◌≡◌, ◌≢◌, ◌⊎◌, inl, inr, refl, ap, ◌∙◌, sym, subst,
  arith, length, All,
}
use clickhouse_mcp.Text.Defs.{Text, trim_left, trim_right, keep_right, trim_space, is_space}

module _ (p : ℕ → Bool) where
  keep_right-cases :
      (c : ℕ) (s : Text)
      → (keep_right p c s ≡ c ∷ s) ⊎ ((keep_right p c s ≡ []) × (s ≡ []) × (p c ≡ true))
  unfolding keep_right
  keep_right-cases c [] = ground arith
  keep_right-cases c (d ∷ s) = inl refl

  -- The last code points that pass go, and the text in front of them stays.
  pub trim_right-cons :
      (c : ℕ) (s : Text)
      → (trim_right p (c ∷ s) ≡ c ∷ trim_right p s)
        ⊎ ((trim_right p (c ∷ s) ≡ []) × (trim_right p s ≡ []) × (p c ≡ true))
  unfolding trim_right
  trim_right-cons c s = keep_right-cases c (trim_right p s)

  pub trim_right_stop : (c : ℕ) (s : Text) → p c ≡ false → trim_right p (c ∷ s) ≡ c ∷ trim_right p s
  trim_right_stop c s h = elim (trim_right-cons c s) [ inl e ↦ e | inr (_, _, t) ↦ cc ]

  pub trim_right-cons_none :
      (c : ℕ) (s : Text) → p c ≡ true → trim_right p s ≡ [] → trim_right p (c ∷ s) ≡ []
  unfolding trim_right keep_right
  trim_right-cons_none c s h e = rw (e, h)

  pub length-trim_right : (s : Text) → length (trim_right p s) ≤ length s
  length-trim_right [] = unfold trim_right in omega arith
  length-trim_right (c ∷ s) = elim (trim_right-cons c s) [
    | inl e ↦ rw e (omega (arith, length-trim_right s))
    | inr (e, _, _) ↦ rw e (omega arith)
  ]

  pub length-trim_left : (s : Text) → length (trim_left p s) ≤ length s
  unfolding trim_left
  length-trim_left [] = omega arith
  length-trim_left (c ∷ s) = ground (arith, length-trim_left s)

  pub trim_right_idem : (s : Text) → trim_right p (trim_right p s) ≡ trim_right p s
  trim_right_idem [] = unfold trim_right in refl
  trim_right_idem (c ∷ s) = elim (trim_right-cons c s) [
    | inl e ↦ elim (trim_right-cons c (trim_right p s)) [
      | inl f ↦ rw (e, f, trim_right_idem s) refl
      | inr (f, g, h) ↦
          let empty : trim_right p s ≡ [] = sym (trim_right_idem s) ∙ g in
          let gone = trim_right-cons_none c s h empty in rw gone (unfold trim_right in refl)
    ]
    | inr (e, _, _) ↦ rw e (unfold trim_right in refl)
  ]

  -- The two sides are trimmed in either order.
  pub trim_left-trim_right :
      (s : Text) → trim_left p (trim_right p s) ≡ trim_right p (trim_left p s)
  unfolding trim_left trim_right keep_right
  trim_left-trim_right [] = refl
  trim_left-trim_right (c ∷ s) = ground (arith, trim_left-trim_right s)

  pub trim_right-append :
      (a b : Text) → trim_right p b ≢ [] → trim_right p (a ++ b) ≡ a ++ trim_right p b
  trim_right-append [] b h = refl
  trim_right-append (c ∷ a) b h = elim (trim_right-cons c (a ++ b)) [
    | inl e ↦ e ∙ ap (◌∷◌ c) (trim_right-append a b h)
    | inr (_, e, _) ↦ absurd (h (append_nil a (sym (trim_right-append a b h) ∙ e)))
  ]
    where
      append_nil : (a : Text) → a ++ trim_right p b ≡ [] → trim_right p b ≡ []
      append_nil [] e = e
      append_nil (d ∷ a) e = cc

  pub trim_right-append_none :
      (a b : Text) → trim_right p b ≡ [] → trim_right p (a ++ b) ≡ trim_right p a
  unfolding trim_right
  trim_right-append_none [] b h = h
  trim_right-append_none (c ∷ a) b h = ap (keep_right p c) (trim_right-append_none a b h)

  pub trim_right-trim_left_none :
      (s : Text) → trim_right p (trim_left p s) ≡ [] → trim_right p s ≡ []
  unfolding trim_left trim_right keep_right
  trim_right-trim_left_none [] h = refl
  trim_right-trim_left_none (c ∷ s) h = ground (arith, trim_right-trim_left_none s)

  pub trim_left-none : (s : Text) → trim_right p s ≡ [] → trim_left p s ≡ []
  unfolding trim_left trim_right keep_right
  trim_left-none [] h = refl
  trim_left-none (c ∷ s) h = ground (arith, trim_left-none s)

pub length-trim_space : (s : Text) → length (trim_space s) ≤ length s
unfolding trim_space
length-trim_space s =
    omega (arith, length-trim_right is_space (trim_left is_space s), length-trim_left is_space s)

-- A blank text has no code point but spaces.
pub trim_space-nil : (s : Text) → trim_space s ≡ [] → trim_right is_space s ≡ []
unfolding trim_space
trim_space-nil s h = trim_right-trim_left_none is_space s h

pub trim_space_of_nil : (s : Text) → trim_right is_space s ≡ [] → trim_space s ≡ []
unfolding trim_space trim_right
trim_space_of_nil s h = ap (trim_right is_space) (trim_left-none is_space s h)

pub trim_space-trim_right : (s : Text) → trim_space (trim_right is_space s) ≡ trim_space s
unfolding trim_space
trim_space-trim_right s = rw trim_left-trim_right (trim_right_idem is_space (trim_left is_space s))

pub trim_space_skip : (c : ℕ) (s : Text) → is_space c ≡ true → trim_space (c ∷ s) ≡ trim_space s
unfolding trim_space trim_left
trim_space_skip c s h = rw h

pub trim_space_stop :
    (c : ℕ) (s : Text) → is_space c ≡ false → trim_space (c ∷ s) ≡ c ∷ trim_right is_space s
unfolding trim_space trim_left
trim_space_stop c s h = rw h (trim_right_stop is_space c s h)

-- In front of a code point that stays, everything stays.
pub trim_right-append_stop :
    (p : ℕ → Bool) (a : Text) (c : ℕ) (s : Text)
    → p c ≡ false
    → trim_right p (a ++ c ∷ s) ≡ a ++ c ∷ trim_right p s
trim_right-append_stop p a c s h =
    let stays = trim_right_stop p c s h in
    trim_right-append p a (c ∷ s) (λ e. cc (sym stays ∙ e)) ∙ ap (◌++◌ a) stays

pub trim_right-All {κ} :
    (P : ℕ → Type κ) (p : ℕ → Bool) (s : Text) → All P s → All P (trim_right p s)
trim_right-All P p [] h = unfold trim_right in h
trim_right-All P p (c ∷ s) (hc, hs) = elim (trim_right-cons p c s) [
  | inl e ↦ subst (All P) (sym e) (hc, trim_right-All P p s hs)
  | inr (e, _, _) ↦ subst (All P) (sym e) tt
]

module _ (p : ℕ → Bool) where
  pub trim_left_idem : (s : Text) → trim_left p (trim_left p s) ≡ trim_left p s
  unfolding trim_left
  trim_left_idem [] = refl
  trim_left_idem (c ∷ s) = ground (arith, trim_left_idem s)

  -- A text that begins with no blank still does so when it is trimmed on the right.
  pub trim_left-trim_right_fix :
      (q : ℕ → Bool) (s : Text) → trim_left p s ≡ s → trim_left p (trim_right q s) ≡ trim_right q s
  trim_left-trim_right_fix q [] h = unfold trim_right in h
  trim_left-trim_right_fix q (c ∷ s) h = elim (trim_right-cons q c s) [
    | inl e ↦ rw e (unfold trim_left in ground (arith, head_stays h))
    | inr (e, _, _) ↦ rw e (unfold trim_left in refl)
  ]
    where
      head_stays : trim_left p (c ∷ s) ≡ c ∷ s → p c ≡ false
      head_stays e = unfold trim_left in ground (arith, ap length e, length-trim_left p s)
