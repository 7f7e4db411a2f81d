-- ===== src/Query/Types/Args.antt =====
-- `splitTopLevel` undoes the printing of an argument list.
use clickhouse_mcp.Prelude.{
  ℕ, zero, suc, ◌+◌, ◌-◌, ◌≤◌, Bool, true, false, ◌&&◌, ◌||◌, not, List, [], ◌∷◌, ◌++◌,
  append_assoc, append-nil, ◌≡◌, ◌≢◌, inl, inr, refl, ap, sym, ◌∙◌, arith, ◌==◌, if◌then◌else◌, All,
  Bool-cases, length, length-append, pos, ℤ, up, down, is_zero,
}
use clickhouse_mcp.Query.Types.{depth_after, split_args, split_top_level}
use clickhouse_mcp.Text.{
  Text, codes, equal, equal_iff, join, is_space, trim_space, trim_space_skip, length-trim_space,
}

-- The nesting behind one code point, on a text that closes no paren which it has not opened.
abbrev pub level_after : ℕ → ℕ → ℕ
level_after k c = if c == b'(' then suc k else if c == b')' then k - 1 else k

-- From a nesting of `k`, every paren is matched and every comma stands inside parens.
abbrev pub balances : ℕ → Text → Bool
balances k [] = k == 0
balances k (c ∷ s) = not (k == 0 && (c == b')' || c == b',')) && balances (level_after k c) s

-- One argument of a type: balanced, with no blank at its ends, and not empty.
pub record IsArg (a : Text) : Type 0 where
  pub balanced : balances 0 a ≡ true
  pub trimmed : trim_space a ≡ a
  pub not_nil : a ≢ []

depth_after-pos :
    (k c : ℕ)
    → (k == 0 && (c == b')' || c == b',')) ≡ false
    → depth_after (pos k) c ≡ pos (level_after k c)
unfolding depth_after up down
depth_after-pos zero c h = ground arith
depth_after-pos (suc k) c h = ground arith

split_args-cons :
    (k c : ℕ) (cur s : Text)
    → (k == 0 && (c == b')' || c == b',')) ≡ false
    → split_args (pos k) cur (c ∷ s) ≡ split_args (pos (level_after k c)) (cur ++ c ∷ []) s
split_args-cons k c cur s h =
    rw (← depth_after-pos k c h) (unfold split_args is_zero in ground arith)

split_args-balances :
    (a : Text) (k : ℕ) (cur rest : Text)
    → balances k a ≡ true
    → split_args (pos k) cur (a ++ rest) ≡ split_args (pos 0) (cur ++ a) rest
split_args-balances [] k cur rest h = let e : k ≡ 0 = ground arith in rw (e, append-nil)
split_args-balances (c ∷ a) k cur rest h =
    split_args-cons k c cur (a ++ rest) (ground arith)
    ∙ split_args-balances a (level_after k c) (cur ++ c ∷ []) rest (ground arith)
    ∙ ap (λ t. split_args (pos 0) t rest) (append_assoc cur (c ∷ []) a)

-- What stands between two commas is the argument, with or without a blank in front.
abbrev Leads : Text → Text → Type 0
Leads cur a = trim_space (cur ++ a) ≡ a

split_args-last : (cur a : Text) → IsArg a → Leads cur a → split_args (pos 0) cur a ≡ a ∷ []
split_args-last cur a h lead =
    ap (split_args (pos 0) cur) (sym (append-nil a))
    ∙ split_args-balances a 0 cur [] h.balanced
    ∙ ends
  where
    nonempty : equal a [] ≡ false
    nonempty = elim (Bool-cases (equal a [])) [
      | inl e ↦ absurd (h.not_nil ((equal_iff a []).0 e))
      | inr e ↦ e
    ]

    ends : split_args (pos 0) (cur ++ a) [] ≡ a ∷ []
    ends = unfold split_args in rw (lead, nonempty)

split_args-comma :
    (cur a s : Text)
    → IsArg a
    → Leads cur a
    → split_args (pos 0) cur (a ++ b',' ∷ s) ≡ a ∷ split_args (pos 0) [] s
split_args-comma cur a s h lead = split_args-balances a 0 cur (b',' ∷ s) h.balanced ∙ cuts
  where
    cuts : split_args (pos 0) (cur ++ a) (b',' ∷ s) ≡ a ∷ split_args (pos 0) [] s
    cuts = unfold split_args is_zero depth_after in rw lead

split_args-blank : (s : Text) → split_args (pos 0) [] (b' ' ∷ s) ≡ split_args (pos 0) (b' ' ∷ []) s
unfolding split_args is_zero depth_after
split_args-blank s = refl

split_args-join :
    (t : Text) (ts : List Text) (cur : Text)
    → IsArg t
    → All IsArg ts
    → Leads cur t
    → split_args (pos 0) cur (join (codes ", ") (t ∷ ts)) ≡ t ∷ ts
split_args-join t [] cur h _ lead = unfold join in split_args-last cur t h lead
split_args-join t (u ∷ ts) cur h (hu, hs) lead = glued (
    split_args-join u ts (b' ' ∷ []) hu hs
      (trim_space_skip b' ' u (unfold is_space in refl) ∙ hu.trimmed))
  where
    glued :
        split_args (pos 0) (b' ' ∷ []) (join (codes ", ") (u ∷ ts)) ≡ u ∷ ts
        → split_args (pos 0) cur (join (codes ", ") (t ∷ u ∷ ts)) ≡ t ∷ u ∷ ts
    glued later =
        unfold join in
        split_args-comma cur t (b' ' ∷ join (codes ", ") (u ∷ ts)) h lead
        ∙ ap (◌∷◌ t) (split_args-blank (join (codes ", ") (u ∷ ts)) ∙ later)

-- A list of type arguments, printed with commas between them, splits into the same arguments,
-- whatever arguments of their own these have; each is balanced, trimmed and not empty.
pub split_top_level-join :
    (ts : List Text) → All IsArg ts → split_top_level (join (codes ", ") ts) ≡ ts
unfolding split_top_level
split_top_level-join [] h = unfold split_args join trim_space equal in refl
split_top_level-join (t ∷ ts) (h, hs) = split_args-join t ts [] h hs h.trimmed

-- No part is longer than the list.
split_args-length :
    (n : ℕ) (depth : ℤ) (cur s : Text)
    → length cur + length s ≤ n
    → All (λ a. length a ≤ n) (split_args depth cur s)
unfolding split_args
split_args-length n depth cur [] h = elim (Bool-cases (equal (trim_space cur) [])) [
  | inl e ↦ rw e tt
  | inr e ↦ rw e (omega (arith, length-trim_space cur), tt)
]
split_args-length n depth cur (c ∷ s) h =
    by_cut (c == b',' && is_zero depth)
      (λ t fits. split_args-length n (depth_after depth c) t s fits)
  where
    longer : length (cur ++ c ∷ []) + length s ≤ n
    longer = omega (arith, length-append cur (c ∷ []))

    by_cut :
        (cuts : Bool)
        → ((t : Text)
            → length t + length s ≤ n
            → All (λ a. length a ≤ n) (split_args (depth_after depth c) t s))
        → All
            (λ a. length a ≤ n)
            (if cuts
              then trim_space cur
                ∷ split_args (depth_after depth c) (if cuts then [] else cur ++ c ∷ []) s
              else split_args (depth_after depth c) (if cuts then [] else cur ++ c ∷ []) s)
    by_cut true ih = (omega (arith, length-trim_space cur), ih [] (omega arith))
    by_cut false ih = ih (cur ++ c ∷ []) longer

pub split_top_level-length :
    (args : Text) → All (λ a. length a ≤ length args) (split_top_level args)
unfolding split_top_level
split_top_level-length args = split_args-length (length args) (pos 0) [] args (omega arith)
