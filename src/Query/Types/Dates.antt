-- ===== src/Query/Types/Dates.antt =====
-- `isDateOnly`: the loop ends, and a one-argument wrapper of a date is a date.
use clickhouse_mcp.Prelude.{
  ℕ, zero, suc, ◌+◌, ◌-◌, ◌≤◌, ◌<◌, Bool, List, [], ◌∷◌, Option, none, some, ◌≡◌, ◌⊎◌, inl, inr,
  refl, arith, All, Bool-cases, length,
}
use clickhouse_mcp.Query.Types.Args.{split_top_level-length}
use clickhouse_mcp.Query.Types.{
  drop_last, type_name_of, type_name, split_args, split_top_level, has_own_args, last_or, only_arg,
  second_arg, elem_type, DateRound, done, unwrap, date_round, on_date_round, date_loop, or_false,
  is_date_only,
}
use clickhouse_mcp.Text.{
  Text, codes, equal, equal_iff, trim_space, length-trim_space, after, after-shrinks, ends_with,
}

length-drop_last : (s : Text) → length (drop_last s) ≤ length s
unfolding drop_last
length-drop_last [] = omega arith
length-drop_last (c ∷ []) = omega arith
length-drop_last (c ∷ d ∷ s) = omega (arith, length-drop_last (d ∷ s))

type_name_of-args :
    (t : Text) (o : Option Text)
    → ((r : Text) → o ≡ some r → length r < length t)
    → ((type_name_of t o).args ≡ []) ⊎ (length (type_name_of t o).args < length t)
unfolding type_name_of
type_name_of-args t none h = inl refl
type_name_of-args t (some r) h = elim (Bool-cases (ends_with (codes ")") t)) [
  | inl e ↦ inr (rw e (omega (arith, length-drop_last r, h r refl)))
  | inr e ↦ inl (rw e)
]

type_name-args : (t : Text) → ((type_name t).args ≡ []) ⊎ (length (type_name t).args < length t)
unfolding type_name
type_name-args t =
    let u = trim_space t in
    elim (type_name_of-args u (after (codes "(") u) (after-shrinks b'(' [] u)) [
      | inl e ↦ inl e
      | inr h ↦ inr (omega (arith, length-trim_space t))
    ]

-- One of the arguments, or the type itself.
abbrev Shrinks : Text → Text → Type 0
Shrinks t u = (u ≡ t) ⊎ (length u < length t)

last_or-All : (P : Text → Type 0) (d : Text) (ts : List Text) → P d → All P ts → P (last_or d ts)
unfolding last_or
last_or-All P d [] h _ = h
last_or-All P d (t ∷ ts) h (ht, hs) = last_or-All P t ts ht hs

only_arg-Shrinks :
    (t : Text) (ts : List Text) → All (λ a. length a < length t) ts → Shrinks t (only_arg t ts)
unfolding only_arg
only_arg-Shrinks t [] h = inl refl
only_arg-Shrinks t (u ∷ []) h = inr h.0
only_arg-Shrinks t (u ∷ v ∷ ts) h = inl refl

second_arg-Shrinks :
    (t : Text) (ts : List Text) → All (λ a. length a < length t) ts → Shrinks t (second_arg t ts)
unfolding second_arg
second_arg-Shrinks t [] h = inl refl
second_arg-Shrinks t (u ∷ []) h = inl refl
second_arg-Shrinks t (u ∷ v ∷ ts) (hu, (hv, hs)) =
    inr (last_or-All (λ a. length a < length t) v ts hv hs)

All-weaken :
    (m n : ℕ) (ts : List Text)
    → m < n
    → All (λ (a : Text). length a ≤ m) ts
    → All (λ (a : Text). length a < n) ts
All-weaken m n [] h _ = tt
All-weaken m n (t ∷ ts) h (ht, hs) = (omega arith, All-weaken m n ts h hs)

args-shrink : (t : Text) → All (λ a. length a < length t) (split_top_level (type_name t).args)
args-shrink t = elim (type_name-args t) [
  | inl e ↦ rw e (unfold split_top_level split_args trim_space equal in tt)
  | inr h ↦ All-weaken _ (length t) _ h (split_top_level-length (type_name t).args)
]

elem_type-Shrinks : (t : Text) → Shrinks t (elem_type t)
unfolding elem_type
elem_type-Shrinks t = elim (Bool-cases (has_own_args (type_name t).name)) [
  | inl e ↦ inl (rw e)
  | inr e ↦ elim (Bool-cases (equal (type_name t).name (codes "SimpleAggregateFunction"))) [
    | inl f ↦ rw (e, f) (second_arg-Shrinks t _ (args-shrink t))
    | inr f ↦ rw (e, f) (only_arg-Shrinks t _ (args-shrink t))
  ]
]

date_round-shrinks : (t u : Text) → date_round t ≡ unwrap u → length u < length t
unfolding date_round
date_round-shrinks t u h = elim (elem_type-Shrinks t) [
  | inl same ↦ ground (arith, equal_iff (elem_type t) t)
  | inr less ↦ ground (arith, length-trim_space (elem_type t))
]

date_loop_total : (fuel : ℕ) (t : Text) → length t < fuel → (b : Bool) × (date_loop fuel t ≡ some b)
unfolding date_loop
date_loop_total zero t h = absurd (omega arith)
date_loop_total (suc fuel) t h =
    by_round (date_round t)
      (λ u e. date_loop_total fuel u (omega (arith, date_round-shrinks t u e)))
  where
    by_round :
        (o : DateRound)
        → ((u : Text) → o ≡ unwrap u → (b : Bool) × (date_loop fuel u ≡ some b))
        → (b : Bool) × (on_date_round (date_loop fuel) o ≡ some b)
    by_round (unwrap u) ih = ih u refl
    by_round (done b) ih = (b, refl)

date_loop_more :
    (fuel : ℕ) (t : Text) (b : Bool) → date_loop fuel t ≡ some b → date_loop (suc fuel) t ≡ some b
unfolding date_loop
date_loop_more zero t b h = absurd (cc)
date_loop_more (suc fuel) t b h = by_round (date_round t) (λ u. date_loop_more fuel u b) h
  where
    by_round :
        (o : DateRound)
        → ((u : Text) → date_loop fuel u ≡ some b → date_loop (suc fuel) u ≡ some b)
        → on_date_round (date_loop fuel) o ≡ some b
        → on_date_round (date_loop (suc fuel)) o ≡ some b
    by_round (unwrap u) ih e = ih u e
    by_round (done c) ih e = e

date_loop_enough :
    (extra fuel : ℕ) (t : Text) (b : Bool)
    → date_loop fuel t ≡ some b
    → (big : ℕ) → big ≡ extra + fuel
    → date_loop big t ≡ some b
date_loop_enough zero fuel t b h big e = let same : big ≡ fuel = omega arith in rw same h
date_loop_enough (suc extra) fuel t b h big e =
    let same : big ≡ suc (extra + fuel) = omega arith in
    rw same (date_loop_more (extra + fuel) t b (date_loop_enough extra fuel t b h _ refl))

-- The answer of the loop on a trimmed type.
abbrev pub date_of : Text → Bool
date_of t = or_false (date_loop (suc (length t)) t)

date_loop-date_of : (t : Text) → date_loop (suc (length t)) t ≡ some (date_of t)
date_loop-date_of t =
    let (b, e) = date_loop_total (suc (length t)) t (omega arith) in rw e (unfold or_false in refl)

-- The loop ends, and its answer is `is_date_only`, on any fuel above the length of the trimmed
-- type; so the answer for want of fuel never shows.
pub date_loop-is_date_only :
    (db_type : Text) (fuel : ℕ)
    → length (trim_space db_type) < fuel
    → date_loop fuel (trim_space db_type) ≡ some (is_date_only db_type)
unfolding is_date_only
date_loop-is_date_only db_type fuel h =
    let t = trim_space db_type in
    date_loop_enough (fuel - suc (length t)) (suc (length t)) t _ (date_loop-date_of t) fuel
      (omega arith)

pub date_of_unwrap : (t u : Text) → date_round t ≡ unwrap u → date_of t ≡ date_of u
date_of_unwrap t u e =
    let less = date_round-shrinks t u e in
    let later =
      date_loop_enough (length t - suc (length u)) (suc (length u)) u _ (date_loop-date_of u)
        (length t) (omega arith) in
    unfold date_loop or_false on_date_round in rw (e, later)
