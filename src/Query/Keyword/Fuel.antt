-- ===== src/Query/Keyword/Fuel.antt =====
-- The loop of `leadingKeyword` ends: every round drops a code point.
use clickhouse_mcp.Prelude.{
  ℕ, zero, suc, ◌+◌, ◌-◌, ◌<◌, true, [], ◌∷◌, Bool-cases, inl, inr, Option, none, some, ◌≡◌, refl,
  arith, length, drop,
}
use clickhouse_mcp.Query.Keyword.{
  Round, again, blank, word, round, resume, on_round, find_keyword, or_empty, leading_keyword,
}
use clickhouse_mcp.Text.{
  Text, codes, starts_with, after, after-shrinks, trim_space, length-trim_space,
}

resume-shrinks :
    (n : ℕ) (o : Option Text) (rest : Text)
    → ((r : Text) → o ≡ some r → length r < n)
    → resume o ≡ again rest
    → length rest < n
unfolding resume
resume-shrinks n none rest h e = absurd (cc)
resume-shrinks n (some r) rest h e = ground (arith, h r refl, length-trim_space r)

drop_one-shrinks :
    (b : ℕ) (x s : Text) → starts_with (b ∷ x) s ≡ true → length (drop 1 s) < length s
unfolding starts_with
drop_one-shrinks b x [] h = absurd (cc)
drop_one-shrinks b x (c ∷ s) h = omega arith

round-shrinks : (s rest : Text) → round s ≡ again rest → length rest < length s
unfolding round
round-shrinks s rest e = elim (Bool-cases (starts_with (codes "--") s)) [
  | inl line ↦
      resume-shrinks (length s) (after (codes "\n") s) rest (after-shrinks b'\n' [] s)
        (ground arith)
  | inr code ↦ elim (Bool-cases (starts_with (codes "/*") s)) [
    | inl block ↦
        resume-shrinks (length s) (after (codes "*/") s) rest (after-shrinks b'*' (codes "/") s)
          (ground arith)
    | inr open_paren ↦ ground (arith, drop_one-shrinks b'(' [] s, length-trim_space (drop 1 s))
  ]
]

find_keyword_total :
    (fuel : ℕ) (s : Text) → length s < fuel → (w : Text) × (find_keyword fuel s ≡ some w)
unfolding find_keyword
find_keyword_total zero s h = absurd (omega arith)
find_keyword_total (suc fuel) s h =
    by_round (round s) (λ r e. find_keyword_total fuel r (omega (arith, round-shrinks s r e)))
  where
    by_round :
        (o : Round)
        → ((r : Text) → o ≡ again r → (w : Text) × (find_keyword fuel r ≡ some w))
        → (w : Text) × (on_round (find_keyword fuel) o ≡ some w)
    by_round (again r) ih = ih r refl
    by_round blank ih = ([], refl)
    by_round (word w) ih = (w, refl)

-- One more unit of fuel changes no answer.
find_keyword_more :
    (fuel : ℕ) (s w : Text) → find_keyword fuel s ≡ some w → find_keyword (suc fuel) s ≡ some w
unfolding find_keyword
find_keyword_more zero s w h = absurd (cc)
find_keyword_more (suc fuel) s w h = by_round (round s) (λ r. find_keyword_more fuel r w) h
  where
    by_round :
        (o : Round)
        → ((r : Text) → find_keyword fuel r ≡ some w → find_keyword (suc fuel) r ≡ some w)
        → on_round (find_keyword fuel) o ≡ some w
        → on_round (find_keyword (suc fuel)) o ≡ some w
    by_round (again r) ih e = ih r e
    by_round blank ih e = e
    by_round (word v) ih e = e

find_keyword_enough :
    (extra fuel : ℕ) (s w : Text)
    → find_keyword fuel s ≡ some w
    → (big : ℕ) → big ≡ extra + fuel
    → find_keyword big s ≡ some w
find_keyword_enough zero fuel s w h big e = let same : big ≡ fuel = omega arith in rw same h
find_keyword_enough (suc extra) fuel s w h big e =
    let same : big ≡ suc (extra + fuel) = omega arith in
    rw same (find_keyword_more (extra + fuel) s w (find_keyword_enough extra fuel s w h _ refl))

-- The keyword of a text that is trimmed already.
abbrev pub keyword_of : Text → Text
keyword_of s = or_empty (find_keyword (suc (length s)) s)

find_keyword-keyword_of : (s : Text) → find_keyword (suc (length s)) s ≡ some (keyword_of s)
find_keyword-keyword_of s =
    let (w, e) = find_keyword_total (suc (length s)) s (omega arith) in
    rw e (unfold or_empty in refl)

-- The loop ends, and its answer is `leading_keyword`: so it is on any fuel above the length of
-- the trimmed text, and the answer for want of fuel never shows.
pub find_keyword-leading_keyword :
    (sql : Text) (fuel : ℕ)
    → length (trim_space sql) < fuel
    → find_keyword fuel (trim_space sql) ≡ some (leading_keyword sql)
unfolding leading_keyword
find_keyword-leading_keyword sql fuel h =
    let s = trim_space sql in
    find_keyword_enough (fuel - suc (length s)) (suc (length s)) s _ (find_keyword-keyword_of s)
      fuel (omega arith)

-- A round that goes on hands its keyword over.
pub keyword_of_again : (s rest : Text) → round s ≡ again rest → keyword_of s ≡ keyword_of rest
keyword_of_again s rest e =
    let shorter = round-shrinks s rest e in
    let later =
      find_keyword_enough (length s - suc (length rest)) (suc (length rest)) rest _
        (find_keyword-keyword_of rest) (length s) (omega arith) in
    unfold find_keyword or_empty in rw (e, later)
