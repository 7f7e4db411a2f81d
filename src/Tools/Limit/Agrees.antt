-- ===== src/Tools/Limit/Agrees.antt =====
-- `truncate` and `Shape` make the same cut, and one row more than is shown decides the flag.
use clickhouse_mcp.Prelude.{
  ℕ, zero, suc, ◌≤◌, ◌<◌, Bool, true, false, List, [], ◌∷◌, some, ◌≡◌, ◌↔◌, inl, inr, refl, ap, sym,
  ◌∙◌, arith, ltb, length, take, min, length-take, take-all, pos, Bool-cases,
}
use clickhouse_mcp.Query.Shape.{Truncation, Result, cut, with_rows, shape}
use clickhouse_mcp.Text.{Text}
use clickhouse_mcp.Tools.Limit.{Kept, kept_all, kept_some, truncate}

-- What is shown of a sequence under a limit, and what is said of it.
pub record IsCut {ℓ} {A : Type ℓ} (all : List A) (limit : ℕ) (shown : List A) (t : Truncation)
    : Type ℓ where
  pub shown_is : shown ≡ take limit all
  pub count_is : t.count ≡ min limit (length all)
  pub limit_is : t.limit ≡ pos limit
  pub flag_is : (t.truncated ≡ true) ↔ (limit < length all)

module _ {ℓ} {A : Type ℓ} where
  kept_all-IsCut :
      (items : List A) (n : ℕ) (t : Truncation)
      → length items ≤ n
      → t ≡ record { count = length items; truncated = false; limit = pos n; note = t.note }
      → IsCut items n items t
  kept_all-IsCut items n t h e = record {
    shown_is = sym (take-all n items h);
    count_is = ap (λ (u : Truncation). u.count) e ∙ omega arith;
    limit_is = ap (λ (u : Truncation). u.limit) e;
    flag_is = (λ x. cc (sym x ∙ ap (λ (u : Truncation). u.truncated) e), λ x. absurd (omega arith));
  }

  kept_some-IsCut :
      (items : List A) (n : ℕ) (t : Truncation)
      → n < length items
      → t ≡ record { count = length (take n items); truncated = true; limit = pos n; note = t.note }
      → IsCut items n (take n items) t
  kept_some-IsCut items n t h e = record {
    shown_is = refl;
    count_is = ap (λ (u : Truncation). u.count) e ∙ length-take n items;
    limit_is = ap (λ (u : Truncation). u.limit) e;
    flag_is = (λ x. h, λ x. ap (λ (u : Truncation). u.truncated) e);
  }

  -- Under a positive limit `truncate` does not panic. It keeps the first items up to the limit,
  -- counts them, and sets the flag exactly when there were more.
  pub truncate-IsCut :
      (items : List A) (n : ℕ) (noun : Text)
      → 0 < n
      → (k : Kept A) × (truncate items (pos n) noun ≡ some k) × IsCut items n k.items k.truncation
  unfolding truncate
  truncate-IsCut items n noun h = elim (Bool-cases (ltb n (length items))) [
    | inl more ↦ (
      kept_some (take n items) (pos n) noun,
      rw (positive, more),
      kept_some-IsCut items n _ (ground arith) refl,
    )
    | inr fits ↦
        (kept_all items (pos n), rw (positive, fits), kept_all-IsCut items n _ (ground arith) refl)
  ]
    where
      positive : ltb 0 n ≡ true
      positive = ground arith

  -- What a limit of one more lets through decides the flag as the whole sequence does.
  pub IsCut-sentinel :
      (all : List A) (n : ℕ) (shown : List A) (t : Truncation)
      → IsCut (take (suc n) all) n shown t
      → IsCut all n shown t
  IsCut-sentinel all n shown t h = record {
    shown_is = h.shown_is ∙ take-take n all;
    count_is = omega (arith, h.count_is, length-take (suc n) all);
    limit_is = h.limit_is;
    flag_is = (
      λ x. omega (arith, h.flag_is.0 x, length-take (suc n) all),
      λ x. h.flag_is.1 (omega (arith, length-take (suc n) all)),
    );
  }
    where
      take-take : (n : ℕ) (xs : List A) → take n (take (suc n) xs) ≡ take n xs
      take-take zero xs = refl
      take-take (suc n) [] = refl
      take-take (suc n) (x ∷ xs) = ap (◌∷◌ x) (take-take n xs)

-- `Shape` does not panic under a limit that is not negative. It shows the first rows up to the
-- limit, counts them, sets the flag exactly when there were more, and passes the columns on.
pub shape-IsCut {ℓ} :
    {V : Type ℓ} (columns column_types : List Text) (fetched : List (List V)) (n : ℕ)
    (ordered : Bool)
    → (r : Result V) × (shape columns column_types fetched (pos n) ordered ≡ some r)
      × IsCut fetched n r.rows r.truncation
      × (r.columns ≡ columns)
      × (r.column_types ≡ column_types)
unfolding shape
shape-IsCut columns column_types fetched n ordered = elim (Bool-cases (ltb n (length fetched))) [
  | inl more ↦ (
    with_rows columns column_types (take n fetched) true (pos n) ordered,
    rw more,
    kept_some-IsCut fetched n _ (ground arith) refl,
    refl,
    refl,
  )
  | inr fits ↦ (
    with_rows columns column_types fetched false (pos n) ordered,
    rw fits,
    kept_all-IsCut fetched n _ (ground arith) refl,
    refl,
    refl,
  )
]

-- Of rows that were fetched under `LIMIT n+1`, `Shape` shows the first n of the whole result and
-- counts them, and its flag is set exactly when the whole result holds more than n rows.
pub shape-sentinel {ℓ} :
    {V : Type ℓ} (columns column_types : List Text) (all : List (List V)) (n : ℕ) (ordered : Bool)
    → (r : Result V) × (shape columns column_types (take (suc n) all) (pos n) ordered ≡ some r)
      × IsCut all n r.rows r.truncation
shape-sentinel columns column_types all n ordered =
    let (r, e, cut, _, _) = shape-IsCut columns column_types (take (suc n) all) n ordered in
    (r, e, IsCut-sentinel all n r.rows r.truncation cut)
