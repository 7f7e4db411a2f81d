-- ===== src/Query/Serialize/Safe.antt =====
-- What `ToJSONValue` guarantees about the numbers in its result.
use clickhouse_mcp.Prelude.{
  ℕ, suc, ◌^◌, ◌≤◌, ◌<◌, false, List, [], ◌∷◌, ◌≡◌, inl, inr, arith, ℤ, pos, negsuc, All,
  Bool-cases,
}
use clickhouse_mcp.Query.Serialize.{
  Foreign, Value, Values, Entries, Json, Items, Members, MapTypes, finite_or_null, has_member,
  write, byte_items, to_json_value, values_json, entries_json, float64, float32, bytes, variant,
  json, pointer, slice, dict, int, none_left, value, no_entry, entry, null, text, number, float,
  truth, array, object, opaque, no_item, item, no_member, member,
}
use clickhouse_mcp.Text.{Text}

abbrev pub magnitude : ℤ → ℕ
magnitude (pos n) = n
magnitude (negsuc n) = suc n

-- The integers up to this one are the ones that a JSON number holds without loss.
abbrev pub max_exact : ℕ
max_exact = 2 ^ 53

module _ (f : Foreign) where
  -- Every floating-point number is finite, and every integer is one that a JSON number can hold.
  abbrev mutual
    pub IsSafe : Json f → Type 0
    IsSafe null = Unit
    IsSafe (text s) = Unit
    IsSafe (number n) = magnitude n ≤ max_exact
    IsSafe (float x) = (f.is_inf x ≡ false) × (f.is_nan x ≡ false)
    IsSafe (truth b) = Unit
    IsSafe (array is) = SafeItems is
    IsSafe (object ms) = SafeMembers ms
    IsSafe (opaque o) = Unit

    pub SafeItems : Items f → Type 0
    SafeItems no_item = Unit
    SafeItems (item j is) = IsSafe j × SafeItems is

    pub SafeMembers : Members f → Type 0
    SafeMembers no_member = Unit
    SafeMembers (member k j ms) = IsSafe j × SafeMembers ms

  -- No `int` kind of the value is out of that range; other kinds are not restricted.
  abbrev mutual
    pub IsSmall : Value f → Type 0
    IsSmall (int n) = magnitude n ≤ max_exact
    IsSmall (bytes bs) = All (λ b. b < 256) bs
    IsSmall (variant v) = IsSmall v
    IsSmall (json es) = SmallEntries es
    IsSmall (pointer v) = IsSmall v
    IsSmall (slice vs) = SmallValues vs
    IsSmall (dict es) = SmallEntries es
    IsSmall _ = Unit

    pub SmallValues : Values f → Type 0
    SmallValues none_left = Unit
    SmallValues (value v vs) = IsSmall v × SmallValues vs

    pub SmallEntries : Entries f → Type 0
    SmallEntries no_entry = Unit
    SmallEntries (entry k v es) = IsSmall v × SmallEntries es

  finite_or_null-IsSafe : (x : f.Float64) → IsSafe (finite_or_null f x)
  unfolding finite_or_null
  finite_or_null-IsSafe x = elim (Bool-cases (f.is_inf x)) [
    | inl inf ↦ rw inf tt
    | inr not_inf ↦ elim (Bool-cases (f.is_nan x)) [
      | inl nan ↦ rw (not_inf, nan) tt
      | inr not_nan ↦ rw (not_inf, not_nan) (not_inf, not_nan)
    ]
  ]

  byte_items-Safe : (bs : List ℕ) → All (λ b. b < 256) bs → SafeItems (byte_items f bs)
  unfolding byte_items
  byte_items-Safe [] h = tt
  byte_items-Safe (b ∷ bs) (hb, hs) = (omega arith, byte_items-Safe bs hs)

  write-Safe :
      (key : Text) (j : Json f) (ms : Members f)
      → IsSafe j
      → SafeMembers ms
      → SafeMembers (write f key j ms)
  unfolding write
  write-Safe key j ms hj hs = elim (Bool-cases (has_member f key ms)) [
    | inl old ↦ rw old hs
    | inr new ↦ rw new (hj, hs)
  ]

  mutual
    unfolding to_json_value

    value-IsSafe : (v : Value f) (t : Text) → IsSmall v → IsSafe (to_json_value f v t)
    value-IsSafe (float64 x) t h = finite_or_null-IsSafe x
    value-IsSafe (float32 x) t h = finite_or_null-IsSafe (f.widen x)
    value-IsSafe (bytes bs) t h = byte_items-Safe bs h
    value-IsSafe (variant v) t h = value-IsSafe v _ h
    value-IsSafe (json es) t h = entries-SafeMembers es _ h
    value-IsSafe (pointer v) t h = value-IsSafe v _ h
    value-IsSafe (slice vs) t h = values-SafeItems vs _ _ h
    value-IsSafe (dict es) t h = entries-SafeMembers es _ h
    value-IsSafe (int n) t h = h
    value-IsSafe _ t h = tt

    values-SafeItems :
        (vs : Values f) (ts : List Text) (inner : Text)
        → SmallValues vs
        → SafeItems (values_json f vs ts inner)
    values-SafeItems none_left ts inner h = tt
    values-SafeItems (value v vs) [] inner (hv, hs) =
        (value-IsSafe v inner hv, values-SafeItems vs [] inner hs)
    values-SafeItems (value v vs) (t ∷ ts) inner (hv, hs) =
        (value-IsSafe v _ hv, values-SafeItems vs ts inner hs)

    entries-SafeMembers :
        (es : Entries f) (types : MapTypes)
        → SmallEntries es
        → SafeMembers (entries_json f es types)
    entries-SafeMembers no_entry types h = tt
    entries-SafeMembers (entry k v es) types (hv, hs) =
        write-Safe _ _ _ (value-IsSafe v _ hv) (entries-SafeMembers es types hs)

  -- Whatever is nested in a value whose `int` kinds lie within 2^53, its JSON form has no
  -- infinite or NaN float and no integer that a JSON number cannot hold.
  pub to_json_value-IsSafe :
      (v : Value f) (db_type : Text) → IsSmall v → IsSafe (to_json_value f v db_type)
  to_json_value-IsSafe v t h = value-IsSafe v t h

  -- An `int` kind beyond 2^53, as an Int64 column may hold, becomes a JSON number all the same.
  pub to_json_value-int_unsafe :
      (n : ℤ) (db_type : Text)
      → max_exact < magnitude n
      → ¬ IsSafe (to_json_value f (int n) db_type)
  unfolding to_json_value
  to_json_value-int_unsafe n t h safe = omega arith
