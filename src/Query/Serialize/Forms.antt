-- ===== src/Query/Serialize/Forms.antt =====
-- The JSON type that `ToJSONValue` gives a value of each Go type.
use clickhouse_mcp.Prelude.{
  ℕ, true, false, List, [], ◌∷◌, ◌≡◌, refl, ◌⊎◌, inl, inr, pos, ◌||◌, Bool-cases,
}
use clickhouse_mcp.Query.Serialize.{
  Foreign, Value, Values, Entries, Key, Json, Items, Members, MapTypes, finite_or_null, has_member,
  write, byte_items, map_key_string, to_json_value, values_json, entries_json, nil, uint64, big_int,
  big_nil, decimal, float64, float32, uuid, address, time, bytes, variant_nil, variant, json,
  pointer_nil, pointer, slice, dict, string, int, bool, other, none_left, value, no_entry, entry,
  null, text, number, float, truth, array, object, opaque, no_item, item, no_member, member,
}
use clickhouse_mcp.Text.{Text}

module _ (f : Foreign) where
  abbrev IsText : Json f → Type 0
  IsText j = (s : Text) × (j ≡ text s)

  abbrev IsFloat : f.Float64 → Json f → Type 0
  IsFloat x j =
      ((f.is_inf x || f.is_nan x ≡ true) × (j ≡ null))
      ⊎ ((f.is_inf x || f.is_nan x ≡ false) × (j ≡ float x))

  -- One number for each byte.
  abbrev BytesOf : List ℕ → Items f → Type 0
  BytesOf [] is = is ≡ no_item
  BytesOf (b ∷ bs) is = (rest : Items f) × (is ≡ item (number (pos b)) rest) × BytesOf bs rest

  -- A nil is null; an integer of 64 bits without a sign or of more bits, a decimal, an identifier,
  -- an address, a time and a string are texts; a float is itself, or null where it is infinite or
  -- NaN; a list is an array and a map is an object.
  abbrev mutual
    pub HasForm : Value f → Json f → Type 0
    HasForm nil j = j ≡ null
    HasForm (uint64 n) j = IsText j
    HasForm (big_int n) j = IsText j
    HasForm big_nil j = j ≡ null
    HasForm (decimal d) j = IsText j
    HasForm (float64 x) j = IsFloat x j
    HasForm (float32 x) j = IsFloat (f.widen x) j
    HasForm (uuid u) j = IsText j
    HasForm (address a) j = IsText j
    HasForm (time t) j = IsText j
    HasForm (bytes bs) j = (is : Items f) × (j ≡ array is) × BytesOf bs is
    HasForm variant_nil j = j ≡ null
    HasForm (variant v) j = HasForm v j
    HasForm (json es) j =
        (ms : Members f) × (key_type : Text) × (j ≡ object ms) × MembersOf key_type es ms
    HasForm pointer_nil j = j ≡ null
    HasForm (pointer v) j = HasForm v j
    HasForm (slice vs) j = (is : Items f) × (j ≡ array is) × ItemsOf vs is
    HasForm (dict es) j =
        (ms : Members f) × (key_type : Text) × (j ≡ object ms) × MembersOf key_type es ms
    HasForm (string s) j = j ≡ text s
    HasForm (int n) j = j ≡ number n
    HasForm (bool b) j = j ≡ truth b
    HasForm (other o) j = j ≡ opaque o

    -- One item for each element, in their order.
    pub ItemsOf : Values f → Items f → Type 0
    ItemsOf none_left is = is ≡ no_item
    ItemsOf (value v vs) is =
        (j : Json f) × (rest : Items f) × (is ≡ item j rest) × HasForm v j × ItemsOf vs rest

    -- One member for each name that the keys print, with the value of the last key that prints it.
    pub MembersOf : Text → Entries f → Members f → Type 0
    MembersOf key_type no_entry ms = ms ≡ no_member
    MembersOf key_type (entry k v es) ms =
        ((has_member f (map_key_string f k key_type) ms ≡ true) × MembersOf key_type es ms)
        ⊎ ((j : Json f) × (rest : Members f) × (ms ≡ member (map_key_string f k key_type) j rest)
            × (has_member f (map_key_string f k key_type) rest ≡ false)
            × HasForm v j
            × MembersOf key_type es rest)

  finite_or_null-IsFloat : (x : f.Float64) → IsFloat x (finite_or_null f x)
  unfolding finite_or_null
  finite_or_null-IsFloat x = elim (Bool-cases (f.is_inf x || f.is_nan x)) [
    | inl lost ↦ inl (lost, rw lost refl)
    | inr kept ↦ inr (kept, rw kept refl)
  ]

  byte_items-BytesOf : (bs : List ℕ) → BytesOf bs (byte_items f bs)
  unfolding byte_items
  byte_items-BytesOf [] = refl
  byte_items-BytesOf (b ∷ bs) = (_, refl, byte_items-BytesOf bs)

  write-MembersOf :
      (key_type : Text) (k : Key f) (v : Value f) (j : Json f) (es : Entries f) (ms : Members f)
      → HasForm v j
      → MembersOf key_type es ms
      → MembersOf key_type (entry k v es) (write f (map_key_string f k key_type) j ms)
  unfolding write
  write-MembersOf key_type k v j es ms hj hs =
      elim (Bool-cases (has_member f (map_key_string f k key_type) ms)) [
        | inl old ↦ rw old (inl (old, hs))
        | inr new ↦ rw new (inr (j, ms, refl, new, hj, hs))
      ]

  mutual
    unfolding to_json_value

    value-HasForm : (v : Value f) (t : Text) → HasForm v (to_json_value f v t)
    value-HasForm nil t = refl
    value-HasForm (uint64 n) t = (_, refl)
    value-HasForm (big_int n) t = (_, refl)
    value-HasForm big_nil t = refl
    value-HasForm (decimal d) t = (_, refl)
    value-HasForm (float64 x) t = finite_or_null-IsFloat x
    value-HasForm (float32 x) t = finite_or_null-IsFloat (f.widen x)
    value-HasForm (uuid u) t = (_, refl)
    value-HasForm (address a) t = (_, refl)
    value-HasForm (time x) t = (_, refl)
    value-HasForm (bytes bs) t = (_, refl, byte_items-BytesOf bs)
    value-HasForm variant_nil t = refl
    value-HasForm (variant v) t = value-HasForm v _
    value-HasForm (json es) t = (_, _, refl, entries-MembersOf es _)
    value-HasForm pointer_nil t = refl
    value-HasForm (pointer v) t = value-HasForm v _
    value-HasForm (slice vs) t = (_, refl, values-ItemsOf vs _ _)
    value-HasForm (dict es) t = (_, _, refl, entries-MembersOf es _)
    value-HasForm (string s) t = refl
    value-HasForm (int n) t = refl
    value-HasForm (bool b) t = refl
    value-HasForm (other o) t = refl

    values-ItemsOf :
        (vs : Values f) (ts : List Text) (inner : Text) → ItemsOf vs (values_json f vs ts inner)
    values-ItemsOf none_left ts inner = refl
    values-ItemsOf (value v vs) [] inner =
        (_, _, refl, value-HasForm v _, values-ItemsOf vs [] inner)
    values-ItemsOf (value v vs) (t ∷ ts) inner =
        (_, _, refl, value-HasForm v _, values-ItemsOf vs ts inner)

    entries-MembersOf :
        (es : Entries f) (types : MapTypes) → MembersOf types.key_type es (entries_json f es types)
    entries-MembersOf no_entry types = refl
    entries-MembersOf (entry k v es) types =
        write-MembersOf types.key_type k v _ es _ (value-HasForm v _) (entries-MembersOf es types)

  -- The JSON type of a value is fixed by its Go type, whatever text stands for the column's type:
  -- a nil is null; unsigned integers of 64 bits, big integers, decimals, identifiers, addresses,
  -- times and strings are texts; a float is itself, or null where it is infinite or NaN; a list
  -- is an array with one item for each element, in their order; and a map is an object with
  -- exactly the names that its keys print, each once, with the form of the value of the last key
  -- that prints it.
  pub to_json_value-HasForm : (v : Value f) (db_type : Text) → HasForm v (to_json_value f v db_type)
  to_json_value-HasForm v t = value-HasForm v t
