-- ===== src/Query/Serialize/Fits.antt =====
-- The types that ClickHouse has, and the values that the driver scans at each.
use clickhouse_mcp.Prelude.{ℕ, Bool, true, false, ◌∷◌, ◌≡◌, some}
use clickhouse_mcp.Query.Serialize.Typed.{
  ColType, date, date32, leaf, nullable, low_cardinality, array_of, aggregate, map_of, tuple,
  named_tuple, ColTypes, no_type, type, Fields, no_field, field, field_at,
}
use clickhouse_mcp.Query.Serialize.{
  Foreign, Key, key_string, Value, time, variant, json, pointer, slice, dict, Values, none_left,
  value, Entries, no_entry, entry,
}
use clickhouse_mcp.Query.Types.Args.{IsArg}
use clickhouse_mcp.Query.Types.{is_date_only, field_type}
use clickhouse_mcp.Text.{Text, Lacks, is_space}

-- The name of a leaf: one type argument that is no wrapped date, with no field's name in front.
pub record IsLeaf (name : Text) : Type 0 where
  pub is_arg : IsArg name
  pub no_date : is_date_only name ≡ false
  pub no_field_name : field_type name ≡ name

-- The name of a field: one word without parens and commas.
pub record IsFieldName (name : Text) : Type 0 where
  pub head : ℕ
  pub rest : Text
  pub splits : name ≡ head ∷ rest
  pub no_blank : is_space head ≡ false
  pub one_word : Lacks b' ' name
  pub no_open : Lacks b'(' name
  pub no_close : Lacks b')' name
  pub no_comma : Lacks b',' name

-- A type with a name, and so are those inside.
mutual
  pub data IsType : ColType → Type 0 where
    a_date : IsType date
    a_date32 : IsType date32
    a_leaf : {name : Text} → IsLeaf name → IsType (leaf name)
    a_nullable : {t : ColType} → IsType t → IsType (nullable t)
    a_low_cardinality : {t : ColType} → IsType t → IsType (low_cardinality t)
    an_array : {t : ColType} → IsType t → IsType (array_of t)
    an_aggregate : {g : Text} {t : ColType} → IsArg g → IsType t → IsType (aggregate g t)
    a_map : {k t : ColType} → IsType k → IsType t → IsType (map_of k t)
    a_tuple : {ts : ColTypes} → AreTypes ts → IsType (tuple ts)
    a_named_tuple : {fs : Fields} → AreFields fs → IsType (named_tuple fs)

  pub data AreTypes : ColTypes → Type 0 where
    no_types : AreTypes no_type
    types : {t : ColType} {ts : ColTypes} → IsType t → AreTypes ts → AreTypes (type t ts)

  pub data AreFields : Fields → Type 0 where
    no_fields : AreFields no_field
    fields :
        {name : Text} {t : ColType} {fs : Fields}
        → IsFieldName name
        → IsType t
        → AreFields fs
        → AreFields (field name t fs)

-- A type of single values, with wrappers round it.
pub data IsScalar : ColType → Type 0 where
  scalar_date : IsScalar date
  scalar_date32 : IsScalar date32
  scalar_leaf : {name : Text} → IsScalar (leaf name)
  scalar_nullable : {t : ColType} → IsScalar t → IsScalar (nullable t)
  scalar_low_cardinality : {t : ColType} → IsScalar t → IsScalar (low_cardinality t)
  scalar_aggregate : {g : Text} {t : ColType} → IsScalar t → IsScalar (aggregate g t)

module _ {f : Foreign} where
  -- A value that holds no other and is no time.
  unfoldable pub is_plain : Value f → Bool
  is_plain (time x) = false
  is_plain (variant v) = false
  is_plain (json es) = false
  is_plain (pointer v) = false
  is_plain (slice vs) = false
  is_plain (dict es) = false
  is_plain _ = true

  -- The driver's values of a type: a plain value of any type, a time of a scalar type, a pointer at
  -- a wrapper, a slice at an array or a tuple, a map at a map or a named tuple. What is inside a
  -- Variant or JSON has no type. An array, a map or a tuple stands bare, or behind a pointer.
  mutual
    pub data Fits : ColType → Value f → Type 0 where
      fits_plain : {t : ColType} {v : Value f} → is_plain v ≡ true → Fits t v
      fits_time : {t : ColType} {x : f.Time} → IsScalar t → Fits t (time x)
      fits_variant : {t : ColType} {v : Value f} → Fits t (variant v)
      fits_json : {t : ColType} {es : Entries f} → Fits t (json es)
      fits_nullable : {t : ColType} {v : Value f} → Fits t v → Fits (nullable t) (pointer v)
      fits_low_cardinality :
          {t : ColType} {v : Value f} → Fits t v → Fits (low_cardinality t) (pointer v)
      fits_aggregate :
          {g : Text} {t : ColType} {v : Value f} → Fits t v → Fits (aggregate g t) (pointer v)
      fits_array : {t : ColType} {vs : Values f} → AllFit t vs → Fits (array_of t) (slice vs)
      fits_tuple : {ts : ColTypes} {vs : Values f} → EachFits ts vs → Fits (tuple ts) (slice vs)
      fits_map :
          {k t : ColType} {es : Entries f}
          → IsScalar k
          → EntriesFit t es
          → Fits (map_of k t) (dict es)
      fits_named_tuple :
          {fs : Fields} {es : Entries f} → MembersFit fs es → Fits (named_tuple fs) (dict es)

    pub data AllFit : ColType → Values f → Type 0 where
      none_fits : {t : ColType} → AllFit t none_left
      one_fits :
          {t : ColType} {v : Value f} {vs : Values f}
          → Fits t v
          → AllFit t vs
          → AllFit t (value v vs)

    -- As many values as types, at most.
    pub data EachFits : ColTypes → Values f → Type 0 where
      end_fits : {ts : ColTypes} → EachFits ts none_left
      next_fits :
          {t : ColType} {ts : ColTypes} {v : Value f} {vs : Values f}
          → Fits t v
          → EachFits ts vs
          → EachFits (type t ts) (value v vs)

    pub data EntriesFit : ColType → Entries f → Type 0 where
      no_entry_fits : {t : ColType} → EntriesFit t no_entry
      entry_fits :
          {t : ColType} {k : Key f} {v : Value f} {es : Entries f}
          → Fits t v
          → EntriesFit t es
          → EntriesFit t (entry k v es)

    -- A named tuple's members have the names of fields as their keys.
    pub data MembersFit : Fields → Entries f → Type 0 where
      no_member_fits : {fs : Fields} → MembersFit fs no_entry
      member_fits :
          {fs : Fields} {name : Text} {t : ColType} {v : Value f} {es : Entries f}
          → field_at name fs ≡ some t
          → Fits t v
          → MembersFit fs es
          → MembersFit fs (entry (key_string name) v es)
