-- ===== src/Query/Serialize/Agrees.antt =====
-- `ToJSONValue` renders a value of a type as the type says.
use clickhouse_mcp.Query.Serialize.Untyped.{
  no_map_types, time_string-json, key_string-text, untyped_json, untyped_members,
}
use mathlib.Core.Path.{ap₂}
use clickhouse_mcp.Prelude.{
  Bool, true, false, [], Option, none, some, ◌≡◌, ◌⊎◌, refl, ap, subst, inl, inr, ◌∙◌,
}
use clickhouse_mcp.Query.Serialize.Fits.{
  IsType, no_fields, fields, a_nullable, a_low_cardinality, an_array, an_aggregate, a_map, a_tuple,
  a_named_tuple, AreTypes, types, AreFields, IsScalar, is_plain, Fits, fits_plain, fits_time,
  fits_variant, fits_json, fits_nullable, fits_low_cardinality, fits_aggregate, fits_array,
  fits_tuple, fits_map, fits_named_tuple, AllFit, none_fits, one_fits, EachFits, end_fits,
  next_fits, EntriesFit, no_entry_fits, entry_fits, MembersFit, no_member_fits, member_fits,
}
use clickhouse_mcp.Query.Serialize.Shown.{
  is_date_only-show, field_type-show, elem_type-nullable, elem_type-low_cardinality,
  elem_type-array, elem_type-shown, elem_types-array, elem_types-tuple, map_types-map,
  map_types-named_tuple, value_type-show, show_or,
}
use clickhouse_mcp.Query.Serialize.Typed.{
  ColType, untyped, map_of, tuple, named_tuple, show_fields, ColTypes, no_type, Fields, field_at,
  later_or, or_type, show, show_all, unwrapped, item_type, positions, key_type_of, member_type,
  key_text, as_json, as_items, as_members,
}
use clickhouse_mcp.Query.Serialize.{
  Foreign, Value, nil, uint64, big_int, big_nil, decimal, float64, float32, uuid, address, time,
  bytes, variant_nil, variant, json, pointer_nil, pointer, slice, dict, string, int, bool, other,
  Values, Entries, text, array, object, item, MapTypes, named_fields, value_type, map_key_string,
  to_json_value, values_json, entries_json,
}
use clickhouse_mcp.Query.Types.{elem_type}
use clickhouse_mcp.Text.{Text, equal}

module _ (f : Foreign) where
  -- The form of a plain value does not go by its type.
  plain_json :
      (t : ColType) (s : Text) (v : Value f)
      → is_plain v ≡ true
      → to_json_value f v s ≡ as_json f t v
  unfolding is_plain to_json_value as_json
  plain_json t s nil h = refl
  plain_json t s (uint64 n) h = refl
  plain_json t s (big_int n) h = refl
  plain_json t s big_nil h = refl
  plain_json t s (decimal d) h = refl
  plain_json t s (float64 x) h = refl
  plain_json t s (float32 x) h = refl
  plain_json t s (uuid u) h = refl
  plain_json t s (address a) h = refl
  plain_json t s (bytes bs) h = refl
  plain_json t s variant_nil h = refl
  plain_json t s pointer_nil h = refl
  plain_json t s (string w) h = refl
  plain_json t s (int n) h = refl
  plain_json t s (bool b) h = refl
  plain_json t s (other o) h = refl
  plain_json t s (time x) h = cc
  plain_json t s (variant v) h = cc
  plain_json t s (json es) h = cc
  plain_json t s (pointer v) h = cc
  plain_json t s (slice vs) h = cc
  plain_json t s (dict es) h = cc

  later_or-cases :
      (o : Option ColType) (b : Bool) (u t : ColType)
      → later_or o b u ≡ some t
      → (o ≡ some t) ⊎ (u ≡ t)
  unfolding later_or
  later_or-cases (some w) b u t e = inl e
  later_or-cases none true u t e = inr (cc)
  later_or-cases none false u t e = cc

  field_at-IsType :
      (key : Text) {fs : Fields} {t : ColType} → AreFields fs → field_at key fs ≡ some t → IsType t
  field_at-IsType key no_fields e = unfold field_at in cc e
  field_at-IsType key {t = t} (fields {name = name} {t = u} {fs = fs} n h hs) e =
      by_place (unfold field_at in later_or-cases (field_at key fs) (equal name key) u t e)
        (λ q. field_at-IsType key hs q)
    where
      by_place :
          (field_at key fs ≡ some t) ⊎ (u ≡ t) → (field_at key fs ≡ some t → IsType t) → IsType t
      by_place (inl q) ih = ih q
      by_place (inr same) ih = subst (λ w. IsType w) same h

  abbrev tuple_types : Fields → MapTypes
  tuple_types fs = record {
    key_type = [];
    val_type = [];
    fields = named_fields (show_fields fs) [];
  }

  -- The type that the program finds for a member.
  member_found :
      (key : Text) {fs : Fields} {t : ColType}
      → AreFields fs
      → field_at key fs ≡ some t
      → value_type key (named_fields (show_fields fs) []) [] ≡ show t
  member_found key hs e = value_type-show key [] [] hs ∙ unfold show_or in rw e refl

  mutual
    unfolding to_json_value as_json member_type key_type_of or_type unwrapped item_type positions
        key_text map_key_string value_type show

    typed_json :
        {t : ColType} {v : Value f}
        → IsType t
        → Fits t v
        → to_json_value f v (show t) ≡ as_json f t v
    typed_json h (fits_plain p) = plain_json _ _ _ p
    typed_json h (fits_time s) = ap text (time_string-json f _ _ _ (is_date_only-show h s))
    typed_json h (fits_variant {v = v}) = untyped_json f v
    typed_json h (fits_json {es = es}) = ap object (rw no_map_types (untyped_members f es))
    typed_json (a_nullable h) (fits_nullable {v = v} p) =
        ap (λ s. to_json_value f v s) (elem_type-nullable h) ∙ typed_json h p
    typed_json (a_low_cardinality h) (fits_low_cardinality {v = v} p) =
        ap (λ s. to_json_value f v s) (elem_type-low_cardinality h) ∙ typed_json h p
    typed_json (an_aggregate g h) (fits_aggregate {v = v} p) =
        ap (λ s. to_json_value f v s) (elem_type-shown g h) ∙ typed_json h p
    typed_json (an_array h) (fits_array {vs = vs} p) = ap array (
        ap₂ (λ ts s. values_json f vs ts s) (elem_types-array h) (elem_type-array h)
        ∙ array_json h p)
    typed_json (a_tuple hs) (fits_tuple {ts = ts} {vs = vs} p) = ap array (
        ap (λ us. values_json f vs us (elem_type (show (tuple ts)))) (elem_types-tuple hs)
        ∙ tuple_json hs p (elem_type (show (tuple ts))))
    typed_json (a_map hk h) (fits_map {es = es} s p) =
        ap object (ap (λ m. entries_json f es m) (map_types-map hk h) ∙ map_json hk h s p)
    typed_json (a_named_tuple hs) (fits_named_tuple {es = es} p) =
        ap object (ap (λ m. entries_json f es m) (map_types-named_tuple hs) ∙ named_json hs p)

    array_json :
        {t : ColType} {vs : Values f}
        → IsType t
        → AllFit t vs
        → values_json f vs [] (show t) ≡ as_items f no_type t vs
    array_json h none_fits = refl
    array_json h (one_fits p ps) = ap₂ item (typed_json h p) (array_json h ps)

    tuple_json :
        {ts : ColTypes} {vs : Values f}
        → AreTypes ts
        → EachFits ts vs
        → (further : Text) → values_json f vs (show_all ts) further ≡ as_items f ts untyped vs
    tuple_json hs end_fits further = refl
    tuple_json (types h hs) (next_fits {v = v} p ps) further =
        ap₂ item (ap (λ s. to_json_value f v s) (field_type-show h) ∙ typed_json h p)
          (tuple_json hs ps further)

    map_json :
        {k t : ColType} {es : Entries f}
        → IsType k
        → IsType t
        → IsScalar k
        → EntriesFit t es
        → entries_json f es (record { key_type = show k; val_type = show t; fields = [] })
          ≡ as_members f (map_of k t) es
    map_json hk h s no_entry_fits = refl
    map_json {k} hk h s (entry_fits {k = key} p ps) =
        rw
          (
            key_string-text f k (show k) key (is_date_only-show hk s),
            typed_json h p,
            map_json hk h s ps,
          )
          refl

    named_json :
        {fs : Fields} {es : Entries f}
        → AreFields fs
        → MembersFit fs es
        → entries_json f es (tuple_types fs) ≡ as_members f (named_tuple fs) es
    named_json hs no_member_fits = refl
    named_json hs (member_fits {name = name} at p ps) =
        rw
          (member_found name hs at, at, typed_json (field_at-IsType name hs at) p, named_json hs ps)
          refl
