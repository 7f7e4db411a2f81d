-- ===== src/Query/Serialize/Untyped.antt =====
-- `ToJSONValue` on a value of no known type, as one inside a Variant or JSON.
use mathlib.Core.Path.{ap₂}
use clickhouse_mcp.Prelude.{Bool, true, false, [], ◌≡◌, refl, ap}
use clickhouse_mcp.Query.Serialize.Typed.{
  ColType, untyped, no_type, is_calendar, unwrapped, item_type, positions, key_type_of, member_type,
  time_json, key_text, as_json, as_items, as_members,
}
use clickhouse_mcp.Query.Serialize.{
  Foreign, Key, key_time, key_string, key_int, key_other, Value, nil, uint64, big_int, big_nil,
  decimal, float64, float32, uuid, address, time, bytes, variant_nil, variant, json, pointer_nil,
  pointer, slice, dict, string, int, bool, other, Values, none_left, value, Entries, no_entry,
  entry, text, array, object, item, MapTypes, value_type, map_types, elem_types, time_string,
  map_key_string, to_json_value, values_json, entries_json,
}
use clickhouse_mcp.Query.Types.{
  elem_type, is_date_only, type_name, type_name_of, has_own_args, date_loop, date_round,
  on_date_round, or_false,
}
use clickhouse_mcp.Text.{Text, equal, trim_space, trim_left, trim_right, after, starts_with}

no_elem : elem_type [] ≡ []
unfolding elem_type type_name type_name_of has_own_args trim_space trim_left trim_right after
    starts_with equal
no_elem = refl

no_elems : elem_types [] ≡ []
unfolding elem_types type_name type_name_of trim_space trim_left trim_right after starts_with equal
no_elems = refl

pub no_date : is_date_only [] ≡ false
unfolding is_date_only date_loop date_round on_date_round or_false elem_type type_name type_name_of
    has_own_args trim_space trim_left trim_right after starts_with equal
no_date = refl

abbrev pub no_types_known : MapTypes
no_types_known = record { key_type = []; val_type = []; fields = [] }

pub no_map_types : map_types [] ≡ no_types_known
unfolding map_types type_name type_name_of trim_space trim_left trim_right after starts_with equal
no_map_types = refl

module _ (f : Foreign) where
  pub time_string-json :
      (x : f.Time) (t : Text) (b : Bool) → is_date_only t ≡ b → time_string f x t ≡ time_json f x b
  unfolding time_string time_json
  time_string-json x t true h = rw h refl
  time_string-json x t false h = rw h refl

  pub key_string-text :
      (t : ColType) (s : Text) (k : Key f)
      → is_date_only s ≡ is_calendar t
      → map_key_string f k s ≡ key_text f t k
  unfolding map_key_string key_text
  key_string-text t s (key_time x) h = time_string-json x s _ h
  key_string-text t s (key_string w) h = refl
  key_string-text t s (key_int n) h = refl
  key_string-text t s (key_other o) h = refl

  untyped_date : is_date_only [] ≡ is_calendar untyped
  unfolding is_calendar
  untyped_date = no_date

  -- A value of no known type.
  mutual
    unfolding to_json_value as_json value_type key_type_of member_type item_type positions unwrapped

    pub untyped_json : (v : Value f) → to_json_value f v [] ≡ as_json f untyped v
    untyped_json nil = refl
    untyped_json (uint64 n) = refl
    untyped_json (big_int n) = refl
    untyped_json big_nil = refl
    untyped_json (decimal d) = refl
    untyped_json (float64 x) = refl
    untyped_json (float32 x) = refl
    untyped_json (uuid u) = refl
    untyped_json (address a) = refl
    untyped_json (time x) = ap text (time_string-json x [] _ no_date)
    untyped_json (bytes bs) = refl
    untyped_json variant_nil = refl
    untyped_json (variant v) = untyped_json v
    untyped_json (json es) = ap object (rw no_map_types (untyped_members es))
    untyped_json pointer_nil = refl
    untyped_json (pointer v) = rw no_elem (untyped_json v)
    untyped_json (slice vs) = ap array (rw (no_elem, no_elems) (untyped_items vs))
    untyped_json (dict es) = ap object (rw no_map_types (untyped_members es))
    untyped_json (string s) = refl
    untyped_json (int n) = refl
    untyped_json (bool b) = refl
    untyped_json (other o) = refl

    pub untyped_items : (vs : Values f) → values_json f vs [] [] ≡ as_items f no_type untyped vs
    untyped_items none_left = refl
    untyped_items (value v vs) = ap₂ item (untyped_json v) (untyped_items vs)

    pub untyped_members :
        (es : Entries f) → entries_json f es no_types_known ≡ as_members f untyped es
    untyped_members no_entry = refl
    untyped_members (entry k v es) =
        rw (key_string-text untyped [] k untyped_date, untyped_json v, untyped_members es) refl
