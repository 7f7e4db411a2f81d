-- ===== src/Query/Serialize/Typed.antt =====
-- The types of ClickHouse as trees, and what a value of a type is to look like in JSON. Nothing
-- here reads a type's name: the program's side has only the names.
use clickhouse_mcp.Prelude.{Bool, true, false, List, [], ◌∷◌, ◌++◌, Option, none, some}
use clickhouse_mcp.Query.Bound.{itoa}
use clickhouse_mcp.Query.Serialize.{
  Foreign, Key, key_time, key_string, key_int, key_other, Value, nil, uint64, big_int, big_nil,
  decimal, float64, float32, uuid, address, time, bytes, variant_nil, variant, json, pointer_nil,
  pointer, slice, dict, string, int, bool, other, Values, none_left, value, Entries, no_entry,
  entry, Json, null, text, number, truth, array, object, opaque, Items, no_item, item, Members,
  no_member, u64_string, big_string, finite_or_null, byte_items, write,
}
use clickhouse_mcp.Query.Types.Wrapped.{wrap}
use clickhouse_mcp.Text.{Text, codes, equal, join}

-- A column type. A leaf is any other type, as String, DateTime('UTC') or Decimal(10, 2); nothing is
-- known of the type of an untyped value, as one inside a Variant.
mutual
  pub data ColType : Type 0 where
    untyped date date32 : ColType
    leaf : Text → ColType
    nullable low_cardinality array_of : ColType → ColType
    aggregate : (function : Text) → ColType → ColType
    map_of : ColType → ColType → ColType
    tuple : ColTypes → ColType
    named_tuple : Fields → ColType

  pub data ColTypes : Type 0 where
    no_type : ColTypes
    type : ColType → ColTypes → ColTypes

  pub data Fields : Type 0 where
    no_field : Fields
    field : Text → ColType → Fields → Fields

-- `Name(a, b, …)`.
abbrev pub applied : Text → List Text → Text
applied name args = wrap name (join (codes ", ") args)

-- The name that ClickHouse gives the type.
unfoldable mutual
  pub show : ColType → Text
  show untyped = []
  show date = codes "Date"
  show date32 = codes "Date32"
  show (leaf name) = name
  show (nullable t) = wrap (codes "Nullable") (show t)
  show (low_cardinality t) = wrap (codes "LowCardinality") (show t)
  show (array_of t) = wrap (codes "Array") (show t)
  show (aggregate g t) = applied (codes "SimpleAggregateFunction") (g ∷ show t ∷ [])
  show (map_of k t) = applied (codes "Map") (show k ∷ show t ∷ [])
  show (tuple ts) = applied (codes "Tuple") (show_all ts)
  show (named_tuple fs) = applied (codes "Tuple") (show_fields fs)

  pub show_all : ColTypes → List Text
  show_all no_type = []
  show_all (type t ts) = show t ∷ show_all ts

  pub show_fields : Fields → List Text
  show_fields no_field = []
  show_fields (field name t fs) = (name ++ (b' ' ∷ show t)) ∷ show_fields fs

-- A time of the type has no time of day.
unfoldable pub is_calendar : ColType → Bool
is_calendar date = true
is_calendar date32 = true
is_calendar (nullable t) = is_calendar t
is_calendar (low_cardinality t) = is_calendar t
is_calendar (aggregate g t) = is_calendar t
is_calendar _ = false

-- The type behind one wrapper.
unfoldable pub unwrapped : ColType → ColType
unwrapped (nullable t) = t
unwrapped (low_cardinality t) = t
unwrapped (aggregate g t) = t
unwrapped t = t

-- The type of each item, and the types of the positions.
unfoldable pub item_type : ColType → ColType
item_type (array_of t) = t
item_type _ = untyped

unfoldable pub positions : ColType → ColTypes
positions (tuple ts) = ts
positions _ = no_type

-- The type of the keys; that of the value under a key, where the last field of a name counts.
unfoldable pub key_type_of : ColType → ColType
key_type_of (map_of k t) = k
key_type_of _ = untyped

unfoldable pub or_type : Option ColType → ColType → ColType
or_type none t = t
or_type (some u) t = u

unfoldable pub later_or : Option ColType → Bool → ColType → Option ColType
later_or (some u) here t = some u
later_or none true t = some t
later_or none false t = none

unfoldable pub field_at : Text → Fields → Option ColType
unfolding later_or
field_at key no_field = none
field_at key (field name t fs) = later_or (field_at key fs) (equal name key) t

unfoldable pub member_type : Text → ColType → ColType
unfolding or_type field_at
member_type key (map_of k t) = t
member_type key (named_tuple fs) = or_type (field_at key fs) untyped
member_type key _ = untyped

module _ (f : Foreign) where
  unfoldable pub time_json : f.Time → Bool → Text
  time_json x true = f.format_date x
  time_json x false = f.format_rfc3339 x

  -- A map's key as a member's name.
  unfoldable pub key_text : ColType → Key f → Text
  unfolding time_json is_calendar
  key_text t (key_time x) = time_json x (is_calendar t)
  key_text t (key_string s) = s
  key_text t (key_int n) = itoa n
  key_text t (key_other k) = f.sprint k

  -- The JSON form of a value of a type: large and exact numbers are texts, a calendar date has no
  -- time of day, what is nested goes by the types inside, and a further write of a key wins.
  unfoldable mutual
    unfolding time_json is_calendar unwrapped item_type positions key_type_of member_type key_text

    pub as_json : ColType → Value f → Json f
    as_json t nil = null
    as_json t (uint64 n) = text (u64_string n)
    as_json t (big_int n) = text (big_string n)
    as_json t big_nil = null
    as_json t (decimal d) = text (f.decimal_string d)
    as_json t (float64 x) = finite_or_null f x
    as_json t (float32 x) = finite_or_null f (f.widen x)
    as_json t (uuid u) = text (f.uuid_string u)
    as_json t (address a) = text (f.address_string a)
    as_json t (time x) = text (time_json x (is_calendar t))
    as_json t (bytes bs) = array (byte_items f bs)
    as_json t variant_nil = null
    as_json t (variant v) = as_json untyped v
    as_json t (json es) = object (as_members untyped es)
    as_json t pointer_nil = null
    as_json t (pointer v) = as_json (unwrapped t) v
    as_json t (slice vs) = array (as_items (positions t) (item_type t) vs)
    as_json t (dict es) = object (as_members t es)
    as_json t (string s) = text s
    as_json t (int n) = number n
    as_json t (bool b) = truth b
    as_json t (other o) = opaque o

    pub as_items : ColTypes → ColType → Values f → Items f
    as_items ts further none_left = no_item
    as_items no_type further (value v vs) = item (as_json further v) (as_items no_type further vs)
    as_items (type t ts) further (value v vs) = item (as_json t v) (as_items ts further vs)

    pub as_members : ColType → Entries f → Members f
    as_members t no_entry = no_member
    as_members t (entry k v es) =
        let key = key_text (key_type_of t) k in
        write f key (as_json (member_type key t) v) (as_members t es)
