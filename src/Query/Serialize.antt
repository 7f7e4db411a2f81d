-- ===== src/Query/Serialize.antt =====
-- `ToJSONValue` of internal/query/serialize.go.
-- The values that the driver scans are a data type with a constructor for each case of the type
-- switch and each kind that `reflectValue` tells apart. The types that the program only prints
-- (decimal, uuid, IP address, time, floating point) are parameters.
pub mod Agrees
pub mod Names
pub mod Safe
pub mod Forms
pub mod Untyped
pub mod Shown
pub mod Fits
pub mod Typed
use clickhouse_mcp.Prelude.{
  ℕ, Bool, true, false, ◌||◌, List, [], ◌∷◌, Option, none, some, ◌==◌, if◌then◌else◌, ℤ, pos,
  negsuc, suc,
}
use clickhouse_mcp.Query.Bound.{itoa, digits}
use clickhouse_mcp.Query.Types.{
  TypeName, type_name, split_top_level, elem_type, is_date_only, field_type,
}
use clickhouse_mcp.Text.{Text, codes, equal, trim_space, after, before}

-- The types of other packages, with the operations that the program calls.
pub record Foreign : Type 1 where
  pub Decimal : Type 0
  pub decimal_string : Decimal → Text
  pub Uuid : Type 0
  pub uuid_string : Uuid → Text
  pub Address : Type 0
  pub address_string : Address → Text
  pub Time : Type 0
  pub format_date : Time → Text
  pub format_rfc3339 : Time → Text
  pub Float64 : Type 0
  pub Float32 : Type 0
  pub widen : Float32 → Float64
  pub is_inf : Float64 → Bool
  pub is_nan : Float64 → Bool
  pub Other : Type 0
  pub sprint : Other → Text

-- A map key: a time, or what `fmt.Sprintf("%v", k)` prints.
pub data Key (f : Foreign) : Type 0 where
  key_time : f.Time → Key f
  key_string : Text → Key f
  key_int : ℤ → Key f
  key_other : f.Other → Key f

mutual
  pub data Value (f : Foreign) : Type 0 where
    nil : Value f
    uint64 : ℕ → Value f
    big_int : ℤ → Value f
    big_nil : Value f
    decimal : f.Decimal → Value f
    float64 : f.Float64 → Value f
    float32 : f.Float32 → Value f
    uuid : f.Uuid → Value f
    address : f.Address → Value f
    time : f.Time → Value f
    bytes : List ℕ → Value f
    variant_nil : Value f
    variant : Value f → Value f
    json : Entries f → Value f
    pointer_nil : Value f
    pointer : Value f → Value f
    slice : Values f → Value f
    dict : Entries f → Value f
    string : Text → Value f
    int : ℤ → Value f
    bool : Bool → Value f
    other : f.Other → Value f

  pub data Values (f : Foreign) : Type 0 where
    none_left : Values f
    value : Value f → Values f → Values f

  pub data Entries (f : Foreign) : Type 0 where
    no_entry : Entries f
    entry : Key f → Value f → Entries f → Entries f

-- What `encoding/json` is handed. An object is what `out[key] = …` has written, in order.
mutual
  pub data Json (f : Foreign) : Type 0 where
    null : Json f
    text : Text → Json f
    number : ℤ → Json f
    float : f.Float64 → Json f
    truth : Bool → Json f
    array : Items f → Json f
    object : Members f → Json f
    opaque : f.Other → Json f

  pub data Items (f : Foreign) : Type 0 where
    no_item : Items f
    item : Json f → Items f → Items f

  pub data Members (f : Foreign) : Type 0 where
    no_member : Members f
    member : Text → Json f → Members f → Members f

-- The field types of a named tuple: `fieldTypes[f[:sp]] = strings.TrimSpace(f[sp+1:])`.
pub record Field : Type 0 where
  pub name : Text
  pub type : Text

unfoldable pub add_field : Text → Option Text → List Field → List Field
add_field f none fields = fields
add_field f (some behind) fields =
    let name = before (codes " ") f in
    if equal name [] then fields else record { name = name; type = trim_space behind } ∷ fields

-- The latest field comes first, so that a lookup finds the last write.
unfoldable pub named_fields : List Text → List Field → List Field
unfolding add_field
named_fields [] fields = fields
named_fields (f ∷ fs) fields = named_fields fs (add_field f (after (codes " ") f) fields)

-- `vt`: the field's type if the key has one, and the map's value type if it has none.
unfoldable pub value_type : Text → List Field → Text → Text
value_type key [] default = default
value_type key (f ∷ fs) default = if equal f.name key then f.type else value_type key fs default

-- The types that a map's keys, values and fields carry.
pub record MapTypes : Type 0 where
  pub key_type : Text
  pub val_type : Text
  pub fields : List Field

unfoldable pub key_value_types : List Text → MapTypes
key_value_types (k ∷ v ∷ []) = record { key_type = k; val_type = v; fields = [] }
key_value_types _ = record { key_type = []; val_type = []; fields = [] }

unfoldable pub map_types : Text → MapTypes
unfolding key_value_types named_fields
map_types db_type =
    let t = type_name db_type in
    if equal t.name (codes "Map")
    then key_value_types (split_top_level t.args)
    else if equal t.name (codes "Tuple")
    then record { key_type = []; val_type = []; fields = named_fields (split_top_level t.args) [] }
    else record { key_type = []; val_type = []; fields = [] }

-- `elemTypes`: the arguments of a tuple, and nothing for any other type.
unfoldable pub elem_types : Text → List Text
elem_types db_type =
    let t = type_name db_type in if equal t.name (codes "Tuple") then split_top_level t.args else []

-- `u64String`.
unfoldable pub u64_string : ℕ → Text
unfolding digits
u64_string n = digits 20 n []

-- `String` of a `big.Int` of up to 256 bits, which has 78 digits at most.
unfoldable pub big_string : ℤ → Text
unfolding digits
big_string (pos n) = digits 80 n []
big_string (negsuc n) = b'-' ∷ digits 80 (suc n) []

module _ (f : Foreign) where
  -- `finiteOrNull`.
  unfoldable pub finite_or_null : f.Float64 → Json f
  finite_or_null v = if f.is_inf v || f.is_nan v then null else float v

  -- `x.Format(…)` in the layout that the column's type asks for.
  unfoldable pub time_string : f.Time → Text → Text
  time_string t db_type = if is_date_only db_type then f.format_date t else f.format_rfc3339 t

  -- `mapKeyString`.
  unfoldable pub map_key_string : Key f → Text → Text
  unfolding time_string itoa
  map_key_string (key_time t) key_type = time_string t key_type
  map_key_string (key_string s) key_type = s
  map_key_string (key_int n) key_type = itoa n
  map_key_string (key_other k) key_type = f.sprint k

  unfoldable pub has_member : Text → Members f → Bool
  has_member key no_member = false
  has_member key (member k v ms) = equal k key || has_member key ms

  -- `out[key] = v` in front of the later writes, which win.
  unfoldable pub write : Text → Json f → Members f → Members f
  unfolding has_member
  write key v later = if has_member key later then later else member key v later

  -- `out[i] = int(b)` for the bytes of an `Array(UInt8)`.
  unfoldable pub byte_items : List ℕ → Items f
  byte_items [] = no_item
  byte_items (b ∷ bs) = item (number (pos b)) (byte_items bs)

  -- `ToJSONValue` with `reflectValue`, its loop over a slice and its loop over a map.
  unfoldable mutual
    unfolding finite_or_null time_string write byte_items

    pub to_json_value : Value f → Text → Json f
    to_json_value nil t = null
    to_json_value (uint64 n) t = text (u64_string n)
    to_json_value (big_int n) t = text (big_string n)
    to_json_value big_nil t = null
    to_json_value (decimal d) t = text (f.decimal_string d)
    to_json_value (float64 x) t = finite_or_null x
    to_json_value (float32 x) t = finite_or_null (f.widen x)
    to_json_value (uuid u) t = text (f.uuid_string u)
    to_json_value (address a) t = text (f.address_string a)
    to_json_value (time x) t = text (time_string x t)
    to_json_value (bytes bs) t = array (byte_items bs)
    to_json_value variant_nil t = null
    to_json_value (variant v) t = to_json_value v []
    to_json_value (json es) t = object (entries_json es (map_types []))
    to_json_value pointer_nil t = null
    to_json_value (pointer v) t = to_json_value v (elem_type t)
    to_json_value (slice vs) t = array (values_json vs (elem_types t) (elem_type t))
    to_json_value (dict es) t = object (entries_json es (map_types t))
    to_json_value (string s) t = text s
    to_json_value (int n) t = number n
    to_json_value (bool b) t = truth b
    to_json_value (other o) t = opaque o

    -- The types of the positions that are left, and the type of any further one.
    pub values_json : Values f → List Text → Text → Items f
    values_json none_left ts inner = no_item
    values_json (value v vs) [] inner = item (to_json_value v inner) (values_json vs [] inner)
    values_json (value v vs) (t ∷ ts) inner =
        item (to_json_value v (field_type t)) (values_json vs ts inner)

    pub entries_json : Entries f → MapTypes → Members f
    entries_json no_entry types = no_member
    entries_json (entry k v es) types =
        let key = map_key_string k types.key_type in
        write key (to_json_value v (value_type key types.fields types.val_type))
          (entries_json es types)
