-- ===== src/Query/Serialize/Shown.antt =====
-- What the program reads from the name of a type.
use clickhouse_mcp.Query.Serialize.Names.{
  nullable-IsWrapper, low_cardinality-IsWrapper, array-IsWrapper, nullable-IsName,
  low_cardinality-IsName, array-IsName, map-IsName, tuple-IsName, date-IsArg, date32-IsArg,
  enclosed-IsArg, named_field-IsArg,
}
use clickhouse_mcp.Prelude.{
  Bool, true, false, List, [], ◌∷◌, ◌++◌, Option, none, some, ◌≡◌, refl, ap, ◌∙◌, All,
}
use clickhouse_mcp.Query.Serialize.Fits.{
  IsFieldName, IsType, a_date, a_date32, a_leaf, a_nullable, a_low_cardinality, an_array,
  an_aggregate, a_map, a_tuple, a_named_tuple, AreTypes, no_types, types, AreFields, no_fields,
  fields, IsScalar, scalar_date, scalar_date32, scalar_leaf, scalar_nullable,
  scalar_low_cardinality, scalar_aggregate,
}
use clickhouse_mcp.Query.Serialize.Typed.{
  ColType, nullable, low_cardinality, array_of, aggregate, map_of, tuple, named_tuple, ColTypes,
  Fields, field, show, show_all, show_fields, is_calendar, field_at,
}
use clickhouse_mcp.Query.Types.Applied.{
  wrap-IsArg, type_name-args, field_type-wrap, SimpleAggregateFunction-IsName, elem_type-aggregate,
  is_date_only-aggregate,
}
use clickhouse_mcp.Query.Types.Args.{IsArg, split_top_level-join}
use clickhouse_mcp.Query.Types.Wrapped.{elem_type-wrap, is_date_only-wrap}
use clickhouse_mcp.Query.Types.{
  elem_type, is_date_only, field_type, field_type_of, date_loop, date_round, on_date_round,
  or_false,
}
use clickhouse_mcp.Query.Serialize.{
  Field, add_field, named_fields, value_type, key_value_types, map_types, elem_types,
}
use clickhouse_mcp.Text.{
  Text, codes, equal, join, trim_space, trim_left, trim_right, keep_right, is_space, starts_with,
  after, after-Lacks, before-Lacks,
}

-- The name of a type is one argument, whatever is inside.
mutual
  unfolding show

  pub show-IsArg : {t : ColType} → IsType t → IsArg (show t)
  show-IsArg a_date = date-IsArg
  show-IsArg a_date32 = date32-IsArg
  show-IsArg (a_leaf h) = h.is_arg
  show-IsArg (a_nullable h) = enclosed-IsArg _ nullable-IsName (show-IsArg h)
  show-IsArg (a_low_cardinality h) = enclosed-IsArg _ low_cardinality-IsName (show-IsArg h)
  show-IsArg (an_array h) = enclosed-IsArg _ array-IsName (show-IsArg h)
  show-IsArg (an_aggregate g h) =
      wrap-IsArg _ SimpleAggregateFunction-IsName (g, (show-IsArg h, tt))
  show-IsArg (a_map k h) = wrap-IsArg _ map-IsName (show-IsArg k, (show-IsArg h, tt))
  show-IsArg (a_tuple hs) = wrap-IsArg _ tuple-IsName (show_all-IsArg hs)
  show-IsArg (a_named_tuple hs) = wrap-IsArg _ tuple-IsName (show_fields-IsArg hs)

  pub show_all-IsArg : {ts : ColTypes} → AreTypes ts → All IsArg (show_all ts)
  show_all-IsArg no_types = tt
  show_all-IsArg (types h hs) = (show-IsArg h, show_all-IsArg hs)

  pub show_fields-IsArg : {fs : Fields} → AreFields fs → All IsArg (show_fields fs)
  show_fields-IsArg no_fields = tt
  show_fields-IsArg (fields n h hs) = (named_field-IsArg _ _ n (show-IsArg h), show_fields-IsArg hs)

-- The program takes a scalar type for a date exactly where it is one.
pub is_date_only-show :
    {t : ColType} → IsType t → IsScalar t → is_date_only (show t) ≡ is_calendar t
unfolding show is_calendar
is_date_only-show a_date scalar_date =
    unfold is_date_only date_loop date_round on_date_round or_false equal trim_space trim_left
      trim_right keep_right is_space in
    refl
is_date_only-show a_date32 scalar_date32 =
    unfold is_date_only date_loop date_round on_date_round or_false equal trim_space trim_left
      trim_right keep_right is_space in
    refl
is_date_only-show (a_leaf h) scalar_leaf = h.no_date
is_date_only-show (a_nullable h) (scalar_nullable s) =
    is_date_only-wrap nullable-IsWrapper _ (show-IsArg h) ∙ is_date_only-show h s
is_date_only-show (a_low_cardinality h) (scalar_low_cardinality s) =
    is_date_only-wrap low_cardinality-IsWrapper _ (show-IsArg h) ∙ is_date_only-show h s
is_date_only-show (an_aggregate g h) (scalar_aggregate s) =
    is_date_only-aggregate _ _ g (show-IsArg h) ∙ is_date_only-show h s
is_date_only-show (an_array h) s = elim s [ ]
is_date_only-show (a_map k h) s = elim s [ ]
is_date_only-show (a_tuple hs) s = elim s [ ]
is_date_only-show (a_named_tuple hs) s = elim s [ ]

-- A type's name has no field's name in front.
pub field_type-show : {t : ColType} → IsType t → field_type (show t) ≡ show t
unfolding show
field_type-show a_date = unfold field_type field_type_of after starts_with in refl
field_type-show a_date32 = unfold field_type field_type_of after starts_with in refl
field_type-show (a_leaf h) = h.no_field_name
field_type-show (a_nullable h) =
    unfold join in field_type-wrap nullable-IsName (_ ∷ []) (show-IsArg h, tt)
field_type-show (a_low_cardinality h) =
    unfold join in field_type-wrap low_cardinality-IsName (_ ∷ []) (show-IsArg h, tt)
field_type-show (an_array h) =
    unfold join in field_type-wrap array-IsName (_ ∷ []) (show-IsArg h, tt)
field_type-show (an_aggregate g h) =
    field_type-wrap SimpleAggregateFunction-IsName _ (g, (show-IsArg h, tt))
field_type-show (a_map k h) = field_type-wrap map-IsName _ (show-IsArg k, (show-IsArg h, tt))
field_type-show (a_tuple hs) = field_type-wrap tuple-IsName _ (show_all-IsArg hs)
field_type-show (a_named_tuple hs) = field_type-wrap tuple-IsName _ (show_fields-IsArg hs)

module _ {t : ColType} (h : IsType t) where
  pub elem_type-nullable : elem_type (show (nullable t)) ≡ show t
  unfolding show
  elem_type-nullable = elem_type-wrap nullable-IsWrapper (show t) (show-IsArg h)

  pub elem_type-low_cardinality : elem_type (show (low_cardinality t)) ≡ show t
  unfolding show
  elem_type-low_cardinality = elem_type-wrap low_cardinality-IsWrapper (show t) (show-IsArg h)

  pub elem_type-array : elem_type (show (array_of t)) ≡ show t
  unfolding show
  elem_type-array = elem_type-wrap array-IsWrapper (show t) (show-IsArg h)

  pub elem_types-array : elem_types (show (array_of t)) ≡ []
  unfolding show elem_types
  elem_types-array =
      let read = type_name-args array-IsName (show t ∷ []) (show-IsArg h, tt) in
      unfold join equal in rw read refl

pub elem_type-shown :
    {g : Text} {t : ColType} → IsArg g → IsType t → elem_type (show (aggregate g t)) ≡ show t
unfolding show
elem_type-shown g h = elem_type-aggregate _ _ g (show-IsArg h)

pub elem_types-tuple : {ts : ColTypes} → AreTypes ts → elem_types (show (tuple ts)) ≡ show_all ts
unfolding show elem_types equal
elem_types-tuple hs =
    rw (type_name-args tuple-IsName _ (show_all-IsArg hs))
      (split_top_level-join _ (show_all-IsArg hs))

pub map_types-map :
    {k t : ColType}
    → IsType k
    → IsType t
    → map_types (show (map_of k t)) ≡ record { key_type = show k; val_type = show t; fields = [] }
unfolding show map_types equal key_value_types
map_types-map hk ht =
    let args : All IsArg (_ ∷ _ ∷ []) = (show-IsArg hk, (show-IsArg ht, tt)) in
    rw (type_name-args map-IsName _ args, split_top_level-join _ args) refl

pub map_types-named_tuple :
    {fs : Fields}
    → AreFields fs
    → map_types (show (named_tuple fs))
      ≡ record { key_type = []; val_type = []; fields = named_fields (show_fields fs) [] }
unfolding show map_types equal
map_types-named_tuple hs =
    rw
      (
        type_name-args tuple-IsName _ (show_fields-IsArg hs),
        split_top_level-join _ (show_fields-IsArg hs),
      )
      refl

-- A field's type is read from the field.
add_field-show :
    (name : Text) {t : ColType} (read : List Field)
    → IsFieldName name
    → IsType t
    → add_field (name ++ (b' ' ∷ show t)) (after (codes " ") (name ++ (b' ' ∷ show t))) read
      ≡ record { name = name; type = show t } ∷ read
unfolding add_field
add_field-show name {t} read n h =
    rw
      (
        after-Lacks b' ' name (show t) n.one_word,
        before-Lacks b' ' name (show t) n.one_word,
        given,
        arg.trimmed,
      )
      refl
  where
    arg : IsArg (show t)
    arg = show-IsArg h

    given : equal name [] ≡ false
    given = rw n.splits (unfold equal in refl)

unfoldable pub show_or : Option ColType → Text → Text
show_or none d = d
show_or (some t) d = show t

pub value_type-show :
    (key : Text) {fs : Fields} (read : List Field) (d : Text)
    → AreFields fs
    → value_type key (named_fields (show_fields fs) read) d
      ≡ show_or (field_at key fs) (value_type key read d)
unfolding show named_fields
value_type-show key read d no_fields = unfold field_at show_or in refl
value_type-show key read d (fields {name} {t} {fs} n h hs) =
    ap (λ r. value_type key (named_fields (show_fields fs) r) d) (add_field-show name read n h)
    ∙ value_type-show key (record { name = name; type = show t } ∷ read) d hs
    ∙ by_field (field_at key fs) (equal name key) refl refl
  where
    by_field :
        (o : Option ColType) (b : Bool)
        → field_at key fs ≡ o
        → equal name key ≡ b
        → show_or
            (field_at key fs)
            (value_type key (record { name = name; type = show t } ∷ read) d)
          ≡ show_or (field_at key (field name t fs)) (value_type key read d)
    by_field (some u) b e q = unfold field_at show_or in rw e refl
    by_field none true e q = unfold field_at show_or value_type in rw (e, q) refl
    by_field none false e q = unfold field_at show_or value_type in rw (e, q) refl
