-- ===== src/Examples/TypedWitnesses.antt =====
-- Rendering by types at a concrete value: Tuple(d Array(Nullable(Date)), at DateTime('UTC')).
use clickhouse_mcp.Examples.Mock.{printed}
use clickhouse_mcp.Query.Serialize.Fits.{Fits}
use clickhouse_mcp.Query.Serialize.Typed.{
  ColType, date, leaf, nullable, array_of, named_tuple, field, no_field,
}
use clickhouse_mcp.Query.Serialize.{
  Value, time, pointer, pointer_nil, slice, value, none_left, dict, entry, no_entry, key_string,
}
use clickhouse_mcp.Text.{codes}

abbrev column : ColType
column = named_tuple (
    field (codes "d") (array_of (nullable date))
      (field (codes "at") (leaf (codes "DateTime('UTC')")) no_field))

abbrev cell : Value printed
cell = dict (
    entry (key_string (codes "d"))
      (slice (value (pointer (time (codes "x"))) (value pointer_nil none_left)))
      (entry (key_string (codes "at")) (time (codes "y")) no_entry))
