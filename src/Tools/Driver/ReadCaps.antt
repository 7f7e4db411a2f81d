-- ===== src/Tools/Driver/ReadCaps.antt =====
-- The caps of `DefaultReadContext` in internal/clickhouse/settings.go, written out.

use clickhouse_mcp.Text.{codes}
use clickhouse_mcp.Tools.Driver.{Caps}

-- 100,000 rows, 64 MiB and 30 seconds; what goes beyond is an error.
abbrev pub read_caps : Caps
read_caps = record {
  max_result_rows = 100_000;
  max_result_bytes = 67_108_864;
  result_overflow_mode = codes "throw";
  max_execution_time = 30;
}
