-- ===== src/Command/Shutdown.antt =====
-- cmd/clickhouse-mcp/main.go: `runHTTP`, as what each event of a schedule does to it. The goroutines
-- and the clients take their turns in any order.
pub mod Ends
pub mod CalledOff
pub mod Returns
use clickhouse_mcp.Prelude.{
  ℕ, ◌+◌, ◌-◌, Bool, true, false, ◌&&◌, ◌||◌, not, List, [], ◌∷◌, Option, none, some, leb, ◌==◌,
  if◌then◌else◌,
}
use clickhouse_mcp.Text.{Text}

-- Where the function stands: at its `select`, in `Shutdown`, or back with an error or `nil`.
pub data Phase : Type 0 where
  waiting draining : Phase
  returned : Option Text → Phase

-- What `Serve` returned.
pub data ServeEnd : Type 0 where
  closed : ServeEnd
  failed : Text → ServeEnd

-- The function's state with that of its server. `result` is what the channel `srvErr` holds, which
-- has room for one value; `active` counts the connections; `elapsed` counts the seconds of
-- `Shutdown`.
pub record HttpRun : Type 0 where
  pub phase : Phase
  pub serving : Bool
  pub listening : Bool
  pub active : ℕ
  pub result : Option ServeEnd
  pub cancelled : Bool
  pub elapsed : ℕ

-- A client connects, or its connection ends; `Serve` fails, or returns because its listener was
-- closed; the context is cancelled; the function has its turn, and prefers the channel or the
-- context if both are ready; a second passes.
pub data Event : Type 0 where
  accept finish serve_stops cancel second : Event
  serve_fails : Text → Event
  turn : (prefers_result : Bool) → Event

-- The timeout of `Shutdown`.
abbrev pub drain_seconds : ℕ
drain_seconds = 5

abbrev pub start : HttpRun
start = record {
  phase = waiting;
  serving = true;
  listening = true;
  active = 0;
  result = none;
  cancelled = false;
  elapsed = 0;
}

-- `ErrServerClosed` counts as `nil`.
unfoldable pub verdict : ServeEnd → Option Text
verdict closed = none
verdict (failed e) = some e

-- `Shutdown` begins: the listener is closed.
unfoldable pub start_drain : HttpRun → HttpRun
start_drain s = record s { phase = draining; listening = false; elapsed = 0 }

unfoldable pub take_cancel : HttpRun → HttpRun
unfolding start_drain
take_cancel s = if s.cancelled then start_drain s else s

-- The `select`.
unfoldable pub choose : Bool → Option ServeEnd → HttpRun → HttpRun
unfolding take_cancel verdict
choose prefers_result none s = take_cancel s
choose prefers_result (some r) s =
    if prefers_result || not s.cancelled
    then record s { phase = returned (verdict r) }
    else take_cancel s

-- `Shutdown` returns when no connection is left; at its timeout, `Close` ends those that are.
unfoldable pub wait_drained : HttpRun → HttpRun
wait_drained s =
    if s.active == 0
    then record s { phase = returned none }
    else if leb drain_seconds s.elapsed
    then record s { phase = returned none; active = 0 }
    else s

unfoldable pub on_turn : Bool → Phase → HttpRun → HttpRun
unfolding choose wait_drained
on_turn prefers_result waiting s = choose prefers_result s.result s
on_turn prefers_result draining s = wait_drained s
on_turn prefers_result (returned v) s = s

unfoldable pub on_second : Phase → HttpRun → HttpRun
on_second draining s = record s { elapsed = s.elapsed + 1 }
on_second waiting s = s
on_second (returned v) s = s

-- What an event does while the function runs.
unfoldable pub on_running : Event → HttpRun → HttpRun
unfolding on_turn on_second
on_running accept s = if s.listening then record s { active = s.active + 1 } else s
on_running finish s = record s { active = s.active - 1 }
on_running (serve_fails e) s =
    if s.serving && s.listening
    then record s { serving = false; listening = false; result = some (failed e) }
    else s
on_running serve_stops s =
    if s.serving && not s.listening then record s { serving = false; result = some closed } else s
on_running cancel s = record s { cancelled = true }
on_running (turn prefers_result) s = on_turn prefers_result s.phase s
on_running second s = on_second s.phase s

unfoldable pub while_running : Phase → Event → HttpRun → HttpRun
while_running (returned v) e s = s
while_running waiting e s = on_running e s
while_running draining e s = on_running e s

-- Once the function has returned, the program ends, and nothing more happens.
unfoldable pub on_event : Event → HttpRun → HttpRun
unfolding while_running
on_event e s = while_running s.phase e s

-- `runHTTP` under a schedule, the last event first.
unfoldable pub run_http : List Event → HttpRun
run_http [] = start
run_http (e ∷ es) = on_event e (run_http es)
