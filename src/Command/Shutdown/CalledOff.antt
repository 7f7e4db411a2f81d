-- ===== src/Command/Shutdown/CalledOff.antt =====
-- That a cancellation stays, and what the first turn behind it does.
use mathlib.Core.List.Memᴰ
use mathlib.Core.List.{Memᴰ}
use clickhouse_mcp.Command.Shutdown.{
  Phase, waiting, draining, returned, ServeEnd, HttpRun, Event, accept, finish, serve_stops, cancel,
  second, serve_fails, turn, choose, wait_drained, on_turn, on_second, on_running, while_running,
  on_event, run_http,
}
use clickhouse_mcp.Prelude.{
  ℕ, ◌+◌, ◌≤◌, Bool, true, false, List, [], ◌∷◌, Option, none, some, ◌≡◌, ◌⊎◌, inl, inr, refl, sym,
  subst, arith,
}

-- The state of given fields.
abbrev pub state : Phase → Bool → Bool → ℕ → Option ServeEnd → Bool → ℕ → HttpRun
state p sv li ac r c el = record {
  phase = p;
  serving = sv;
  listening = li;
  active = ac;
  result = r;
  cancelled = c;
  elapsed = el;
}

unfoldable pub HasReturned : Phase → Type 0
HasReturned (returned v) = Unit
HasReturned waiting = ⊥
HasReturned draining = ⊥

-- The context was cancelled, or the function has returned already.
abbrev pub IsCalledOff : HttpRun → Type 0
IsCalledOff s = HasReturned s.phase ⊎ (s.cancelled ≡ true)

-- `Shutdown` has run for so many seconds, or the function has returned.
unfoldable pub HasDrained : ℕ → Phase → ℕ → Type 0
HasDrained n waiting el = ⊥
HasDrained n draining el = n ≤ el
HasDrained n (returned v) el = Unit

-- The seconds among the events.
unfoldable pub seconds : List Event → ℕ
seconds [] = 0
seconds (second ∷ es) = seconds es + 1
seconds (accept ∷ es) = seconds es
seconds (finish ∷ es) = seconds es
seconds (serve_stops ∷ es) = seconds es
seconds (cancel ∷ es) = seconds es
seconds (serve_fails e ∷ es) = seconds es
seconds (turn p ∷ es) = seconds es

pub turn-cancelled :
    (q : Bool) (r : Option ServeEnd) (s : HttpRun)
    → s.cancelled ≡ true
    → HasReturned (choose q r s).phase
      ⊎ ((choose q r s).phase ≡ draining) × ((choose q r s).elapsed ≡ 0)
unfolding choose HasReturned
turn-cancelled q none s h = rw h (inr (refl, refl))
turn-cancelled true (some r) s h = inl tt
turn-cancelled false (some r) s h = rw h (inr (refl, refl))

choose-cancelled :
    (q : Bool) (r : Option ServeEnd) (s : HttpRun)
    → s.cancelled ≡ true
    → (choose q r s).cancelled ≡ true
unfolding choose
choose-cancelled q none s h = rw h
choose-cancelled true (some r) s h = h
choose-cancelled false (some r) s h = rw h

wait_drained-cancelled : (s : HttpRun) → s.cancelled ≡ true → (wait_drained s).cancelled ≡ true
unfolding wait_drained
wait_drained-cancelled s h = ground arith

on_turn-cancelled :
    (q : Bool) (p : Phase) (s : HttpRun) → s.cancelled ≡ true → (on_turn q p s).cancelled ≡ true
unfolding on_turn
on_turn-cancelled q waiting s h = choose-cancelled q s.result s h
on_turn-cancelled q draining s h = wait_drained-cancelled s h
on_turn-cancelled q (returned v) s h = h

on_second-cancelled :
    (p : Phase) (s : HttpRun) → s.cancelled ≡ true → (on_second p s).cancelled ≡ true
unfolding on_second
on_second-cancelled waiting s h = h
on_second-cancelled draining s h = h
on_second-cancelled (returned v) s h = h

-- No event takes the cancellation back.
on_running-cancelled :
    (e : Event) (s : HttpRun) → s.cancelled ≡ true → (on_running e s).cancelled ≡ true
unfolding on_running
on_running-cancelled accept s h = ground arith
on_running-cancelled finish s h = h
on_running-cancelled (serve_fails x) s h = ground arith
on_running-cancelled serve_stops s h = ground arith
on_running-cancelled cancel s h = refl
on_running-cancelled (turn q) s h = on_turn-cancelled q s.phase s h
on_running-cancelled second s h = on_second-cancelled s.phase s h

-- An event in each phase.
while_running-IsCalledOff :
    (p : Phase) (e : Event) (s : HttpRun)
    → p ≡ s.phase
    → IsCalledOff s
    → IsCalledOff (while_running p e s)
unfolding while_running HasReturned
while_running-IsCalledOff (returned v) e s h c = c
while_running-IsCalledOff waiting e s h (inr c) = inr (on_running-cancelled e s c)
while_running-IsCalledOff waiting e s h (inl r) = absurd (subst HasReturned (sym h) r)
while_running-IsCalledOff draining e s h (inr c) = inr (on_running-cancelled e s c)
while_running-IsCalledOff draining e s h (inl r) = absurd (subst HasReturned (sym h) r)

while_running-cancel :
    (p : Phase) (s : HttpRun) → p ≡ s.phase → IsCalledOff (while_running p cancel s)
unfolding while_running on_running HasReturned
while_running-cancel (returned v) s h = inl (subst HasReturned h tt)
while_running-cancel waiting s h = inr refl
while_running-cancel draining s h = inr refl

pub run_http-IsCalledOff : (es : List Event) → Memᴰ cancel es → IsCalledOff (run_http es)
unfolding run_http on_event
run_http-IsCalledOff [] m = absurd (Memᴰ.not-nil m)
run_http-IsCalledOff (e ∷ es) m = elim (Memᴰ.cases_cons m) [
  | inl same ↦
      subst (λ x. IsCalledOff (while_running (run_http es).phase x (run_http es))) same
        (while_running-cancel (run_http es).phase (run_http es) refl)
  | inr n ↦
      while_running-IsCalledOff (run_http es).phase e (run_http es) refl (run_http-IsCalledOff es n)
]
