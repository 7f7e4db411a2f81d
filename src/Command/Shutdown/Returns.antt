-- ===== src/Command/Shutdown/Returns.antt =====
-- That `runHTTP` returns once its context is cancelled.
use mathlib.Core.List.{Memᴰ}
use clickhouse_mcp.Command.Shutdown.CalledOff.{
  state, HasReturned, IsCalledOff, HasDrained, seconds, turn-cancelled, run_http-IsCalledOff,
}
use clickhouse_mcp.Command.Shutdown.{
  Phase, waiting, draining, returned, ServeEnd, HttpRun, Event, accept, finish, serve_stops, cancel,
  second, serve_fails, turn, drain_seconds, wait_drained, on_turn, on_running, on_event, run_http,
}
use clickhouse_mcp.Prelude.{
  ℕ, ◌+◌, ◌≤◌, Bool, true, false, List, [], ◌∷◌, ◌++◌, Option, ◌≡◌, inl, inr, refl, sym, subst,
  arith, Bool-cases, leb, ◌==◌,
}
use clickhouse_mcp.Text.{Text}

-- The first turn behind the cancellation.
abbrev Drains : ℕ → HttpRun → Type 0
Drains n s = HasDrained n s.phase s.elapsed

wait_drained-Drains :
    (n : ℕ) (s : HttpRun) → s.phase ≡ draining → n ≤ s.elapsed → Drains n (wait_drained s)
unfolding wait_drained HasDrained
wait_drained-Drains n s h le = elim (Bool-cases (s.active == 0)) [
  | inl empty ↦ rw empty tt
  | inr busy ↦ elim (Bool-cases (leb drain_seconds s.elapsed)) [
    | inl late ↦ rw (busy, late) tt
    | inr early ↦ rw (busy, early) (subst (λ p. HasDrained n p s.elapsed) (sym h) le)
  ]
]

HasReturned-HasDrained : (n el : ℕ) (p : Phase) → HasReturned p → HasDrained n p el
unfolding HasReturned HasDrained
HasReturned-HasDrained n el (returned v) h = tt
HasReturned-HasDrained n el waiting h = absurd h
HasReturned-HasDrained n el draining h = absurd h

draining-HasDrained : (el : ℕ) (p : Phase) → p ≡ draining → HasDrained 0 p el
unfolding HasDrained
draining-HasDrained el draining h = omega arith
draining-HasDrained el waiting h = cc
draining-HasDrained el (returned v) h = tt

-- The second that an event brings.
unfoldable gain : Event → ℕ
unfolding seconds
gain e = seconds (e ∷ [])

on_running-Drains :
    (n : ℕ) (e : Event) (sv li : Bool) (ac : ℕ) (r : Option ServeEnd) (c : Bool) (el : ℕ)
    → n ≤ el
    → Drains (n + gain e) (on_running e (state draining sv li ac r c el))
unfolding on_running HasDrained gain on_turn
on_running-Drains n accept sv true ac r c el h = omega arith
on_running-Drains n accept sv false ac r c el h = omega arith
on_running-Drains n finish sv li ac r c el h = omega arith
on_running-Drains n (serve_fails x) true true ac r c el h = omega arith
on_running-Drains n (serve_fails x) true false ac r c el h = omega arith
on_running-Drains n (serve_fails x) false li ac r c el h = omega arith
on_running-Drains n serve_stops true true ac r c el h = omega arith
on_running-Drains n serve_stops true false ac r c el h = omega arith
on_running-Drains n serve_stops false li ac r c el h = omega arith
on_running-Drains n cancel sv li ac r c el h = omega arith
on_running-Drains n second sv li ac r c el h = omega arith
on_running-Drains n (turn q) sv li ac r c el h =
    wait_drained-Drains (n + 0) (state draining sv li ac r c el) refl (omega arith)

event-Drains :
    (n : ℕ) (e : Event) (p : Phase) (sv li : Bool) (ac : ℕ) (r : Option ServeEnd) (c : Bool)
    (el : ℕ)
    → Drains n (state p sv li ac r c el)
    → Drains (n + gain e) (on_event e (state p sv li ac r c el))
unfolding on_event HasDrained
event-Drains n e waiting sv li ac r c el h = absurd h
event-Drains n e draining sv li ac r c el h = on_running-Drains n e sv li ac r c el h
event-Drains n e (returned v) sv li ac r c el h = tt

seconds-cons : (e : Event) (es : List Event) → seconds (e ∷ es) ≡ seconds es + gain e
unfolding seconds gain
seconds-cons accept es = omega arith
seconds-cons finish es = omega arith
seconds-cons serve_stops es = omega arith
seconds-cons cancel es = omega arith
seconds-cons second es = omega arith
seconds-cons (serve_fails x) es = omega arith
seconds-cons (turn q) es = omega arith

run_http-Drains :
    (between before : List Event)
    → Drains 0 (run_http before)
    → Drains (seconds between) (run_http (between ++ before))
unfolding run_http
run_http-Drains [] before h = unfold seconds in h
run_http-Drains (e ∷ between) before h =
    let s : HttpRun = run_http (between ++ before) in
    subst (λ n. Drains n (on_event e s)) (sym (seconds-cons e between))
      (event-Drains (seconds between) e s.phase s.serving s.listening s.active s.result s.cancelled
        s.elapsed (run_http-Drains between before h))

-- A turn behind the cancellation begins the drain, or returns.
turn-Drains :
    (q : Bool) (p : Phase) (sv li : Bool) (ac : ℕ) (r : Option ServeEnd) (c : Bool) (el : ℕ)
    → IsCalledOff (state p sv li ac r c el)
    → Drains 0 (on_event (turn q) (state p sv li ac r c el))
unfolding on_event HasDrained HasReturned on_running on_turn
turn-Drains q (returned v) sv li ac r c el h = tt
turn-Drains q draining sv li ac r c el h =
    wait_drained-Drains 0 (state draining sv li ac r c el) refl (omega arith)
turn-Drains q waiting sv li ac r c el (inl h) = absurd h
turn-Drains q waiting sv li ac r c el (inr h) =
    elim (turn-cancelled q r (state waiting sv li ac r c el) h) [
      | inl back ↦ HasReturned-HasDrained 0 _ _ back
      | inr (drains, _) ↦ draining-HasDrained _ _ drains
    ]

-- A turn at the end of the timeout returns.
turn-HasReturned :
    (q : Bool) (p : Phase) (sv li : Bool) (ac : ℕ) (r : Option ServeEnd) (c : Bool) (el : ℕ) (n : ℕ)
    → drain_seconds ≤ n
    → Drains n (state p sv li ac r c el)
    → HasReturned (on_event (turn q) (state p sv li ac r c el)).phase
unfolding on_event HasDrained HasReturned on_running on_turn wait_drained
turn-HasReturned q (returned v) sv li ac r c el n h d = tt
turn-HasReturned q waiting sv li ac r c el n h d = absurd d
turn-HasReturned q draining sv li ac r c el n h d = elim (Bool-cases (ac == 0)) [
  | inl empty ↦ rw empty tt
  | inr busy ↦ rw (busy, late) tt
]
  where
    late : leb drain_seconds el ≡ true
    late = ground arith

HasReturned-returned : (p : Phase) → HasReturned p → (v : Option Text) × (p ≡ returned v)
unfolding HasReturned
HasReturned-returned (returned v) h = (v, refl)
HasReturned-returned waiting h = absurd h
HasReturned-returned draining h = absurd h

-- Under any schedule: once the context is cancelled, `runHTTP` has returned by its first turn after
-- five seconds from its next turn on, whatever the clients and `Serve` do.
pub run_http-returned :
    (before between : List Event) (p q : Bool)
    → Memᴰ cancel before
    → drain_seconds ≤ seconds between
    → (v : Option Text) × ((run_http (turn q ∷ (between ++ turn p ∷ before))).phase ≡ returned v)
unfolding run_http
run_http-returned before between p q m late =
    let s : HttpRun = run_http before in
    let begun =
      turn-Drains p s.phase s.serving s.listening s.active s.result s.cancelled s.elapsed
        (run_http-IsCalledOff before m) in
    let t : HttpRun = run_http (between ++ turn p ∷ before) in
    HasReturned-returned _ (
      turn-HasReturned q t.phase t.serving t.listening t.active t.result t.cancelled t.elapsed
        (seconds between) late (run_http-Drains between (turn p ∷ before) begun))
