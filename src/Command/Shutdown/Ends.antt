-- ===== src/Command/Shutdown/Ends.antt =====
-- How `runHTTP` ends.
use mathlib.Core.List.{Memᴰ}
use clickhouse_mcp.Command.Shutdown.CalledOff.{state}
use clickhouse_mcp.Command.Shutdown.{
  Phase, waiting, draining, returned, ServeEnd, closed, failed, HttpRun, Event, accept, finish,
  serve_stops, cancel, second, serve_fails, turn, drain_seconds, start, wait_drained, on_running,
  on_event, run_http,
}
use clickhouse_mcp.Prelude.{
  ℕ, Bool, true, false, List, [], ◌∷◌, Option, none, some, ◌≡◌, ◌≢◌, inl, inr, refl, sym, ap, subst,
  ◌∙◌, arith, Bool-cases, leb, ◌==◌,
}
use clickhouse_mcp.Text.{Text}

-- What holds of the rest of the state where the function stands, after a schedule.
unfoldable pub AtPhase : List Event → Phase → HttpRun → Type 0
AtPhase es waiting s = (s.serving ≡ s.listening) × (s.result ≢ some closed)
AtPhase es draining s = (s.cancelled ≡ true) × (s.listening ≡ false)
AtPhase es (returned none) s = (s.cancelled ≡ true) × (s.listening ≡ false) × (s.active ≡ 0)
AtPhase es (returned (some e)) s = Memᴰ (serve_fails e) es

-- Where an error in the channel and the cancellation come from.
pub record IsOrderly (es : List Event) (s : HttpRun) : Type 0 where
  pub at_phase : AtPhase es s.phase s
  pub failure : (e : Text) → s.result ≡ some (failed e) → Memᴰ (serve_fails e) es
  pub cancelled : s.cancelled ≡ true → Memᴰ cancel es

AtPhase-weaken :
    (e : Event) (es : List Event) (p : Phase) (s : HttpRun) → AtPhase es p s → AtPhase (e ∷ es) p s
unfolding AtPhase
AtPhase-weaken e es waiting s h = h
AtPhase-weaken e es draining s h = h
AtPhase-weaken e es (returned none) s h = h
AtPhase-weaken e es (returned (some x)) s h = Memᴰ.tail h

module _ (e : Event) (es : List Event) where
  -- A state that differs in nothing that the invariant reads.
  same-IsOrderly :
      {s : HttpRun} (t : HttpRun)
      → IsOrderly es s
      → AtPhase (e ∷ es) t.phase t
      → t.result ≡ s.result
      → t.cancelled ≡ s.cancelled
      → IsOrderly (e ∷ es) t
  same-IsOrderly t h at r c = record {
    at_phase = at;
    failure = λ x q. Memᴰ.tail (h.failure x (sym r ∙ q));
    cancelled = λ q. Memᴰ.tail (h.cancelled (sym c ∙ q));
  }

  still-IsOrderly : {s : HttpRun} → IsOrderly es s → IsOrderly (e ∷ es) s
  still-IsOrderly {s} h = same-IsOrderly s h (AtPhase-weaken e es s.phase s h.at_phase) refl refl

true-ne-false : ◌≡◌ {A = Bool} true false → ⊥
true-ne-false q = cc

failed_inj : {x y : Text} → some (failed x) ≡ some (failed y) → y ≡ x
failed_inj q = cc

zero_of_test : (n : ℕ) → n == 0 ≡ true → n ≡ 0
zero_of_test n h = ground arith

module _ (es : List Event) where
  waiting-IsOrderly :
      (e : Event) (sv li : Bool) (ac : ℕ) (r : Option ServeEnd) (c : Bool) (el : ℕ)
      → IsOrderly es (state waiting sv li ac r c el)
      → IsOrderly (e ∷ es) (on_running e (state waiting sv li ac r c el))
  unfolding on_running AtPhase
  waiting-IsOrderly accept sv true ac r c el h = same-IsOrderly _ es _ h h.at_phase refl refl
  waiting-IsOrderly accept sv false ac r c el h = still-IsOrderly _ es h
  waiting-IsOrderly finish sv li ac r c el h = same-IsOrderly _ es _ h h.at_phase refl refl
  waiting-IsOrderly (serve_fails x) true true ac r c el h = record {
    at_phase = (refl, λ q. cc);
    failure = λ y q. Memᴰ.head (ap serve_fails (failed_inj q));
    cancelled = λ q. Memᴰ.tail (h.cancelled q);
  }
  waiting-IsOrderly (serve_fails x) true false ac r c el h = still-IsOrderly _ es h
  waiting-IsOrderly (serve_fails x) false li ac r c el h = still-IsOrderly _ es h
  waiting-IsOrderly serve_stops true true ac r c el h = still-IsOrderly _ es h
  waiting-IsOrderly serve_stops true false ac r c el h = absurd (true-ne-false (h.at_phase.0))
  waiting-IsOrderly serve_stops false li ac r c el h = still-IsOrderly _ es h
  waiting-IsOrderly cancel sv li ac r c el h = record {
    at_phase = h.at_phase;
    failure = λ y q. Memᴰ.tail (h.failure y q);
    cancelled = λ q. Memᴰ.head refl;
  }
  waiting-IsOrderly second sv li ac r c el h = still-IsOrderly _ es h
  waiting-IsOrderly (turn p) sv li ac none true el h =
      same-IsOrderly _ es _ h (refl, refl) refl refl
  waiting-IsOrderly (turn p) sv li ac none false el h = still-IsOrderly _ es h
  waiting-IsOrderly (turn true) sv li ac (some closed) c el h = absurd (h.at_phase.1 refl)
  waiting-IsOrderly (turn true) sv li ac (some (failed x)) c el h =
      same-IsOrderly _ es _ h (Memᴰ.tail (h.failure x refl)) refl refl
  waiting-IsOrderly (turn false) sv li ac (some r) true el h =
      same-IsOrderly _ es _ h (refl, refl) refl refl
  waiting-IsOrderly (turn false) sv li ac (some closed) false el h = absurd (h.at_phase.1 refl)
  waiting-IsOrderly (turn false) sv li ac (some (failed x)) false el h =
      same-IsOrderly _ es _ h (Memᴰ.tail (h.failure x refl)) refl refl

  drained-IsOrderly :
      (p : Bool) (sv li : Bool) (ac : ℕ) (r : Option ServeEnd) (c : Bool) (el : ℕ)
      → IsOrderly es (state draining sv li ac r c el)
      → IsOrderly (turn p ∷ es) (wait_drained (state draining sv li ac r c el))
  unfolding wait_drained AtPhase
  drained-IsOrderly p sv li ac r c el h = elim (Bool-cases (ac == 0)) [
    | inl empty ↦ rw empty (
        same-IsOrderly (turn p) es _ h (h.at_phase.0, h.at_phase.1, zero_of_test ac empty) refl
          refl)
    | inr busy ↦ elim (Bool-cases (leb drain_seconds el)) [
      | inl late ↦
          rw (busy, late)
            (same-IsOrderly (turn p) es _ h (h.at_phase.0, h.at_phase.1, refl) refl refl)
      | inr early ↦ rw (busy, early) (still-IsOrderly (turn p) es h)
    ]
  ]

  draining-IsOrderly :
      (e : Event) (sv li : Bool) (ac : ℕ) (r : Option ServeEnd) (c : Bool) (el : ℕ)
      → IsOrderly es (state draining sv li ac r c el)
      → IsOrderly (e ∷ es) (on_running e (state draining sv li ac r c el))
  unfolding on_running AtPhase
  draining-IsOrderly accept sv true ac r c el h = absurd (true-ne-false h.at_phase.1)
  draining-IsOrderly accept sv false ac r c el h = still-IsOrderly _ es h
  draining-IsOrderly finish sv li ac r c el h = same-IsOrderly _ es _ h h.at_phase refl refl
  draining-IsOrderly (serve_fails x) sv true ac r c el h = absurd (true-ne-false h.at_phase.1)
  draining-IsOrderly (serve_fails x) true false ac r c el h = still-IsOrderly _ es h
  draining-IsOrderly (serve_fails x) false false ac r c el h = still-IsOrderly _ es h
  draining-IsOrderly serve_stops sv true ac r c el h = absurd (true-ne-false h.at_phase.1)
  draining-IsOrderly serve_stops true false ac r c el h = record {
    at_phase = h.at_phase;
    failure = λ y q. cc;
    cancelled = λ q. Memᴰ.tail (h.cancelled q);
  }
  draining-IsOrderly serve_stops false false ac r c el h = still-IsOrderly _ es h
  draining-IsOrderly cancel sv li ac r c el h = record {
    at_phase = (refl, h.at_phase.1);
    failure = λ y q. Memᴰ.tail (h.failure y q);
    cancelled = λ q. Memᴰ.head refl;
  }
  draining-IsOrderly second sv li ac r c el h = same-IsOrderly _ es _ h h.at_phase refl refl
  draining-IsOrderly (turn p) sv li ac r c el h = drained-IsOrderly p sv li ac r c el h

  event-IsOrderly :
      (e : Event) (p : Phase) (sv li : Bool) (ac : ℕ) (r : Option ServeEnd) (c : Bool) (el : ℕ)
      → IsOrderly es (state p sv li ac r c el)
      → IsOrderly (e ∷ es) (on_event e (state p sv li ac r c el))
  unfolding on_event
  event-IsOrderly e waiting sv li ac r c el h = waiting-IsOrderly e sv li ac r c el h
  event-IsOrderly e draining sv li ac r c el h = draining-IsOrderly e sv li ac r c el h
  event-IsOrderly e (returned v) sv li ac r c el h = still-IsOrderly e es h

start-IsOrderly : IsOrderly [] start
unfolding AtPhase
start-IsOrderly = record { at_phase = (refl, λ q. cc); failure = λ e q. cc; cancelled = λ q. cc }

run_http-IsOrderly : (es : List Event) → IsOrderly es (run_http es)
unfolding run_http
run_http-IsOrderly [] = start-IsOrderly
run_http-IsOrderly (e ∷ es) =
    let s : HttpRun = run_http es in
    event-IsOrderly es e s.phase s.serving s.listening s.active s.result s.cancelled s.elapsed
      (run_http-IsOrderly es)

-- What a return says of the schedule and of the server.
unfoldable pub Explains : List Event → HttpRun → Option Text → Type 0
Explains es s none = Memᴰ cancel es × (s.listening ≡ false) × (s.active ≡ 0)
Explains es s (some e) = Memᴰ (serve_fails e) es

-- Under any schedule, if `runHTTP` has returned `nil`, the context was cancelled, the listener is
-- closed and no connection is open; if it has returned an error, `Serve` failed with that error.
pub run_http-Explains :
    (es : List Event) (v : Option Text)
    → (run_http es).phase ≡ returned v
    → Explains es (run_http es) v
run_http-Explains es v h = by_result v (subst (λ p. AtPhase es p (run_http es)) h inv.at_phase)
  where
    inv : IsOrderly es (run_http es)
    inv = run_http-IsOrderly es

    by_result :
        (v : Option Text) → AtPhase es (returned v) (run_http es) → Explains es (run_http es) v
    by_result none a = unfold AtPhase Explains in (inv.cancelled a.0, a.1, a.2)
    by_result (some e) a = unfold AtPhase Explains in a
