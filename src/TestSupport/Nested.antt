-- ===== src/TestSupport/Nested.antt =====
-- What one test does to the shared container.
use clickhouse_mcp.TestSupport.Words.{IsWord, sanitize-IsWord}
use clickhouse_mcp.Client.{Client, connected, unconnected}
use clickhouse_mcp.Prelude.{
  ℕ, suc, List, [], ◌∷◌, ◌++◌, append_assoc, Option, none, some, ◌≡◌, refl, sym, subst, ap, ◌∙◌,
  ◌+◌, arith,
}
use clickhouse_mcp.TestSupport.{
  sanitize, setup, Got, got, not_got, Booted, Act, runs_container, executes, opens, closes, Outside,
  TestRun, Given, given, fatal, drop_sql, create_sql, boot_port, boot_host, boot_container, boot,
  once, start, exec, create, reset, with_database, connected_as, connect_as, TestUse,
  shared_connection, own_database, other_user, test_executes, register, own_statement, go_on,
  run_use, run_uses,
}
use clickhouse_mcp.Text.{Text, codes}

module _ {C : Type 0} where
  -- How many containers were run.
  abbrev pub containers_run : List (Act C) → ℕ
  containers_run [] = 0
  containers_run (runs_container s ∷ l) = suc (containers_run l)
  containers_run (_ ∷ l) = containers_run l

  containers_run-append :
      (l m : List (Act C)) → containers_run (l ++ m) ≡ containers_run l + containers_run m
  containers_run-append [] m = omega arith
  containers_run-append (runs_container s ∷ l) m = omega (arith, containers_run-append l m)
  containers_run-append (executes c q ∷ l) m = containers_run-append l m
  containers_run-append (test_executes c q ∷ l) m = containers_run-append l m
  containers_run-append (opens c ∷ l) m = containers_run-append l m
  containers_run-append (closes c ∷ l) m = containers_run-append l m

module _ {Ctr C : Type 0} (out : Outside Ctr C) where
  open out use {exec_error}

  -- What one test does after what was done before it, in whatever order it uses the helpers. Each
  -- database that is created and each connection that is opened encloses what the test does from
  -- then on, and is dropped or closed behind it. Where a statement for a database fails, the test
  -- does no more.
  pub data IsNested : (before l : List (Act C)) → Type 0 where
    ended : {b : List (Act C)} → IsNested b []
    own_work :
        {b l : List (Act C)} (conn : C) (sql : Text)
        → IsNested (b ++ test_executes conn sql ∷ []) l
        → IsNested b (test_executes conn sql ∷ l)
    container :
        {b l : List (Act C)}
        → containers_run b ≡ 0
        → IsNested (b ++ runs_container setup ∷ []) l
        → IsNested b (runs_container setup ∷ l)
    no_reset :
        {b : List (Act C)} (conn : C) (db e : Text)
        → IsWord db
        → exec_error b conn (codes "DROP DATABASE IF EXISTS " ++ db) ≡ some e
        → IsNested b (executes conn (codes "DROP DATABASE IF EXISTS " ++ db) ∷ [])
    no_create :
        {b : List (Act C)} (conn : C) (db e : Text)
        → IsWord db
        → exec_error
            (b ++ executes conn (codes "DROP DATABASE IF EXISTS " ++ db) ∷ [])
            conn
            (codes "CREATE DATABASE " ++ db)
          ≡ some e
        → IsNested b (
            executes conn (codes "DROP DATABASE IF EXISTS " ++ db)
            ∷ executes conn (codes "CREATE DATABASE " ++ db)
            ∷ [])
    database :
        {b l : List (Act C)} (conn : C) (db : Text)
        → IsWord db
        → IsNested
            ((b ++ executes conn (codes "DROP DATABASE IF EXISTS " ++ db) ∷ [])
              ++ executes conn (codes "CREATE DATABASE " ++ db) ∷ [])
            l
        → IsNested b (
            executes conn (codes "DROP DATABASE IF EXISTS " ++ db)
            ∷ executes conn (codes "CREATE DATABASE " ++ db)
            ∷ (l ++ executes conn (codes "DROP DATABASE IF EXISTS " ++ db) ∷ []))
    connection :
        {b l : List (Act C)} (conn : C)
        → IsNested (b ++ opens conn ∷ []) l
        → IsNested b (opens conn ∷ (l ++ closes conn ∷ []))

  -- As long as `boot` has not run, no container was; and `Cleanup` runs none.
  unfoldable pub RanNone : Option (Booted C) → List (Act C) → Type 0
  RanNone none l = containers_run l ≡ 0
  RanNone (some b) l = Unit

  abbrev pub IsOnce : TestRun C → Type 0
  IsOnce w = (containers_run w.cleanups ≡ 0) × RanNone w.shared.booted w.done

  pub RanNone-append :
      (o : Option (Booted C)) (l m : List (Act C))
      → containers_run m ≡ 0
      → RanNone o l
      → RanNone o (l ++ m)
  unfolding RanNone
  RanNone-append none l m e h = omega (arith, containers_run-append l m)
  RanNone-append (some b) l m e h = tt

  -- What a test adds from some state on: nested work, and what is registered at that time.
  abbrev pub Adds : TestRun C → TestRun C → Type 0
  Adds w v =
      IsOnce v
      × (l : List (Act C)) × (v.done ++ v.cleanups ≡ w.done ++ (l ++ w.cleanups))
      × IsNested w.done l

  -- One act goes in front of what is added.
  after_act :
      (b l cs : List (Act C)) (a : Act C) → (b ++ a ∷ []) ++ (l ++ cs) ≡ b ++ ((a ∷ l) ++ cs)
  after_act b l cs a = append_assoc b (a ∷ []) (l ++ cs)

  Adds-none : (w : TestRun C) → IsOnce w → Adds w w
  Adds-none w h = (h, [], refl, ended)

  boot_container-some : (g : Got Ctr) → (b : Booted C) × ((boot_container out g).booted ≡ some b)
  unfolding boot_container
  boot_container-some (not_got e) = (_, refl)
  boot_container-some (got ctr) = by_host ctr (out.host_of ctr)
    where
      by_port :
          (host : Text) (p : Got ℕ) → (b : Booted C) × ((boot_port out host p).booted ≡ some b)
      by_port host (not_got e) = unfold boot_port in (_, refl)
      by_port host (got port) = unfold boot_port in (_, refl)

      by_host :
          (ctr : Ctr) (h : Got Text) → (b : Booted C) × ((boot_host out ctr h).booted ≡ some b)
      by_host ctr (not_got e) = unfold boot_host in (_, refl)
      by_host ctr (got host) = unfold boot_host in by_port host (out.port_of ctr (codes "9000/tcp"))

  once-IsOnce :
      (o : Option (Booted C)) (w : TestRun C)
      → w.shared.booted ≡ o
      → IsOnce w
      → IsOnce (once out o w)
  unfolding once boot RanNone
  once-IsOnce (some b) w e h = h
  once-IsOnce none w e (h, _) =
      let (b, is_some) = boot_container-some (out.run_container setup) in
      (h, subst (λ o. RanNone o (w.done ++ runs_container setup ∷ [])) (sym is_some) tt)

  -- `Start` adds a container or nothing.
  after_once :
      (o : Option (Booted C)) (w v : TestRun C)
      → w.shared.booted ≡ o
      → IsOnce w
      → Adds (once out o w) v
      → Adds w v
  unfolding once boot RanNone
  after_once (some b) w v at h added = added
  after_once none w v at (_, h) (g, l, e, nested) =
      let none_ran : containers_run w.done ≡ 0 = subst (λ o. RanNone o w.done) at h in
      (g, _, e ∙ after_act w.done l w.cleanups (runs_container setup), container none_ran nested)

  after_start : (w v : TestRun C) → IsOnce w → Adds (start out w).1 v → Adds w v
  unfolding start
  after_start w v h added = after_once w.shared.booted w v refl h added

  start-IsOnce : (w : TestRun C) → IsOnce w → IsOnce (start out w).1
  unfolding start
  start-IsOnce w h = once-IsOnce w.shared.booted w refl h

  -- A test goes on from any state, or has ended there.
  module _ (k : TestRun C → TestRun C) (adds : (w : TestRun C) → IsOnce w → Adds w (k w)) where
    on_shared : (g : Given C) (w : TestRun C) → IsOnce w → Adds w (go_on k (g, w))
    unfolding go_on
    on_shared fatal w h = Adds-none w h
    on_shared (given conn) w h = adds w h

    on_connected :
        (c : Client C) (w : TestRun C) → IsOnce w → Adds w (go_on k (connected_as out c w))
    unfolding go_on connected_as register
    on_connected (unconnected e) w h = Adds-none w h
    on_connected (connected conn) w (h, ran) =
        let (g, l, e, nested) =
          adds
            (record {
              shared = w.shared;
              done = w.done ++ opens conn ∷ [];
              cleanups = closes conn ∷ w.cleanups;
            })
            (h, RanNone-append _ w.done (opens conn ∷ []) refl ran) in
        (
          g,
          _,
          e
              ∙ after_act w.done l (closes conn ∷ w.cleanups) (opens conn)
              ∙ ap (λ r. w.done ++ opens conn ∷ r)
                  (sym (append_assoc l (closes conn ∷ []) w.cleanups)),
          connection conn nested,
        )

    on_connect :
        (user password : Text) (g : Given C) (w : TestRun C)
        → IsOnce w
        → Adds w (go_on k (connect_as out user password (g, w)))
    unfolding connect_as go_on
    on_connect user password fatal w h = Adds-none w h
    on_connect user password (given conn) w h = on_connected _ w h

    on_database :
        (name : Text) (g : Given C) (w : TestRun C)
        → IsOnce w
        → Adds w (go_on k (with_database out name (g, w)))
    unfolding with_database reset create exec register go_on drop_sql create_sql
    on_database name fatal w h = Adds-none w h
    on_database name (given conn) w (h, ran) = by_drop (exec_error w.done conn (drop_sql db)) refl
      where
        db : Text
        db = sanitize name

        drops : Act C
        drops = executes conn (codes "DROP DATABASE IF EXISTS " ++ db)

        creates : Act C
        creates = executes conn (codes "CREATE DATABASE " ++ db)

        dropped : TestRun C
        dropped = record w { done = w.done ++ drops ∷ [] }

        created : TestRun C
        created = record w { done = (w.done ++ drops ∷ []) ++ creates ∷ [] }

        ready : TestRun C
        ready = record {
          shared = w.shared;
          done = (w.done ++ drops ∷ []) ++ creates ∷ [];
          cleanups = drops ∷ w.cleanups;
        }

        ran_one : RanNone w.shared.booted (w.done ++ drops ∷ [])
        ran_one = RanNone-append _ w.done (drops ∷ []) refl ran

        ran_two : RanNone w.shared.booted ((w.done ++ drops ∷ []) ++ creates ∷ [])
        ran_two = RanNone-append _ (w.done ++ drops ∷ []) (creates ∷ []) refl ran_one

        two_acts :
            (l cs : List (Act C))
            → ((w.done ++ drops ∷ []) ++ creates ∷ []) ++ (l ++ cs)
              ≡ w.done ++ (drops ∷ creates ∷ (l ++ cs))
        two_acts l cs =
            after_act (w.done ++ drops ∷ []) l cs creates
            ∙ append_assoc w.done (drops ∷ []) (creates ∷ (l ++ cs))

        by_create :
            (o : Option Text)
            → exec_error (w.done ++ drops ∷ []) conn (codes "CREATE DATABASE " ++ db) ≡ o
            → Adds w (go_on k (create out conn db (o, created)))
        by_create (some e) q =
            ((h, ran_two), _, two_acts [] w.cleanups, no_create conn db e (sanitize-IsWord name) q)
        by_create none q =
            let (g, l, e, nested) = adds ready (h, ran_two) in
            (
              g,
              _,
              e
                  ∙ two_acts l (drops ∷ w.cleanups)
                  ∙ ap (λ r. w.done ++ (drops ∷ creates ∷ r))
                      (sym (append_assoc l (drops ∷ []) w.cleanups)),
              database conn db (sanitize-IsWord name) nested,
            )

        by_drop :
            (o : Option Text)
            → exec_error w.done conn (codes "DROP DATABASE IF EXISTS " ++ db) ≡ o
            → Adds w (go_on k (reset out conn db (o, dropped)))
        by_drop (some e) q = (
          (h, ran_one),
          _,
          after_act w.done [] w.cleanups drops,
          no_reset conn db e (sanitize-IsWord name) q,
        )
        by_drop none q = by_create (exec_error (w.done ++ drops ∷ []) conn (create_sql db)) refl

    on_use :
        (name : Text) (u : TestUse C) (w : TestRun C)
        → IsOnce w
        → Adds w (go_on k (run_use out name u w))
    unfolding run_use
    on_use name shared_connection w h =
        after_start w (go_on k (start out w)) h
          (on_shared (start out w).0 (start out w).1 (start-IsOnce w h))
    on_use name own_database w h =
        after_start w (go_on k (with_database out name (start out w))) h
          (on_database name (start out w).0 (start out w).1 (start-IsOnce w h))
    on_use name (other_user user password) w h =
        after_start w (go_on k (connect_as out user password (start out w))) h
          (on_connect user password (start out w).0 (start out w).1 (start-IsOnce w h))
    on_use name (own_statement conn sql) w (h, ran) =
        unfold go_on in
        let (g, l, e, nested) =
          adds (record w { done = w.done ++ test_executes conn sql ∷ [] })
            (h, RanNone-append _ w.done (test_executes conn sql ∷ []) refl ran) in
        (g, _, e ∙ after_act w.done l w.cleanups (test_executes conn sql), own_work conn sql nested)

  pub uses_add :
      (name : Text) (us : List (TestUse C)) (w : TestRun C)
      → IsOnce w
      → Adds w (run_uses out name us w)
  unfolding run_uses
  uses_add name [] w h = Adds-none w h
  uses_add name (u ∷ us) w h = on_use (run_uses out name us) (uses_add name us) name u w h
