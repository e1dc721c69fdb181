-- ===== src/Application/Quitting.antt =====
-- How the application of app/echo_app.c ends.
use team9osdriver.Prelude.{
  ℕ, ◌-◌, ◌+◌, ◌≤◌, ◌≡◌, ◌≢◌, ◌⊎◌, refl, arith, Bool, false, Option, none, some, List, [], ◌∷◌,
}
use team9osdriver.Device.{Kernel}
use team9osdriver.Controller.{
  Moment, App, Status, handle_key, teach_key, replay_key, stop_key, reset_key, app_step,
  replay_thread,
}
use team9osdriver.Application.{
  clean_up, draw, take_key, read_snapshot, replay_from, sigint_handler, MainPc, looping, at_getch,
  napping, finished, no_reader, World, Event, main_step, reader_step, replay_step, signal, driver,
  main_from, reader_from, step, run,
}

module _ (k : Kernel) where
  -- the steps of the main thread, and those of them that find no key
  abbrev is_main : Event k → ℕ
  is_main (main_step _) = 1
  is_main _ = 0

  abbrev main_steps : List (Event k) → ℕ
  main_steps [] = 0
  main_steps (e ∷ es) = is_main e + main_steps es

  abbrev is_idle : Event k → ℕ
  is_idle (main_step none) = 1
  is_idle _ = 0

  abbrev idle_steps : List (Event k) → ℕ
  idle_steps [] = 0
  idle_steps (e ∷ es) = is_idle e + idle_steps es

  -- the steps to the end of a thread that finds `running` cleared
  left : MainPc → ℕ
  left finished = 0
  left looping = 1
  left napping = 2
  left at_getch = 3

  -- A world whose loops will end, with what was drawn last.
  record Stopping (shown : Option (List ℕ × Status)) (w : World k) : Type 0 where
    cleared : w.app.running ≡ false
    gone : w.main ≡ finished → w.reader ≡ no_reader
    kept : w.drawn ≡ shown

  abbrev Ended : Option (List ℕ × Status) → World k → Type 0
  Ended shown w = (w.main ≡ finished) × (w.reader ≡ no_reader) × (w.drawn ≡ shown)

  module _ (shown : Option (List ℕ × Status)) where
    handle_key_clears :
        (m : Moment k) (spawned : Bool) (ch : ℕ) (a : App k)
        → a.running ≡ false
        → (handle_key k m spawned ch a).1.running ≡ false
    unfolding handle_key teach_key replay_key stop_key reset_key
    handle_key_clears m spawned ch a h = ground arith

    -- A step keeps that the loops end, and comes nearer to the end if it is idle, or if it is one
    -- of the main thread outside of its inner loop, to which it does not come back.
    Nearer : MainPc → ℕ → ℕ → World k → Type 0
    Nearer p idle own w' =
        Stopping shown w'
        × (left w'.main ≤ left p - idle)
        × (p ≢ at_getch → (left w'.main ≤ left p - own) × (w'.main ≢ at_getch))

    main-Nearer :
        (p : MainPc) (found : Option (Moment k × Bool × ℕ)) (w : World k)
        → w.main ≡ p
        → Stopping shown w
        → Nearer p (is_idle (main_step found)) 1 (main_from k p found w)
    unfolding main_from clean_up draw take_key left Nearer
    main-Nearer looping none w e h = ground (arith, h.cleared, h.gone, h.kept)
    main-Nearer looping (some found) w e h = ground (arith, h.cleared, h.gone, h.kept)
    main-Nearer at_getch none w e h = ground (arith, h.cleared, h.gone, h.kept)
    main-Nearer at_getch (some (m, spawned, ch)) w e h =
        ground (arith, h.cleared, h.gone, h.kept, handle_key_clears m spawned ch w.app h.cleared)
    main-Nearer napping none w e h = ground (arith, h.cleared, h.gone, h.kept)
    main-Nearer napping (some found) w e h = ground (arith, h.cleared, h.gone, h.kept)
    main-Nearer finished none w e h = ground (arith, h.cleared, h.gone, h.kept)
    main-Nearer finished (some found) w e h = ground (arith, h.cleared, h.gone, h.kept)

    step-Nearer :
        (w : World k) (e : Event k)
        → Stopping shown w
        → Nearer w.main (is_idle e) (is_main e) (step k w e)
    unfolding step reader_from read_snapshot replay_from app_step replay_thread sigint_handler
        Nearer
    step-Nearer w (main_step found) h = main-Nearer w.main found w refl h
    step-Nearer w (reader_step block pad copied) h = ground (arith, h.cleared, h.gone, h.kept)
    step-Nearer w (replay_step m) h = ground (arith, h.cleared, h.gone, h.kept)
    step-Nearer w signal h = ground (arith, h.cleared, h.gone, h.kept)
    step-Nearer w (driver f) h = ground (arith, h.cleared, h.gone, h.kept)

    stopped : (w : World k) → Stopping shown w → left w.main ≤ 0 → Ended shown w
    unfolding left
    stopped w h z = ground (arith, h.gone, h.kept)

    own_run :
        (es : List (Event k)) (w : World k)
        → Stopping shown w
        → w.main ≢ at_getch
        → left w.main ≤ main_steps es
        → Ended shown (run k w es)
    unfolding run Nearer
    own_run [] w h out le = stopped w h le
    own_run (e ∷ es) w h out le =
        let (h', _, less) = step-Nearer w e h in
        own_run es _ h' (less out).1 (omega (arith, (less out).0))

  quit_key :
      (m : Moment k) (spawned : Bool) (ch : ℕ) (w : World k)
      → (ch ≡ 113) ⊎ (ch ≡ 81)
      → w.main ≡ at_getch
      → step k w (main_step (some (m, spawned, ch)))
        ≡ record w { main = napping; app = record w.app { running = false } }
  unfolding step main_from take_key handle_key
  quit_key m spawned ch w q at = ground arith

  -- The key q ends the application: two more steps of the main thread are enough, whatever keys
  -- wait behind it and whatever else happens. At the end the reader thread is gone, and nothing was
  -- drawn since.
  quit_ends :
      (m : Moment k) (spawned : Bool) (ch : ℕ) (w : World k) (es : List (Event k))
      → (ch ≡ 113) ⊎ (ch ≡ 81)
      → w.main ≡ at_getch
      → 2 ≤ main_steps es
      → let w' = run k (step k w (main_step (some (m, spawned, ch)))) es in
        (w'.main ≡ finished) × (w'.reader ≡ no_reader) × (w'.drawn ≡ w.drawn)
  unfolding left
  quit_ends m spawned ch w es q at enough = rw (quit_key m spawned ch w q at) (
      own_run w.drawn es (record w { main = napping; app = record w.app { running = false } })
        (record { cleared = refl; gone = λ e. absurd (ground arith); kept = refl })
        (λ e. absurd (ground arith)) (omega arith))
