-- ===== src/Application.antt =====
-- app/echo_app.c: the main thread of the application, its reader thread and its signal handler,
-- over the driver's file operations. What ncurses finds at the keyboard and whether a thread is
-- made are parameters of the steps.
pub mod Drawing
pub mod Quitting
use team9osdriver.Prelude.{
  ℕ, Bool, true, false, not, Option, none, some, List, [], ◌∷◌, ℤ, pos, is_neg, ◌⊎◌, inl, inr,
  if◌then◌else◌, replicate,
}
use team9osdriver.Device.{Kernel, Dev, Now}
use team9osdriver.Chardev.{snapshot_size, echo_open, echo_release, echo_read, echo_ioctl, get_state}
use team9osdriver.Controller.{Moment, App, Status, handle_key, app_start, app_step, thread}

-- where the main thread is: at its loop, at `getch`, in `napms`, or behind its end
pub data MainPc : Type 0 where
  looping at_getch napping finished : MainPc

-- where the reader thread is: at its loop, in `read`, or nowhere
pub data ReaderPc : Type 0 where
  testing in_read no_reader : ReaderPc

abbrev pub no_snapshot : List ℕ
no_snapshot = replicate 28 0

module _ (k : Kernel) where
  -- `app` holds `running`, the variables of the controller and the device; `drawn` is what the last
  -- call of `echo_visualizer_render` was given.
  pub record World : Type 0 where
    pub main : MainPc
    pub reader : ReaderPc
    pub shared_snap : List ℕ
    pub drawn : Option (List ℕ × Status)
    pub app : App k

  -- The main thread up to its loop. `handled` and `opened` are whether sigaction and open work,
  -- `copied` whether the state reaches user space, and `spawned` whether there is a reader thread;
  -- the code looks at the first two. A failure is the exit status.
  unfoldable pub set_up : Now → Bool → Bool → ℕ × ℕ → Bool → Bool → Dev k → ℤ ⊎ World
  set_up now handled opened pad copied spawned d =
      let d1 = (echo_open k d).1 in
      let (ret, bytes, d2) = echo_ioctl k now pad (get_state copied) d1 in
      if not handled
      then inl (pos 1)
      else if not opened
      then inl (pos 1)
      else inr (record {
        main = looping;
        reader = if spawned then testing else no_reader;
        shared_snap = if is_neg ret then no_snapshot else bytes;
        drawn = none;
        app = app_start k d2;
      })

  -- Behind the loop: the reader thread is cancelled and the file closed.
  unfoldable pub clean_up : World → World
  clean_up w = record w {
    main = finished;
    reader = no_reader;
    app = record w.app { device = (echo_release k w.app.device).1 };
  }

  unfoldable pub draw : World → World
  draw w = record w { main = at_getch; drawn = some (w.shared_snap, w.app.status) }

  -- A key that `getch` found; the inner loop ends if the controller says so.
  unfoldable pub take_key : Moment k → Bool → ℕ → World → World
  take_key m spawned ch w =
      let (ret, a) = handle_key k m spawned ch w.app in
      record w { main = if is_neg ret then napping else at_getch; app = a }

  -- The main thread up to its next stop, with the key that `getch` finds there, when that is, and
  -- whether a thread that the key asks for is made.
  unfoldable pub main_from : MainPc → Option (Moment k × Bool × ℕ) → World → World
  unfolding clean_up draw take_key
  main_from looping _ w = if w.app.running then draw w else clean_up w
  main_from at_getch none w = record w { main = napping }
  main_from at_getch (some (m, spawned, ch)) w = take_key m spawned ch w
  main_from napping _ w = record w { main = looping }
  main_from finished _ w = w

  unfoldable pub read_snapshot : (Dev k → Bool × Dev k) → ℕ × ℕ → Bool → World → World
  read_snapshot block pad copied w =
      let (n, snap, d) = echo_read k false block pad copied snapshot_size w.app.device in
      let w1 : World = record w { app = record w.app { device = d } } in
      if is_neg n
      then record w1 { reader = no_reader }
      else record w1 { reader = testing; shared_snap = snap }

  -- The reader thread up to its next stop. `block` is what happens to the device while it blocks.
  unfoldable pub reader_from : ReaderPc → (Dev k → Bool × Dev k) → ℕ × ℕ → Bool → World → World
  unfolding read_snapshot
  reader_from testing block pad copied w = record w {
    reader = if w.app.running then in_read else no_reader;
  }
  reader_from in_read block pad copied w = read_snapshot block pad copied w
  reader_from no_reader block pad copied w = w

  -- A replay thread runs, unless the process has ended.
  unfoldable pub replay_from : MainPc → Moment k → World → World
  replay_from finished m w = w
  replay_from _ m w = record w { app = app_step k w.app (thread m) }

  unfoldable pub sigint_handler : World → World
  sigint_handler w = record w { app = record w.app { running = false } }

  -- what happens: a step of one of the threads, a signal, or anything that the driver does by
  -- itself
  pub data Event : Type 0 where
    main_step : Option (Moment k × Bool × ℕ) → Event
    reader_step : (Dev k → Bool × Dev k) → ℕ × ℕ → Bool → Event
    replay_step : Moment k → Event
    signal : Event
    driver : (Dev k → Dev k) → Event

  unfoldable pub step : World → Event → World
  unfolding main_from reader_from replay_from sigint_handler
  step w (main_step found) = main_from w.main found w
  step w (reader_step block pad copied) = reader_from w.reader block pad copied w
  step w (replay_step m) = replay_from w.main m w
  step w signal = sigint_handler w
  step w (driver f) = record w { app = record w.app { device = f w.app.device } }

  unfoldable pub run : World → List Event → World
  unfolding step
  run w [] = w
  run w (e ∷ es) = run (step w e) es
