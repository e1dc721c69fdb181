-- ===== src/Controller/Threads.antt =====
-- The replay threads of app/echo_controller.c.
use team9osdriver.Prelude.{false, ◌≤◌, ◌≡◌, true, List, [], ◌∷◌, arith}
use team9osdriver.Types.{replay}
use team9osdriver.State.{state_start_replay}
use team9osdriver.Chardev.{echo_write}
use team9osdriver.Chardev.Reading.{Awaits}
use team9osdriver.Controller.{send, replay_thread, replay_complete, replay_failed}
use team9osdriver.Device.{state_ptr, state_ops, Kernel, Dev}
use team9osdriver.Controller.{Moment, App, AppEvent, key, thread, app_step, app_run, app_start}

module _ (k : Kernel) where
  -- There is one replay thread at most, and the flag is set while there is one.
  pub record Guarded (a : App k) : Type 0 where
    single : a.threads ≤ 1
    flagged : a.threads ≡ 1 → a.replaying ≡ true

  step-Guarded : (a : App k) (e : AppEvent k) → Guarded a → Guarded (app_step k a e)
  unfolding app_step
  step-Guarded a (key m spawned ch) g = ground (arith, g.single, g.flagged)
  step-Guarded a (thread m) g = ground (arith, g.single, g.flagged)

  run-Guarded : (a : App k) (es : List (AppEvent k)) → Guarded a → Guarded (app_run k a es)
  unfolding app_run
  run-Guarded a [] g = g
  run-Guarded a (e ∷ es) g = run-Guarded (app_step k a e) es (step-Guarded a e g)

  -- Whatever keys are pressed and whenever the replay threads run, there is one replay thread at most,
  -- and `replaying` is set while there is one.
  app_run-Guarded :
      (d : Dev k) (es : List (AppEvent k))
      → let a = app_run k (app_start k d) es in
        (a.threads ≤ 1) × (a.threads ≡ 1 → a.replaying ≡ true)
  app_run-Guarded d es =
      let g =
        run-Guarded (app_start k d) es
          (record { single = omega arith; flagged = λ h. ground arith }) in
      (g.single, g.flagged)

  lost_step :
      (a : App k) (e : AppEvent k)
      → a.replaying ≡ true
      → a.threads ≡ 0
      → let a' = app_step k a e in (a'.replaying ≡ true) × (a'.threads ≡ 0)
  unfolding app_step
  lost_step a (key m spawned ch) r t = ground arith
  lost_step a (thread m) r t = ground arith

  -- Once `replaying` is set without a thread, which a pthread_create that fails leaves, no key ever
  -- starts a replay again.
  replay_lost :
      (a : App k) (es : List (AppEvent k))
      → a.replaying ≡ true
      → a.threads ≡ 0
      → let a' = app_run k a es in (a'.replaying ≡ true) × (a'.threads ≡ 0)
  unfolding app_run
  replay_lost a [] r t = (r, t)
  replay_lost a (e ∷ es) r t =
      let next = lost_step a e r t in replay_lost (app_step k a e) es next.0 next.1

  -- If a sleep that no signal ends leaves the flag that a replay has finished set, a replay thread
  -- that ends with "Replay complete." leaves that flag set, and one that finds the device in replay
  -- mode ends with "REPLAY failed".
  replay_thread_lem :
      (m : Moment k) (a : App k)
      → Awaits k (λ d. d.replay_finished) m.sleep
      → let a' = replay_thread k m a in
        (a'.status ≡ replay_complete → a'.device.replay_finished ≡ true)
        × (a.device.state.mode ≡ replay → a'.status ≡ replay_failed)
  unfolding replay_thread send echo_write state_start_replay
  replay_thread_lem m a law =
      let begun = record (a.device) { replay_finished = false } in
      (
        ground (arith, law (state_start_replay k.clock state_ptr (state_ops k) begun).1),
        λ busy. ground arith,
      )
