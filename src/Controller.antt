-- ===== src/Controller.antt =====
-- app/echo_controller.c: the key handler of the application and its replay thread, over the driver's
-- own file operations. The text of an error number is left out of the status line.
pub mod Threads
pub mod Keys
use team9osdriver.Prelude.{
  ℕ, suc, zero, ◌-◌, ◌+◌, Bool, true, false, List, [], ◌∷◌, ◌||◌, some, ℤ, pos, negsuc, is_neg,
  ◌==◌, if◌then◌else◌,
}
use team9osdriver.Device.{Kernel, Dev, Now}
use team9osdriver.Chardev.{
  Cmd, cmd_teach, cmd_replay, cmd_stop, cmd_size, echo_write, echo_ioctl, reset,
}

-- what `status_buf` says
pub data Status : Type 0 where
  ready entered_teach replay_in_progress replaying_now replay_complete stopped device_reset : Status
  teach_failed replay_failed stop_failed reset_failed : Status

abbrev pub command_only : ℕ → Cmd
command_only c = record { command = c; servo_id = 0; angle = 0; speed = 0 }

module _ (k : Kernel) where
  -- When a call of the driver is made, and what happens to the device while it sleeps.
  pub record Moment : Type 0 where
    pub now : Now
    pub sleep : Dev k → Bool × Dev k

  -- The variables of the file and `running`, with the number of replay threads that have not ended
  -- and the device behind the file descriptor.
  pub record App : Type 0 where
    pub running : Bool
    pub replaying : Bool
    pub status : Status
    pub threads : ℕ
    pub device : Dev k

  unfoldable pub send : Moment → ℕ → Dev k → ℤ × Dev k
  send m c d = echo_write k m.now m.sleep (some (command_only c)) cmd_size d

  -- The replay thread, from its write to its end. The write blocks; what other threads do to the
  -- device meanwhile is the moment's `sleep`.
  unfoldable pub replay_thread : Moment → App → App
  replay_thread m a =
      let (ret, d) = send m cmd_replay a.device in
      record a {
        replaying = false;
        status = if is_neg ret then replay_failed else replay_complete;
        threads = a.threads - 1;
        device = d;
      }

  unfoldable pub teach_key : Moment → App → App
  teach_key m a =
      let (ret, d) = send m cmd_teach a.device in
      record a { status = if is_neg ret then teach_failed else entered_teach; device = d }

  -- `spawned` is whether pthread_create makes a thread; the code does not look at its result.
  unfoldable pub replay_key : Bool → App → App
  replay_key spawned a =
      if a.replaying then record a { status = replay_in_progress } else record a {
        replaying = true;
        status = replaying_now;
        threads = if spawned then suc a.threads else a.threads;
      }

  unfoldable pub stop_key : Moment → App → App
  stop_key m a =
      let (ret, d) = send m cmd_stop a.device in
      record a { status = if is_neg ret then stop_failed else stopped; device = d }

  unfoldable pub reset_key : Moment → App → App
  reset_key m a =
      let (ret, _, d) = echo_ioctl k m.now (0, 0) reset a.device in
      record a { status = if is_neg ret then reset_failed else device_reset; device = d }

  -- `echo_controller_handle_key`; the keys are characters.
  unfoldable pub handle_key : Moment → Bool → ℕ → App → ℤ × App
  unfolding teach_key replay_key stop_key reset_key
  handle_key m spawned ch a =
      if ch == 49 || ch == 116 || ch == 84
      then (pos 0, teach_key m a)
      else if ch == 50 || ch == 114 || ch == 82
      then (pos 0, replay_key spawned a)
      else if ch == 51 || ch == 115 || ch == 83
      then (pos 0, stop_key m a)
      else if ch == 54
      then (pos 0, reset_key m a)
      else if ch == 113 || ch == 81
      then (negsuc 0, record a { running = false })
      else (pos 0, a)

  -- what happens to the application: a key, or a replay thread that runs
  pub data AppEvent : Type 0 where
    key : Moment → Bool → ℕ → AppEvent
    thread : Moment → AppEvent

  -- A thread runs only if there is one.
  unfoldable pub app_step : App → AppEvent → App
  unfolding handle_key replay_thread
  app_step a (key m spawned ch) = (handle_key m spawned ch a).1
  app_step a (thread m) = if a.threads == 0 then a else replay_thread m a

  unfoldable pub app_run : App → List AppEvent → App
  app_run a [] = a
  app_run a (e ∷ es) = app_run (app_step a e) es

  -- the application at its start
  abbrev pub app_start : Dev k → App
  app_start d = record {
    running = true;
    replaying = false;
    status = ready;
    threads = 0;
    device = d;
  }
