-- ===== src/Init/Unload.antt =====
-- `echo_exit` of module/echo_main.c while the threads of the driver run: what it waits for, what it
-- frees, and what the threads still use. The kernel unloads no module whose file is open, so the
-- only calls left are presses of the joystick.
pub mod Order
pub mod Ending
pub mod Fault
use team9osdriver.Prelude.{ℕ, zero, suc, ◌≡◌, Bool, true, false, none, Option, some}
use team9osdriver.Device.{Kernel, Dev}
use team9osdriver.Threads.{
  Pc, ended, input_lock, TimerPc, timer_rests, timer_locks, timer_queues, timer_notifies, WorkerPc,
  worker_rests, worker_starts, worker_counts, worker_tests, worker_sleeps, worker_moves,
  worker_notifies, worker_completes, worker_signals,
}
use team9osdriver.Threads.System.{System, Step, timer_at_rest, worker_at_rest}

-- the contexts that `echo_exit` frees and that threads of the driver use
pub data Part : Type 0 where
  joystick_part state_part buffer_part servo_part device_part : Part

-- Where `echo_exit` is: before the first part (it removes the files), in `free_irq`, in
-- `timer_delete_sync`, before the `kfree` of the state machine, in `cancel_work_sync`, before the
-- `kfree` of the buffer, before those of the servos and of the device, and behind its end.
pub data ExitPc : Type 0 where
  exit_begins exit_irqs exit_timer exit_state exit_work exit_buffer exit_servo exit_device
        unloaded :
      ExitPc

abbrev pub is_freed : Part → ExitPc → Bool
is_freed _ exit_begins = false
is_freed _ exit_irqs = false
is_freed joystick_part _ = true
is_freed _ exit_timer = false
is_freed _ exit_state = false
is_freed state_part _ = true
is_freed _ exit_work = false
is_freed _ exit_buffer = false
is_freed buffer_part _ = true
is_freed _ exit_servo = false
is_freed servo_part _ = true
is_freed _ exit_device = false
is_freed device_part _ = true

-- the contexts that the worker's next section reads or writes
abbrev pub worker_uses : WorkerPc → Part → Bool
worker_uses (worker_starts none) buffer_part = true
worker_uses (worker_starts (some _)) buffer_part = true
worker_uses (worker_counts _ _) buffer_part = true
worker_uses (worker_tests (suc _) _ _) buffer_part = true
worker_uses (worker_tests (suc _) _ _) device_part = true
worker_uses (worker_tests (suc _) _ _) state_part = true
worker_uses (worker_sleeps _ _ _) buffer_part = true
worker_uses (worker_moves _ _ _) buffer_part = true
worker_uses (worker_moves _ _ _) device_part = true
worker_uses (worker_moves _ _ _) servo_part = true
worker_uses (worker_notifies _ _ _) buffer_part = true
worker_uses (worker_notifies _ _ _) device_part = true
worker_uses worker_completes buffer_part = true
worker_uses worker_completes device_part = true
worker_uses worker_completes state_part = true
worker_uses worker_signals device_part = true
worker_uses _ _ = false

abbrev pub timer_uses : TimerPc → Part → Bool
timer_uses timer_locks state_part = true
timer_uses timer_queues state_part = true
timer_uses timer_queues device_part = true
timer_uses timer_queues buffer_part = true
timer_uses timer_notifies state_part = true
timer_uses timer_notifies device_part = true
timer_uses _ _ = false

-- A thread in a call may use all of them.
abbrev pub thread_uses : Pc → Bool
thread_uses ended = false
thread_uses _ = true

-- A press comes until `free_irq` has returned.
abbrev pub calls_at : ExitPc → Pc → Bool
calls_at exit_begins (input_lock _ _ _) = true
calls_at exit_irqs (input_lock _ _ _) = true
calls_at _ _ = false

module _ (k : Kernel) where
  pub record Unload : Type 0 where
    pub sys : System k
    pub exit : ExitPc

  -- what `echo_exit` waits for
  abbrev pub CanLeave : ExitPc → System k → Type 0
  CanLeave exit_irqs s = (i : ℕ) → s.threads i ≡ ended
  CanLeave exit_timer s = timer_at_rest s.timer ≡ true
  CanLeave exit_work s = worker_at_rest s.worker ≡ true
  CanLeave unloaded s = ⊥
  CanLeave _ s = Unit {0}

  abbrev timer_deleted : System k → System k
  timer_deleted s = record s {
    dev = record (s.dev) { state = record (s.dev.state) { inactivity_timer = none } };
  }

  abbrev work_cancelled : System k → System k
  work_cancelled s = record s {
    dev = record (s.dev) { buffer = record (s.dev.buffer) { work_pending = false } };
  }

  unfoldable pub exit_advance : ExitPc → System k → Unload
  exit_advance exit_begins s = record { sys = s; exit = exit_irqs }
  exit_advance exit_irqs s = record { sys = s; exit = exit_timer }
  exit_advance exit_timer s = record { sys = timer_deleted s; exit = exit_state }
  exit_advance exit_state s = record { sys = s; exit = exit_work }
  exit_advance exit_work s = record { sys = work_cancelled s; exit = exit_buffer }
  exit_advance exit_buffer s = record { sys = s; exit = exit_servo }
  exit_advance exit_servo s = record { sys = s; exit = exit_device }
  exit_advance exit_device s = record { sys = s; exit = unloaded }
  exit_advance unloaded s = record { sys = s; exit = unloaded }

  pub data Exit (u : Unload) : Unload → Type 0 where
    run : {t : System k} → Step k (calls_at u.exit) u.sys t → Exit u (record u { sys = t })
    leave : CanLeave u.exit u.sys → Exit u (exit_advance u.exit u.sys)

  pub data Exits (u : Unload) : Unload → Type 0 where
    here : Exits u u
    next : {v w : Unload} → Exits u v → Exit v w → Exits u w
