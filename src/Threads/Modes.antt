-- ===== src/Threads/Modes.antt =====
-- Who changes the mode of module/echo_state.c, among any threads.
use team9osdriver.Prelude.{ℕ, ◌≡◌, ◌≢◌, ◌⊎◌, inl, inr, refl, arith, Bool, true, false}
use team9osdriver.Types.{idle, teach, replay}
use team9osdriver.State.{enter_teach, replay_complete}
use team9osdriver.Device.{
  Kernel, Dev, op_move_servo, state_op_record_move, state_op_clear_buffer, state_op_start_replay,
  notify_readers, signal_replay_done,
}
use team9osdriver.Threads.{
  Pc, input_lock, start_lock, teach_lock, stop_lock, reset_lock, TimerPc, timer_locks, WorkerPc,
  worker_completes, advance, timer_advance, worker_advance,
}
use team9osdriver.Threads.System.{
  System, Step, call, go, fire, tick, begin, work, thread_step, timer_step, worker_step,
  timer_fires, worker_begins,
}

-- the sections under `mode_lock`
abbrev pub presses : Pc → Bool
presses (input_lock _ _ _) = true
presses _ = false

abbrev pub teaches : Pc → Bool
teaches (teach_lock _) = true
teaches _ = false

abbrev pub starts : Pc → Bool
starts start_lock = true
starts _ = false

abbrev pub stops : Pc → Bool
stops stop_lock = true
stops reset_lock = true
stops _ = false

abbrev silences : TimerPc → Bool
silences timer_locks = true
silences _ = false

abbrev pub completes : WorkerPc → Bool
completes worker_completes = true
completes _ = false

module _ (k : Kernel) where
  -- What may happen to the mode in one section, and who does it.
  pub data ModeStep (s t : System k) : Type 0 where
    keeps : t.dev.state.mode ≡ s.dev.state.mode → ModeStep s t
    pressed :
        (i : ℕ)
        → presses (s.threads i) ≡ true
        → s.dev.state.mode ≡ idle
        → t.dev.state.mode ≡ teach
        → ModeStep s t
    taught : (i : ℕ) → teaches (s.threads i) ≡ true → t.dev.state.mode ≡ teach → ModeStep s t
    started :
        (i : ℕ)
        → starts (s.threads i) ≡ true
        → s.dev.state.mode ≢ replay
        → t.dev.state.mode ≡ replay
        → ModeStep s t
    stopped : (i : ℕ) → stops (s.threads i) ≡ true → t.dev.state.mode ≡ idle → ModeStep s t
    silent :
        silences s.timer ≡ true
        → s.dev.state.mode ≡ teach
        → t.dev.state.mode ≡ replay
        → ModeStep s t
    completed : completes s.worker ≡ true → t.dev.state.mode ≡ idle → ModeStep s t

  advance-mode :
      (p : Pc) (d : Dev k)
      → let m = d.state.mode in
        let m' = (advance k p d).1.state.mode in
        (m' ≡ m)
        ⊎ (((presses p ≡ true) × (m ≡ idle) × (m' ≡ teach))
            ⊎ (((teaches p ≡ true) × (m' ≡ teach))
                ⊎ (((starts p ≡ true) × (m ≢ replay) × (m' ≡ replay))
                    ⊎ ((stops p ≡ true) × (m' ≡ idle)))))
  unfolding advance enter_teach op_move_servo state_op_record_move state_op_clear_buffer
      state_op_start_replay notify_readers signal_replay_done
  advance-mode p d = ground arith

  timer_advance-mode :
      (p : TimerPc) (d : Dev k)
      → let m = d.state.mode in
        let m' = (timer_advance k p d).1.state.mode in
        (m' ≡ m) ⊎ ((silences p ≡ true) × (m ≡ teach) × (m' ≡ replay))
  unfolding timer_advance state_op_start_replay notify_readers
  timer_advance-mode p d = ground arith

  worker_advance-mode :
      (p : WorkerPc) (d : Dev k)
      → let m' = (worker_advance k p d).1.state.mode in
        (m' ≡ d.state.mode) ⊎ ((completes p ≡ true) × (m' ≡ idle))
  unfolding worker_advance op_move_servo notify_readers signal_replay_done replay_complete
  worker_advance-mode p d = ground arith

  -- Each section of each thread, of the timer and of the worker changes the mode, if at all, as the
  -- state machine allows: IDLE to TEACH by a press, any mode to TEACH by a request to teach, IDLE or
  -- TEACH to REPLAY by a request to replay, any mode to IDLE by a stop or a RESET, TEACH to REPLAY by
  -- the inactivity timer, and any mode to IDLE by the worker that has completed a replay.
  pub Step-ModeStep : {calls : Pc → Bool} {s t : System k} → Step k calls s t → ModeStep s t
  unfolding thread_step timer_step worker_step timer_fires worker_begins
  Step-ModeStep (call i p e c) = keeps refl
  Step-ModeStep {s = s} (go i c) = elim (advance-mode (s.threads i) s.dev) [
    | inl e ↦ keeps e
    | inr (inl (y, m, e)) ↦ pressed i y m e
    | inr (inr (inl (y, e))) ↦ taught i y e
    | inr (inr (inr (inl (y, m, e)))) ↦ started i y m e
    | inr (inr (inr (inr (y, e)))) ↦ stopped i y e
  ]
  Step-ModeStep (fire t r e) = keeps refl
  Step-ModeStep {s = s} (tick r) = elim (timer_advance-mode s.timer s.dev) [
    | inl e ↦ keeps e
    | inr (y, m, e) ↦ silent y m e
  ]
  Step-ModeStep (begin moves r e z) = keeps refl
  Step-ModeStep {s = s} (work r) = elim (worker_advance-mode s.worker s.dev) [
    | inl e ↦ keeps e
    | inr (y, e) ↦ completed y e
  ]
