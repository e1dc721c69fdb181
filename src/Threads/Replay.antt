-- ===== src/Threads/Replay.antt =====
-- A device that says that it replays, with any threads that make no stop and no RESET.
use team9osdriver.Prelude.{ℕ, ◌≡◌, refl, ap, ◌∙◌, arith, Bool, true, false, ◌⊎◌, inl, inr}
use native.Mathlib.Decide.{ℕ_discrete}
use team9osdriver.Types.{replay}
use team9osdriver.State.{enter_teach}
use team9osdriver.Buffer.{buffer_record, buffer_clear, buffer_start_replay}
use team9osdriver.Device.{
  Kernel, Dev, op_move_servo, notify_readers, signal_replay_done, state_op_record_move,
  state_op_clear_buffer, state_op_start_replay,
}
use team9osdriver.Threads.{
  Pc, ended, start_timer, start_queue, stop_lock, stop_timer, stop_cancel, stop_signal, reset_lock,
  reset_timer, reset_cancel, reset_signal, reset_notify, reset_clear, reset_pan, reset_tilt,
  reset_tilt2, TimerPc, timer_queues, WorkerPc, advance, timer_advance, worker_advance,
}
use team9osdriver.Threads.System.{
  System, update, timer_at_rest, entry_but_stop, Step, call, go, fire, tick, begin, work,
  thread_step, timer_step, worker_step, timer_fires, worker_begins,
}
use team9osdriver.Threads.Progress.{alive, worker_advance-keeps}
use team9osdriver.Threads.Calls.{update_self}

-- A thread that has set the mode to REPLAY and will queue the work.
abbrev pub starting : Pc → Bool
starting start_timer = true
starting start_queue = true
starting _ = false

abbrev pub stopping : Pc → Bool
stopping stop_lock = true
stopping stop_timer = true
stopping stop_cancel = true
stopping stop_signal = true
stopping reset_lock = true
stopping reset_timer = true
stopping reset_cancel = true
stopping reset_signal = true
stopping reset_notify = true
stopping reset_clear = true
stopping reset_pan = true
stopping reset_tilt = true
stopping reset_tilt2 = true
stopping _ = false

abbrev pub queueing : TimerPc → Bool
queueing timer_queues = true
queueing _ = false

-- Another thread is still where `q` says after a thread that was not has moved.
pub update-still :
    (q : Pc → Bool) (f : ℕ → Pc) (i j : ℕ) (p : Pc)
    → q (f i) ≡ false
    → q (f j) ≡ true
    → q (update f i p j) ≡ true
update-still q f i j p n y = elim (ℕ_discrete i j) [
  | yes e ↦ absurd (ground (arith, ap (λ (i : ℕ). q (f i)) e))
  | no ne ↦ ground arith
]

module _ (k : Kernel) where
  -- The replay goes on: its work is queued, the worker has not ended it, or the timer or a thread is
  -- about to queue the work.
  abbrev pub GoesOn : System k → Type 0
  GoesOn s =
      (s.dev.buffer.work_pending ≡ true)
      ⊎ ((alive s.worker ≡ true)
          ⊎ ((queueing s.timer ≡ true) ⊎ ((i : ℕ) × (starting (s.threads i) ≡ true))))

  pub record Live (s : System k) : Type 0 where
    pub no_stop : (i : ℕ) → stopping (s.threads i) ≡ false
    pub goes_on : s.dev.state.mode ≡ replay → GoesOn s

  advance-Live :
      (p : Pc) (d : Dev k)
      → stopping p ≡ false
      → let (p', d') = advance k p d in
        (stopping p' ≡ false)
        × (d'.state.mode ≡ replay
            → (d'.buffer.work_pending ≡ true)
              ⊎ ((starting p' ≡ true)
                  ⊎ ((d.state.mode ≡ replay)
                      × (d'.buffer.work_pending ≡ d.buffer.work_pending)
                      × (starting p ≡ false))))
  unfolding advance enter_teach op_move_servo notify_readers signal_replay_done state_op_record_move
      state_op_clear_buffer state_op_start_replay buffer_record buffer_clear buffer_start_replay
  advance-Live p d h = ground arith

  timer_advance-Live :
      (t : TimerPc) (d : Dev k)
      → let (t', d') = timer_advance k t d in
        d'.state.mode ≡ replay
        → (d'.buffer.work_pending ≡ true)
          ⊎ ((queueing t' ≡ true)
              ⊎ ((d.state.mode ≡ replay)
                  × (d'.buffer.work_pending ≡ d.buffer.work_pending)
                  × (queueing t ≡ false)))
  unfolding timer_advance notify_readers state_op_start_replay buffer_start_replay
  timer_advance-Live t d = ground arith

  worker_advance-Live :
      (w : WorkerPc) (d : Dev k)
      → let (w', d') = worker_advance k w d in
        d'.state.mode ≡ replay → (alive w' ≡ true) ⊎ ((d.state.mode ≡ replay) × (alive w ≡ false))
  worker_advance-Live w d m = ground (arith, worker_advance-keeps k w d)

  no_stop-update :
      (f : ℕ → Pc) (i : ℕ) (p : Pc)
      → ((j : ℕ) → stopping (f j) ≡ false)
      → stopping p ≡ false
      → (j : ℕ) → stopping (update f i p j) ≡ false
  no_stop-update f i p l h j = ground (arith, l j)

  pub go-GoesOn :
      (s : System k) (i : ℕ)
      → Live s
      → (thread_step k i s).dev.state.mode ≡ replay
      → GoesOn (thread_step k i s)
  unfolding thread_step
  go-GoesOn s i l m =
      let (p', d') = advance k (s.threads i) s.dev in
      elim ((advance-Live (s.threads i) s.dev (l.no_stop i)).1 m) [
        | inl pending ↦ inl pending
        | inr (inl st) ↦ inr (inr (inr (i, rw (update_self s.threads i p') st)))
        | inr (inr (m0, same, n)) ↦ elim (l.goes_on m0) [
          | inl pending ↦ inl (same ∙ pending)
          | inr (inl a) ↦ inr (inl a)
          | inr (inr (inl q)) ↦ inr (inr (inl q))
          | inr (inr (inr (j, y))) ↦ inr (inr (inr (j, update-still starting s.threads i j p' n y)))
        ]
      ]

  tick-GoesOn :
      (s : System k) → Live s → (timer_step k s).dev.state.mode ≡ replay → GoesOn (timer_step k s)
  unfolding timer_step
  tick-GoesOn s l m = elim (timer_advance-Live s.timer s.dev m) [
    | inl pending ↦ inl pending
    | inr (inl q) ↦ inr (inr (inl q))
    | inr (inr (m0, same, n)) ↦ elim (l.goes_on m0) [
      | inl pending ↦ inl (same ∙ pending)
      | inr (inl a) ↦ inr (inl a)
      | inr (inr (inl q)) ↦ absurd (ground arith)
      | inr (inr (inr st)) ↦ inr (inr (inr st))
    ]
  ]

  work-GoesOn :
      (s : System k) → Live s → (worker_step k s).dev.state.mode ≡ replay → GoesOn (worker_step k s)
  unfolding worker_step
  work-GoesOn s l m = elim (worker_advance-Live s.worker s.dev m) [
    | inl a ↦ inr (inl a)
    | inr (m0, n) ↦ elim (l.goes_on m0) [
      | inl pending ↦ inl ((worker_advance-keeps k s.worker s.dev).1 ∙ pending)
      | inr (inl a) ↦ absurd (ground arith)
      | inr (inr rest) ↦ inr (inr rest)
    ]
  ]

  call-GoesOn :
      (s : System k) (i : ℕ) (p : Pc)
      → s.threads i ≡ ended
      → Live s
      → s.dev.state.mode ≡ replay
      → GoesOn (record s { threads = update s.threads i p })
  call-GoesOn s i p e l m = elim (l.goes_on m) [
    | inl pending ↦ inl pending
    | inr (inl a) ↦ inr (inl a)
    | inr (inr (inl q)) ↦ inr (inr (inl q))
    | inr (inr (inr (j, y))) ↦
        inr (inr (inr (j, update-still starting s.threads i j p (ap starting e) y)))
  ]

  fire-GoesOn :
      (s : System k)
      → timer_at_rest s.timer ≡ true
      → Live s
      → s.dev.state.mode ≡ replay
      → GoesOn (timer_fires k s)
  unfolding timer_fires
  fire-GoesOn s r l m = elim (l.goes_on m) [
    | inl pending ↦ inl pending
    | inr (inl a) ↦ inr (inl a)
    | inr (inr (inl q)) ↦ absurd (ground arith)
    | inr (inr (inr st)) ↦ inr (inr (inr st))
  ]

  -- A step in which no stop and no RESET is called keeps this.
  pub Step-Live : {s t : System k} → Step k entry_but_stop s t → Live s → Live t
  unfolding thread_step timer_step worker_step timer_fires worker_begins
  Step-Live {s} (call i p e c) l = record {
    no_stop = no_stop-update s.threads i p l.no_stop (ground arith);
    goes_on = call-GoesOn s i p e l;
  }
  Step-Live {s} (go i c) l = record {
    no_stop =
        no_stop-update s.threads i _ l.no_stop (advance-Live (s.threads i) s.dev (l.no_stop i)).0;
    goes_on = go-GoesOn s i l;
  }
  Step-Live {s} (fire t r e) l = record { no_stop = l.no_stop; goes_on = fire-GoesOn s r l }
  Step-Live {s} (tick r) l = record { no_stop = l.no_stop; goes_on = tick-GoesOn s l }
  Step-Live (begin moves r e z) l = record { no_stop = l.no_stop; goes_on = λ m. inr (inl refl) }
  Step-Live {s} (work r) l = record { no_stop = l.no_stop; goes_on = work-GoesOn s l }
