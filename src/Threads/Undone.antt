-- ===== src/Threads/Undone.antt =====
-- A request to teach beside a replay that is queued or running: echo_state_replay_complete of
-- module/echo_state.c sets the mode to IDLE, whatever it is.
use team9osdriver.Prelude.{
  ℕ, ◌≡◌, ◌≢◌, ◌⊎◌, inl, inr, ◌∙◌, refl, arith, Bool, true, false, if◌then◌else◌,
}
use team9osdriver.Types.{idle, teach}
use team9osdriver.Device.{
  Kernel, Dev, Now, op_move_servo, notify_readers, signal_replay_done, state_op_record_move,
  state_op_clear_buffer, state_op_start_replay,
}
use team9osdriver.Buffer.{buffer_record, buffer_clear, buffer_start_replay}
use team9osdriver.Threads.{
  Pc, input_lock, start_lock, teach_lock, advance, TimerPc, timer_advance, WorkerPc, worker_advance,
}
use team9osdriver.Threads.System.{
  System, update, Step, call, go, fire, tick, begin, work, Steps, stay, more, thread_step,
  timer_step, worker_step, timer_fires, worker_begins,
}
use team9osdriver.Threads.Progress.{alive, worker_advance-keeps}
use team9osdriver.Threads.Replay.{stopping}
use team9osdriver.Threads.Stall.{only_moves}

-- A thread that will neither set the mode nor take a replay off the queue.
abbrev leaves_mode : Pc → Bool
leaves_mode (input_lock _ _ _) = false
leaves_mode start_lock = false
leaves_mode (teach_lock _) = false
leaves_mode p = if stopping p then false else true

module _ (k : Kernel) where
  -- The replay is queued, runs, or has set the mode to IDLE.
  abbrev Undoes : System k → Type 0
  Undoes s =
      (s.dev.buffer.work_pending ≡ true) ⊎ ((alive s.worker ≡ true) ⊎ (s.dev.state.mode ≡ idle))

  record Undoing (s : System k) : Type 0 where
    undoes : Undoes s
    threads : (i : ℕ) → leaves_mode (s.threads i) ≡ true

  advance-leaves :
      (p : Pc) (d : Dev k)
      → leaves_mode p ≡ true
      → let (p', d') = advance k p d in
        (leaves_mode p' ≡ true)
        × (d'.state.mode ≡ d.state.mode)
        × (d.buffer.work_pending ≡ true → d'.buffer.work_pending ≡ true)
  unfolding advance op_move_servo notify_readers signal_replay_done state_op_record_move
      state_op_clear_buffer state_op_start_replay buffer_record buffer_clear buffer_start_replay
  advance-leaves p d h = ground arith

  -- the first section of a request to teach
  teach_lock-leaves :
      (p : Pc) (d : Dev k) (now : Now)
      → p ≡ teach_lock now
      → let (p', d') = advance k p d in
        (leaves_mode p' ≡ true)
        × (d'.state.mode ≡ teach)
        × (d'.buffer.work_pending ≡ d.buffer.work_pending)
  unfolding advance
  teach_lock-leaves p d now e = ground (arith, e)

  timer_advance-leaves :
      (t : TimerPc) (d : Dev k)
      → let d' = (timer_advance k t d).1 in
        (d.state.mode ≡ idle → d'.state.mode ≡ idle)
        × (d.buffer.work_pending ≡ true → d'.buffer.work_pending ≡ true)
  unfolding timer_advance notify_readers state_op_start_replay buffer_start_replay
  timer_advance-leaves t d = ground arith

  worker_advance-undoes :
      (w : WorkerPc) (d : Dev k)
      → (alive w ≡ true) ⊎ (d.state.mode ≡ idle)
      → let (w', d') = worker_advance k w d in (alive w' ≡ true) ⊎ (d'.state.mode ≡ idle)
  worker_advance-undoes w d h = ground (arith, h, worker_advance-keeps k w d)

  update-leaves :
      (f : ℕ → Pc) (i : ℕ) (p : Pc)
      → ((j : ℕ) → j ≢ i → leaves_mode (f j) ≡ true)
      → leaves_mode p ≡ true
      → (j : ℕ) → leaves_mode (update f i p j) ≡ true
  update-leaves f i p l h j = ground (arith, l j)

  only_moves-leaves : (p : Pc) → only_moves p ≡ true → leaves_mode p ≡ true
  only_moves-leaves p c = ground (arith, c)

  Step-Undoing : {s t : System k} → Step k only_moves s t → Undoing s → Undoing t
  unfolding thread_step timer_step worker_step timer_fires worker_begins
  Step-Undoing {s} (call i p e c) h = record {
    undoes = h.undoes;
    threads = update-leaves s.threads i p (λ j n. h.threads j) (only_moves-leaves p c);
  }
  Step-Undoing {s} (go i c) h =
      let (p, mode, pending) = advance-leaves (s.threads i) s.dev (h.threads i) in
      record {
        undoes = ground (arith, h.undoes, mode, pending);
        threads = update-leaves s.threads i _ (λ j n. h.threads j) p;
      }
  Step-Undoing (fire t r e) h = record { undoes = h.undoes; threads = h.threads }
  Step-Undoing {s} (tick r) h = record {
    undoes = ground (arith, h.undoes, timer_advance-leaves s.timer s.dev);
    threads = h.threads;
  }
  Step-Undoing (begin room r e z) h = record { undoes = inr (inl refl); threads = h.threads }
  Step-Undoing {s} (work r) h = record {
    undoes = elim h.undoes [
      | inl p ↦ inl ((worker_advance-keeps k s.worker s.dev).1 ∙ p)
      | inr u ↦ inr (worker_advance-undoes s.worker s.dev u)
    ];
    threads = h.threads;
  }

  Steps-Undoing : {s t : System k} → Steps k only_moves s t → Undoing s → Undoing t
  Steps-Undoing stay h = h
  Steps-Undoing (more r st) h = Step-Undoing st (Steps-Undoing r h)

  -- A request to teach that comes while a replay is queued or runs is undone, if no other thread is
  -- about to set the mode or to stop the replay, and none calls but to move servos: behind its
  -- first section the mode is TEACH, and from then on, in any order of the sections, also of those
  -- of the timer's function, the mode is IDLE, unless the replay is still queued or the worker has
  -- still to report its end.
  pub teach_is_undone :
      (s t : System k) (i : ℕ) (now : Now)
      → (s.dev.buffer.work_pending ≡ true) ⊎ (alive s.worker ≡ true)
      → s.threads i ≡ teach_lock now
      → ((j : ℕ) → j ≢ i → leaves_mode (s.threads j) ≡ true)
      → Steps k only_moves (thread_step k i s) t
      → ((thread_step k i s).dev.state.mode ≡ teach)
        × ((t.dev.buffer.work_pending ≡ true)
            ⊎ ((alive t.worker ≡ true) ⊎ (t.dev.state.mode ≡ idle)))
  unfolding thread_step
  teach_is_undone s t i now u e l r =
      let (p, mode, pending) = teach_lock-leaves (s.threads i) s.dev now e in
      let first : Undoing (thread_step k i s) = record {
        undoes = ground (arith, u, pending);
        threads = update-leaves s.threads i _ l p;
      } in
      (mode, (Steps-Undoing r first).undoes)
