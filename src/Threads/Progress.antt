-- ===== src/Threads/Progress.antt =====
-- No thread of the driver waits for ever: the timer's function and the worker come to rest, and
-- each call can end.
use team9osdriver.Prelude.{
  ℕ, zero, suc, ◌+◌, ◌*◌, ◌≤◌, ◌<◌, ◌≡◌, refl, ◌∙◌, arith, Bool, true, false, Bool-cases, inl, inr,
  some, if◌then◌else◌,
}
use team9osdriver.Types.{Mode, idle, replay}
use team9osdriver.State.{replay_complete}
use team9osdriver.Device.{
  Kernel, Dev, op_move_servo, notify_readers, signal_replay_done, state_op_start_replay,
}
use team9osdriver.Threads.{
  Pc, TimerPc, timer_rests, timer_locks, timer_queues, timer_notifies, WorkerPc, worker_rests,
  worker_starts, worker_counts, worker_tests, worker_sleeps, worker_moves, worker_notifies,
  worker_completes, worker_signals, timer_advance, worker_advance,
}
use team9osdriver.Threads.System.{
  System, timer_at_rest, worker_at_rest, tick, work, Steps, stay, more, Steps-trans, timer_step,
  worker_step,
}

-- What the worker has before it, at most.
unfoldable pub rank : WorkerPc → ℕ
rank worker_rests = 0
rank (worker_starts _) = 1029
rank (worker_counts n _) = 4 + n * 4
rank (worker_tests n _ _) = 3 + n * 4
rank (worker_sleeps n _ _) = 6 + n * 4
rank (worker_moves n _ _) = 5 + n * 4
rank (worker_notifies n _ _) = 4 + n * 4
rank worker_completes = 2
rank worker_signals = 1

rank_zero : (w : WorkerPc) → rank w ≤ 0 → worker_at_rest w ≡ true
unfolding rank
rank_zero worker_rests h = refl
rank_zero w h = absurd (omega arith)

-- A worker that will still set the mode to IDLE.
abbrev pub alive : WorkerPc → Bool
alive worker_rests = false
alive worker_signals = false
alive _ = true

abbrev mode_after : WorkerPc → Mode → Mode
mode_after w m = if alive w then idle else m

unfoldable pub timer_rank : TimerPc → ℕ
timer_rank timer_rests = 0
timer_rank timer_locks = 3
timer_rank timer_queues = 2
timer_rank timer_notifies = 1

module _ (k : Kernel) where
  pub worker_advance-falls :
      (w : WorkerPc) (d : Dev k) → worker_at_rest w ≡ false → rank (worker_advance k w d).0 < rank w
  unfolding rank worker_advance
  worker_advance-falls (worker_starts (some moves)) d h = ground arith
  worker_advance-falls w d h = ground arith

  pub worker_advance-keeps :
      (w : WorkerPc) (d : Dev k)
      → let (w', d') = worker_advance k w d in
        (mode_after w' d'.state.mode ≡ mode_after w d.state.mode)
        × (d'.buffer.work_pending ≡ d.buffer.work_pending)
  unfolding worker_advance op_move_servo notify_readers signal_replay_done replay_complete
  worker_advance-keeps w d = ground arith

  -- The worker alone has come to rest.
  pub record WorkerRested (calls : Pc → Bool) (s : System k) : Type 0 where
    pub last : System k
    pub steps : Steps k calls s last
    pub rests : worker_at_rest last.worker ≡ true
    pub threads : last.threads ≡ s.threads
    pub timer : last.timer ≡ s.timer
    pub mode : last.dev.state.mode ≡ mode_after s.worker s.dev.state.mode
    pub pending : last.dev.buffer.work_pending ≡ s.dev.buffer.work_pending

  rests_mode : (w : WorkerPc) (m : Mode) → worker_at_rest w ≡ true → m ≡ mode_after w m
  rests_mode w m h = ground arith

  worker_stays :
      {calls : Pc → Bool} (s : System k) → worker_at_rest s.worker ≡ true → WorkerRested calls s
  worker_stays s r = record {
    last = s;
    steps = stay;
    rests = r;
    threads = refl;
    timer = refl;
    mode = rests_mode s.worker s.dev.state.mode r;
    pending = refl;
  }

  worker_falls :
      {calls : Pc → Bool} (n : ℕ) (s : System k) → rank s.worker ≤ n → WorkerRested calls s
  unfolding worker_step
  worker_falls zero s h = worker_stays s (rank_zero s.worker h)
  worker_falls (suc n) s h = elim (Bool-cases (worker_at_rest s.worker)) [
    | inl r ↦ worker_stays s r
    | inr busy ↦
        let kept = worker_advance-keeps s.worker s.dev in
        let rec =
          worker_falls n (worker_step k s)
            (omega (arith, worker_advance-falls s.worker s.dev busy)) in
        record {
          last = rec.last;
          steps = Steps-trans k (more stay (work busy)) rec.steps;
          rests = rec.rests;
          threads = rec.threads;
          timer = rec.timer;
          mode = rec.mode ∙ kept.0;
          pending = rec.pending ∙ kept.1;
        }
  ]

  pub worker_runs : (calls : Pc → Bool) (s : System k) → WorkerRested calls s
  worker_runs calls s = worker_falls (rank s.worker) s (omega arith)

  -- The timer's function alone has come to rest.
  pub record TimerRested (calls : Pc → Bool) (s : System k) : Type 0 where
    pub last : System k
    pub steps : Steps k calls s last
    pub rests : timer_at_rest last.timer ≡ true
    pub threads : last.threads ≡ s.threads
    pub worker : last.worker ≡ s.worker
    pub mode : s.dev.state.mode ≡ replay → last.dev.state.mode ≡ replay

  pub timer_advance-falls :
      (t : TimerPc) (d : Dev k)
      → timer_at_rest t ≡ false
      → (timer_rank (timer_advance k t d).0 < timer_rank t)
        × (d.state.mode ≡ replay → (timer_advance k t d).1.state.mode ≡ replay)
  unfolding timer_rank timer_advance notify_readers state_op_start_replay
  timer_advance-falls t d h = ground arith

  timer_falls :
      {calls : Pc → Bool} (n : ℕ) (s : System k) → timer_rank s.timer < n → TimerRested calls s
  unfolding timer_step
  timer_falls zero s h = absurd (omega arith)
  timer_falls (suc n) s h = elim (Bool-cases (timer_at_rest s.timer)) [
    | inl r ↦ record {
      last = s;
      steps = stay;
      rests = r;
      threads = refl;
      worker = refl;
      mode = λ m. m;
    }
    | inr busy ↦
        let kept = timer_advance-falls s.timer s.dev busy in
        let rec = timer_falls n (timer_step k s) (omega (arith, kept.0)) in
        record {
          last = rec.last;
          steps = Steps-trans k (more stay (tick busy)) rec.steps;
          rests = rec.rests;
          threads = rec.threads;
          worker = rec.worker;
          mode = λ m. rec.mode (kept.1 m);
        }
  ]

  pub timer_runs : (calls : Pc → Bool) (s : System k) → TimerRested calls s
  timer_runs calls s = timer_falls (suc (timer_rank s.timer)) s (omega arith)
