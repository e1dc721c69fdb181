-- ===== src/Threads/Waiting/Owed.antt =====
-- While somebody writes REPLAY, the flag that ends the wait is set or somebody will set it.
use team9osdriver.Prelude.{ℕ, ◌≡◌, ◌≢◌, refl, ap, ◌∙◌, arith, Bool, true, false, ◌⊎◌, inl, inr}
use native.Mathlib.Decide.{ℕ_discrete}
use team9osdriver.Types.{replay}
use team9osdriver.State.{enter_teach, replay_complete}
use team9osdriver.Buffer.{buffer_record, buffer_clear, buffer_start_replay}
use team9osdriver.Device.{
  Kernel, Dev, op_move_servo, notify_readers, signal_replay_done, state_op_record_move,
  state_op_clear_buffer, state_op_start_replay,
}
use team9osdriver.Threads.{
  Pc, start_lock, start_timer, start_queue, TimerPc, WorkerPc, advance, timer_advance,
  worker_advance,
}
use team9osdriver.Threads.System.{
  System, update, worker_at_rest, entry_but_stop, Step, call, go, fire, tick, begin, work,
  thread_step, timer_step, worker_step, timer_fires, worker_begins,
}
use team9osdriver.Threads.Calls.{update_self}
use team9osdriver.Threads.Replay.{stopping, queueing, GoesOn, Live, go-GoesOn}

-- A thread that will queue the replay work, or find that another one does.
abbrev promising : Pc → Bool
promising start_lock = true
promising start_timer = true
promising start_queue = true
promising _ = false

module _ (k : Kernel) where
  -- Somebody will set the flag: a worker that is queued or runs, or one who is about to queue it.
  abbrev IsOwed : System k → Type 0
  IsOwed s =
      (s.dev.buffer.work_pending ≡ true)
      ⊎ ((worker_at_rest s.worker ≡ false)
          ⊎ ((queueing s.timer ≡ true) ⊎ ((i : ℕ) × (promising (s.threads i) ≡ true))))

  abbrev pub IsPromised : System k → Type 0
  IsPromised s = (s.dev.replay_finished ≡ true) ⊎ IsOwed s

  GoesOn-IsOwed : (s : System k) → GoesOn k s → IsOwed s
  GoesOn-IsOwed s (inl p) = inl p
  GoesOn-IsOwed s (inr (inl a)) = inr (inl (ground arith))
  GoesOn-IsOwed s (inr (inr (inl q))) = inr (inr (inl q))
  GoesOn-IsOwed s (inr (inr (inr (i, y)))) = inr (inr (inr (i, ground arith)))

  advance-owes :
      (p : Pc) (d : Dev k)
      → stopping p ≡ false
      → let (p', d') = advance k p d in
        (d'.replay_finished ≡ d.replay_finished)
        × (d.buffer.work_pending ≡ true → d'.buffer.work_pending ≡ true)
        × (promising p ≡ true
            → (promising p' ≡ true) ⊎ ((d'.buffer.work_pending ≡ true) ⊎ (d'.state.mode ≡ replay)))
  unfolding advance enter_teach op_move_servo notify_readers signal_replay_done state_op_record_move
      state_op_clear_buffer state_op_start_replay buffer_record buffer_clear buffer_start_replay
  advance-owes p d h = ground arith

  pub timer_advance-owes :
      (t : TimerPc) (d : Dev k)
      → let (t', d') = timer_advance k t d in
        (d'.replay_finished ≡ d.replay_finished)
        × (d.buffer.work_pending ≡ true → d'.buffer.work_pending ≡ true)
        × (queueing t ≡ true → d'.buffer.work_pending ≡ true)
  unfolding timer_advance notify_readers state_op_start_replay buffer_start_replay
  timer_advance-owes t d = ground arith

  pub worker_advance-owes :
      (w : WorkerPc) (d : Dev k)
      → let (w', d') = worker_advance k w d in
        (d.replay_finished ≡ true → d'.replay_finished ≡ true)
        × (d'.buffer.work_pending ≡ d.buffer.work_pending)
        × (worker_at_rest w ≡ false → (worker_at_rest w' ≡ false) ⊎ (d'.replay_finished ≡ true))
  unfolding worker_advance op_move_servo notify_readers signal_replay_done replay_complete
  worker_advance-owes w d = ground arith

  -- A promise of another thread stands when thread `i` moves.
  still_promising :
      (f : ℕ → Pc) (i j : ℕ) (p : Pc)
      → i ≢ j
      → promising (f j) ≡ true
      → promising (update f i p j) ≡ true
  still_promising f i j p n y = ground arith

  go-IsPromised :
      (s : System k) (i j : ℕ)
      → Live k s
      → promising (s.threads j) ≡ true
      → IsPromised (thread_step k i s)
  unfolding thread_step
  go-IsPromised s i j l y = elim (ℕ_discrete i j) [
    | no n ↦ inr (inr (inr (inr (j, still_promising s.threads i j _ n y))))
    | yes e ↦
        let (p', d') = advance k (s.threads i) s.dev in
        let here : promising (s.threads i) ≡ true = ap (λ (i : ℕ). promising (s.threads i)) e ∙ y in
        elim ((advance-owes (s.threads i) s.dev (l.no_stop i)).2 here) [
          | inl on ↦ inr (inr (inr (inr (i, rw (update_self s.threads i p') on))))
          | inr (inl pending) ↦ inr (inl pending)
          | inr (inr m) ↦ inr (GoesOn-IsOwed (thread_step k i s) (go-GoesOn k s i l m))
        ]
  ]

  thread_step-IsPromised :
      (s : System k) (i : ℕ) → Live k s → IsPromised s → IsPromised (thread_step k i s)
  unfolding thread_step
  thread_step-IsPromised s i l h =
      let (flag, pending, _) = advance-owes (s.threads i) s.dev (l.no_stop i) in
      elim h [
        | inl set ↦ inl (flag ∙ set)
        | inr (inl p) ↦ inr (inl (pending p))
        | inr (inr (inl busy)) ↦ inr (inr (inl busy))
        | inr (inr (inr (inl q))) ↦ inr (inr (inr (inl q)))
        | inr (inr (inr (inr (j, y)))) ↦ go-IsPromised s i j l y
      ]

  timer_step-IsPromised : (s : System k) → IsPromised s → IsPromised (timer_step k s)
  unfolding timer_step
  timer_step-IsPromised s h =
      let (flag, pending, queued) = timer_advance-owes s.timer s.dev in
      elim h [
        | inl set ↦ inl (flag ∙ set)
        | inr (inl p) ↦ inr (inl (pending p))
        | inr (inr (inl busy)) ↦ inr (inr (inl busy))
        | inr (inr (inr (inl q))) ↦ inr (inl (queued q))
        | inr (inr (inr (inr p))) ↦ inr (inr (inr (inr p)))
      ]

  worker_step-IsPromised : (s : System k) → IsPromised s → IsPromised (worker_step k s)
  unfolding worker_step
  worker_step-IsPromised s h =
      let (flag, pending, busy_or_set) = worker_advance-owes s.worker s.dev in
      elim h [
        | inl set ↦ inl (flag set)
        | inr (inl p) ↦ inr (inl (pending ∙ p))
        | inr (inr (inl busy)) ↦ elim (busy_or_set busy) [
          | inl on ↦ inr (inr (inl on))
          | inr set ↦ inl set
        ]
        | inr (inr (inr rest)) ↦ inr (inr (inr rest))
      ]

  -- A promise is kept until the flag is set, and the flag stays set, whatever thread moves and
  -- whatever call is made, but for stops and RESETs.
  pub Step-IsPromised :
      {s t : System k} → Step k entry_but_stop s t → Live k s → IsPromised s → IsPromised t
  unfolding timer_fires worker_begins
  Step-IsPromised {s} (call i p e c) l (inr (inr (inr (inr (j, y))))) = inr (
      inr (
        inr (
          inr (
            j,
            still_promising s.threads i j p
                (λ same. absurd (ground (arith, ap (λ (i : ℕ). promising (s.threads i)) same))) y,
          ))))
  Step-IsPromised (call i p e c) l (inl set) = inl set
  Step-IsPromised (call i p e c) l (inr (inl pending)) = inr (inl pending)
  Step-IsPromised (call i p e c) l (inr (inr (inl busy))) = inr (inr (inl busy))
  Step-IsPromised (call i p e c) l (inr (inr (inr (inl q)))) = inr (inr (inr (inl q)))
  Step-IsPromised {s} (go i c) l h = thread_step-IsPromised s i l h
  Step-IsPromised (fire t r e) l (inr (inr (inr (inl q)))) = absurd (ground arith)
  Step-IsPromised (fire t r e) l (inl set) = inl set
  Step-IsPromised (fire t r e) l (inr (inl pending)) = inr (inl pending)
  Step-IsPromised (fire t r e) l (inr (inr (inl busy))) = inr (inr (inl busy))
  Step-IsPromised (fire t r e) l (inr (inr (inr (inr p)))) = inr (inr (inr (inr p)))
  Step-IsPromised {s} (tick r) l h = timer_step-IsPromised s h
  Step-IsPromised (begin moves r e z) l h = inr (inr (inl refl))
  Step-IsPromised {s} (work r) l h = worker_step-IsPromised s h
