-- ===== src/Threads/Teaching.antt =====
-- A device in its teach mode, with any threads that make no stop and no RESET.
use team9osdriver.Prelude.{ℕ, ◌≡◌, refl, ap, ◌∙◌, arith, Bool, true, false, ◌⊎◌, inl, inr}
use team9osdriver.Types.{teach}
use team9osdriver.State.{enter_teach, replay_complete}
use team9osdriver.Buffer.{buffer_record, buffer_clear, buffer_start_replay}
use team9osdriver.Device.{
  Kernel, Dev, op_move_servo, notify_readers, signal_replay_done, state_op_record_move,
  state_op_clear_buffer, state_op_start_replay,
}
use team9osdriver.Device.Spec.Abstraction.{is_some}
use team9osdriver.Threads.{
  Pc, input_get, input_move, input_time, input_record, input_count, input_timer, teach_time,
  teach_clear, teach_count, teach_timer, TimerPc, timer_locks, WorkerPc, advance, timer_advance,
  worker_advance,
}
use team9osdriver.Threads.System.{
  System, update, entry_but_stop, Step, call, go, fire, tick, begin, work, Steps, stay, more,
  timer_fires, worker_begins, thread_step, timer_step, worker_step,
}
use team9osdriver.Threads.Calls.{update_self}
use team9osdriver.Threads.Progress.{alive, worker_advance-keeps}
use team9osdriver.Threads.Replay.{
  starting, stopping, queueing, GoesOn, Live, Step-Live, update-still,
}

-- A thread that will start the inactivity timer.
abbrev arming : Pc → Bool
arming (input_get _ _ _) = true
arming (input_move _ _ _) = true
arming (input_time _ _ _) = true
arming (input_record _ _) = true
arming (input_count _) = true
arming (input_timer _) = true
arming (teach_time _) = true
arming (teach_clear _) = true
arming (teach_count _) = true
arming (teach_timer _) = true
arming _ = false

abbrev expiring : TimerPc → Bool
expiring timer_locks = true
expiring _ = false

module _ (k : Kernel) where
  abbrev pub armed : Dev k → Bool
  armed d = is_some k d.state.inactivity_timer

  -- The teach mode will end: the inactivity timer is armed or has expired, a thread is about to
  -- start it, or a replay goes on, which ends it too.
  abbrev pub WillEnd : System k → Type 0
  WillEnd s =
      (armed s.dev ≡ true)
      ⊎ ((expiring s.timer ≡ true) ⊎ (((i : ℕ) × (arming (s.threads i) ≡ true)) ⊎ GoesOn k s))

  -- What a section of a thread may do about that in the teach mode.
  advance-WillEnd :
      (p : Pc) (d : Dev k)
      → stopping p ≡ false
      → let (p', d') = advance k p d in
        d'.state.mode ≡ teach
        → (armed d' ≡ true)
          ⊎ ((arming p' ≡ true)
              ⊎ ((d'.buffer.work_pending ≡ true)
                  ⊎ ((starting p' ≡ true)
                      ⊎ ((d.state.mode ≡ teach)
                          × (armed d' ≡ armed d)
                          × (d'.buffer.work_pending ≡ d.buffer.work_pending)
                          × (arming p ≡ false)
                          × (starting p ≡ false)))))
  unfolding advance enter_teach op_move_servo notify_readers signal_replay_done state_op_record_move
      state_op_clear_buffer state_op_start_replay buffer_record buffer_clear buffer_start_replay
  advance-WillEnd p d h m = ground arith

  timer_advance-WillEnd :
      (t : TimerPc) (d : Dev k)
      → let (t', d') = timer_advance k t d in
        d'.state.mode ≡ teach
        → (d'.buffer.work_pending ≡ true)
          ⊎ ((d.state.mode ≡ teach)
              × (armed d' ≡ armed d)
              × (d'.buffer.work_pending ≡ d.buffer.work_pending)
              × (expiring t ≡ false)
              × (queueing t ≡ false))
  unfolding timer_advance notify_readers state_op_start_replay buffer_start_replay
  timer_advance-WillEnd t d m = ground arith

  pub worker_advance-armed : (w : WorkerPc) (d : Dev k) → armed (worker_advance k w d).1 ≡ armed d
  unfolding worker_advance op_move_servo notify_readers signal_replay_done replay_complete
  worker_advance-armed w d = ground arith

  worker_advance-WillEnd :
      (w : WorkerPc) (d : Dev k)
      → let (w', d') = worker_advance k w d in
        d'.state.mode ≡ teach → (alive w' ≡ true) ⊎ ((d.state.mode ≡ teach) × (alive w ≡ false))
  worker_advance-WillEnd w d m = ground (arith, worker_advance-keeps k w d)

  -- A thread that was about to do nothing of that has moved, and has done nothing of it.
  moved-WillEnd :
      (s : System k) (i : ℕ) (p : Pc) (d : Dev k)
      → armed d ≡ armed s.dev
      → d.buffer.work_pending ≡ s.dev.buffer.work_pending
      → arming (s.threads i) ≡ false
      → starting (s.threads i) ≡ false
      → WillEnd s
      → WillEnd (record s { dev = d; threads = update s.threads i p })
  moved-WillEnd s i p d same pending na ns w = elim w [
    | inl a ↦ inl (same ∙ a)
    | inr (inl x) ↦ inr (inl x)
    | inr (inr (inl (j, y))) ↦ inr (inr (inl (j, update-still arming s.threads i j p na y)))
    | inr (inr (inr (inl q))) ↦ inr (inr (inr (inl (pending ∙ q))))
    | inr (inr (inr (inr (inl a)))) ↦ inr (inr (inr (inr (inl a))))
    | inr (inr (inr (inr (inr (inl q))))) ↦ inr (inr (inr (inr (inr (inl q)))))
    | inr (inr (inr (inr (inr (inr (j, y)))))) ↦
        inr (inr (inr (inr (inr (inr (j, update-still starting s.threads i j p ns y))))))
  ]

  go-WillEnd :
      (s : System k) (i : ℕ)
      → stopping (s.threads i) ≡ false
      → (s.dev.state.mode ≡ teach → WillEnd s)
      → (thread_step k i s).dev.state.mode ≡ teach
      → WillEnd (thread_step k i s)
  unfolding thread_step
  go-WillEnd s i h l m =
      let (p', d') = advance k (s.threads i) s.dev in
      let self = update_self s.threads i p' in
      elim (advance-WillEnd (s.threads i) s.dev h m) [
        | inl a ↦ inl a
        | inr (inl a) ↦ inr (inr (inl (i, rw self a)))
        | inr (inr (inl q)) ↦ inr (inr (inr (inl q)))
        | inr (inr (inr (inl y))) ↦ inr (inr (inr (inr (inr (inr (i, rw self y))))))
        | inr (inr (inr (inr (m0, same, pending, na, ns)))) ↦
            moved-WillEnd s i p' d' same pending na ns (l m0)
      ]

  tick-WillEnd :
      (s : System k)
      → (s.dev.state.mode ≡ teach → WillEnd s)
      → (timer_step k s).dev.state.mode ≡ teach
      → WillEnd (timer_step k s)
  unfolding timer_step
  tick-WillEnd s l m = elim (timer_advance-WillEnd s.timer s.dev m) [
    | inl q ↦ inr (inr (inr (inl q)))
    | inr (m0, same, pending, ne, nq) ↦ ground (arith, l m0)
  ]

  work-WillEnd :
      (s : System k)
      → (s.dev.state.mode ≡ teach → WillEnd s)
      → (worker_step k s).dev.state.mode ≡ teach
      → WillEnd (worker_step k s)
  unfolding worker_step
  work-WillEnd s l m = elim (worker_advance-WillEnd s.worker s.dev m) [
    | inl a ↦ inr (inr (inr (inr (inl a))))
    | inr (m0, n) ↦
        ground
          (arith, l m0, worker_advance-armed s.worker s.dev, worker_advance-keeps k s.worker s.dev)
  ]

  -- A step in which no stop and no RESET is called keeps this.
  Step-WillEnd :
      {s t : System k}
      → Step k entry_but_stop s t
      → Live k s
      → (s.dev.state.mode ≡ teach → WillEnd s)
      → t.dev.state.mode ≡ teach
      → WillEnd t
  unfolding timer_fires worker_begins
  Step-WillEnd {s} (call i p e c) v l m =
      moved-WillEnd s i p s.dev refl refl (ap arming e) (ap starting e) (l m)
  Step-WillEnd {s} (go i c) v l m = go-WillEnd s i (v.no_stop i) l m
  Step-WillEnd {s} (fire t r e) v l m = inr (inl refl)
  Step-WillEnd {s} (tick r) v l m = tick-WillEnd s l m
  Step-WillEnd {s} (begin moves r e z) v l m = inr (inr (inr (inr (inl refl))))
  Step-WillEnd {s} (work r) v l m = work-WillEnd s l m

  -- The teach mode and the replay mode both end.
  pub record BothEnd (s : System k) : Type 0 where
    pub replays : Live k s
    pub teaches : s.dev.state.mode ≡ teach → WillEnd s

  pub Steps-BothEnd : {s t : System k} → Steps k entry_but_stop s t → BothEnd s → BothEnd t
  Steps-BothEnd stay b = b
  Steps-BothEnd (more r st) b =
      let c = Steps-BothEnd r b in
      record { replays = Step-Live k st c.replays; teaches = Step-WillEnd st c.replays c.teaches }
