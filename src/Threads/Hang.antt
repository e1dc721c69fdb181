-- ===== src/Threads/Hang.antt =====
-- A stop that another thread overtakes leaves a device that never leaves its replay mode by itself.
use team9osdriver.Prelude.{ℕ, ◌≡◌, refl, arith, Bool, true, false}
use team9osdriver.Types.{replay}
use team9osdriver.Buffer.{buffer_start_replay, buffer_cancel_replay}
use team9osdriver.Device.{
  Kernel, Dev, op_move_servo, notify_readers, signal_replay_done, state_op_start_replay,
}
use team9osdriver.Threads.{
  Pc, ended, input_lock, start_lock, stop_lock, direct_move, notifying, advance, timer_rests,
  worker_rests,
}
use team9osdriver.Threads.Stuck.{StaysHarmless, Stuck, Steps-Stuck}
use team9osdriver.Threads.System.{
  System, update, at_start, entry, call, go, Steps, stay, more, thread_step,
}

-- a press of the joystick, a request to replay, or a move of a servo
abbrev entry_unless_reset : Pc → Bool
entry_unless_reset (input_lock _ _ _) = true
entry_unless_reset start_lock = true
entry_unless_reset (direct_move _ _) = true
entry_unless_reset _ = false

-- where the threads that make such calls stand in a device that is stuck
abbrev harmless : Pc → Bool
harmless ended = true
harmless notifying = true
harmless p = entry_unless_reset p

entry_harmless : (p : Pc) → entry_unless_reset p ≡ true → harmless p ≡ true
entry_harmless p c = ground (arith, c)

module _ (k : Kernel) where
  advance-Still : StaysHarmless k replay harmless
  unfolding advance op_move_servo notify_readers
  advance-Still p d m h = ground arith

  called : ℕ → Pc → System k → System k
  called i p s = record s { threads = update s.threads i p }

  -- Thread 0 is in a stop, with the mode set and nothing cancelled yet, when thread 1 makes a whole
  -- call to replay.
  unfoldable pub hung : Dev k → System k
  unfolding called thread_step advance notify_readers signal_replay_done state_op_start_replay
      buffer_start_replay buffer_cancel_replay
  hung d =
      let s1 = thread_step k 0 (called 0 stop_lock (at_start k d)) in
      let s2 =
        thread_step k 1
          (thread_step k 1 (thread_step k 1 (thread_step k 1 (called 1 start_lock s1)))) in
      thread_step k 0 (thread_step k 0 (thread_step k 0 (thread_step k 0 s2)))

  hung-Stuck : (d : Dev k) → Stuck k replay harmless (hung d)
  unfolding hung
  hung-Stuck d = ground arith

  hung_reached : (d : Dev k) → Steps k entry (at_start k d) (hung d)
  unfolding hung
  hung_reached d =
      more
        (more
          (more
            (more
              (more
                (more
                  (more
                    (more
                      (more (more (more stay (call 0 stop_lock refl refl)) (go 0 refl))
                        (call 1 start_lock refl refl))
                      (go 1 refl))
                    (go 1 refl))
                  (go 1 refl))
                (go 1 refl))
              (go 0 refl))
            (go 0 refl))
          (go 0 refl))
        (go 0 refl)

  -- The driver can be brought to a state that it does not leave by itself: a stop whose thread is
  -- overtaken by a request to replay leaves the mode REPLAY, and from then on, through any sections
  -- of any threads that press the joystick, request a replay or move a servo, the mode stays REPLAY
  -- and neither the worker nor the timer's function runs.
  pub stop_can_hang :
      (d : Dev k) (t : System k)
      → Steps k entry_unless_reset (hung d) t
      → Steps k entry (at_start k d) (hung d)
        × (t.dev.state.mode ≡ replay)
        × (t.worker ≡ worker_rests)
        × (t.timer ≡ timer_rests)
  stop_can_hang d t r =
      let h =
        Steps-Stuck k replay harmless entry_unless_reset advance-Still entry_harmless r
          (hung-Stuck d) in
      (hung_reached d, h.mode, h.worker, h.timer)
