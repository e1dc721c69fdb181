-- ===== src/Threads/Stall.antt =====
-- A stop that a request to teach overtakes leaves a device that never leaves its teach mode by
-- itself.
use team9osdriver.Prelude.{ℕ, ◌≡◌, refl, arith, Bool, true, false, none}
use team9osdriver.Types.{teach}
use team9osdriver.Buffer.{buffer_cancel_replay, buffer_clear}
use team9osdriver.Device.{
  Kernel, Dev, Now, op_move_servo, notify_readers, signal_replay_done, state_op_clear_buffer,
}
use team9osdriver.Threads.{
  Pc, ended, teach_lock, stop_lock, direct_move, notifying, advance, timer_rests, worker_rests,
}
use team9osdriver.Threads.Stuck.{StaysHarmless, Stuck, Steps-Stuck}
use team9osdriver.Threads.System.{
  System, update, at_start, entry, call, go, Steps, stay, more, thread_step,
}

-- a move of a servo that user space asks for
abbrev pub only_moves : Pc → Bool
only_moves (direct_move _ _) = true
only_moves _ = false

abbrev unharmed : Pc → Bool
unharmed ended = true
unharmed notifying = true
unharmed p = only_moves p

move_unharmed : (p : Pc) → only_moves p ≡ true → unharmed p ≡ true
move_unharmed p c = ground (arith, c)

module _ (k : Kernel) where
  advance-Still : StaysHarmless k teach unharmed
  unfolding advance op_move_servo notify_readers
  advance-Still p d m h = ground arith

  called : ℕ → Pc → System k → System k
  called i p s = record s { threads = update s.threads i p }

  abbrev one : ℕ → System k → System k
  one i s = thread_step k i s

  -- Thread 0 is in a stop, with the mode set and the timer not yet deleted, when thread 1 makes a
  -- whole request to teach.
  unfoldable pub stalled : Dev k → Now → System k
  unfolding called thread_step advance notify_readers signal_replay_done state_op_clear_buffer
      buffer_cancel_replay buffer_clear
  stalled d now =
      let s1 = one 0 (called 0 stop_lock (at_start k d)) in
      let s2 = called 1 (teach_lock now) s1 in
      let s3 = one 1 (one 1 (one 1 (one 1 (one 1 (one 1 s2))))) in one 0 (one 0 (one 0 (one 0 s3)))

  stalled-Stuck : (d : Dev k) (now : Now) → Stuck k teach unharmed (stalled d now)
  unfolding stalled
  stalled-Stuck d now = record {
    mode = refl;
    disarmed = refl;
    nothing_queued = refl;
    timer = refl;
    worker = refl;
    threads = λ i. ground arith;
  }

  stalled_reached : (d : Dev k) (now : Now) → Steps k entry (at_start k d) (stalled d now)
  unfolding stalled
  stalled_reached d now =
      let r1 = more (more stay (call 0 stop_lock refl refl)) (go 0 refl) in
      let r2 = more r1 (call 1 (teach_lock now) refl refl) in
      let r3 = more (more (more r2 (go 1 refl)) (go 1 refl)) (go 1 refl) in
      let r4 = more (more (more r3 (go 1 refl)) (go 1 refl)) (go 1 refl) in
      more (more (more (more r4 (go 0 refl)) (go 0 refl)) (go 0 refl)) (go 0 refl)

  -- The driver can be brought to a TEACH mode that silence does not end: a stop whose thread is
  -- overtaken by a request to teach deletes the timer that the request has started, and from then
  -- on, through any sections of threads that move servos, the mode stays TEACH, no timer is armed
  -- and nothing runs.
  pub teach_can_stall :
      (d : Dev k) (now : Now) (t : System k)
      → Steps k only_moves (stalled d now) t
      → Steps k entry (at_start k d) (stalled d now)
        × (t.dev.state.mode ≡ teach)
        × (t.dev.state.inactivity_timer ≡ none)
        × (t.dev.buffer.work_pending ≡ false)
        × (t.worker ≡ worker_rests)
        × (t.timer ≡ timer_rests)
  teach_can_stall d now t r =
      let h =
        Steps-Stuck k teach unharmed only_moves advance-Still move_unharmed r
          (stalled-Stuck d now) in
      (stalled_reached d now, h.mode, h.disarmed, h.nothing_queued, h.worker, h.timer)
