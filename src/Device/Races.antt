-- ===== src/Device/Races.antt =====
-- `echo_state_stop` alone, and what it comes to beside another thread.
use team9osdriver.Prelude.{ℕ, ◌≡◌, true, false, none, Option, List, arith, ℤ, err}
use team9osdriver.Types.{idle, replay, Move, ebusy}
use team9osdriver.State.{state_stop, stop_mode, stop_rest, state_start_replay}
use team9osdriver.Device.{Kernel, Dev, Now, state_ptr, state_ops}
use team9osdriver.Device.Events.{step, input, expire, request, work}

module _ (k : Kernel) where
  -- A stop that no other thread meets leaves the device idle, with no timer armed and no replay
  -- queued, sets the flags that a waiting writer and waiting readers test, and touches neither the
  -- servos nor the recording.
  stop_rests :
      (d : Dev k) (now : Now)
      → let d' = step k d (request now idle) in
        (d'.state.mode ≡ idle)
        × (d'.state.inactivity_timer ≡ none)
        × (d'.buffer.work_pending ≡ false)
        × (d'.replay_finished ≡ true)
        × (d'.new_data_avail ≡ true)
        × (d'.servo ≡ d.servo)
        × (d'.buffer.move_fifo ≡ d.buffer.move_fifo)
  unfolding step
  stop_rests d now = ground arith

  -- what is left if a replay is requested between the two sections of a stop
  unfoldable overtaken_stop : Dev k → Dev k
  unfolding state_stop
  overtaken_stop d =
      stop_rest k.clock state_ptr (state_ops k)
        (state_start_replay k.clock state_ptr (state_ops k)
          (stop_mode k.clock state_ptr (state_ops k) d)).1

  -- A stop that is overtaken so leaves the device in replay mode with no work queued. A press, the
  -- timer and the work queue then change nothing, and a new request to replay is refused with EBUSY.
  overtaken_stop_hangs :
      (d : Dev k) (now : Now) (id : ℕ) (delta : ℤ) (msleep : ℕ → Dev k → Dev k)
      (moves : Option (List Move))
      → let d' = overtaken_stop d in
        (d'.state.mode ≡ replay)
        × (d'.buffer.work_pending ≡ false)
        × (step k d' (input now id delta) ≡ d')
        × (step k d' expire ≡ d')
        × (step k d' (work msleep moves) ≡ d')
        × (state_start_replay k.clock state_ptr (state_ops k) d' ≡ (err ebusy, d'))
  unfolding overtaken_stop step
  overtaken_stop_hangs d now id delta msleep moves = ground arith
