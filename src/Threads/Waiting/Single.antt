-- ===== src/Threads/Waiting/Single.antt =====
-- A writer of REPLAY that no other thread meets does what `echo_write` does.
use team9osdriver.Prelude.{ℕ, ◌≡◌, ◌≢◌, arith, Bool, pos, err, if◌then◌else◌}
use team9osdriver.Types.{replay, ebusy, erestartsys}
use team9osdriver.State.{state_start_replay}
use team9osdriver.Device.{Kernel, Dev, state_op_start_replay, notify_readers}
use team9osdriver.Chardev.{write_replay}
use team9osdriver.Threads.{ended, advance}
use team9osdriver.Threads.System.{thread_step}
use team9osdriver.Threads.Waiting.{Writers, no_write, waits_replay, write_begins, section}

module _ (k : Kernel) where
  -- A write of REPLAY with nothing between its steps is what `echo_write` does. If the mode is
  -- REPLAY, it is over after one section, and the result is EBUSY; else it sleeps after four. The
  -- result is then the count, or ERESTARTSYS if a signal ends the sleep, and the device is what the
  -- sleep makes of the one that the steps leave.
  pub write_alone_lem :
      (sleep : Dev k → Bool × Dev k) (count i : ℕ) (w : Writers k)
      → let one = section k i (write_begins k i w) in
        let four = section k i (section k i (section k i one)) in
        let (interrupted, d) = sleep four.sys.dev in
        (w.sys.dev.state.mode ≡ replay
          → (one.writes i ≡ no_write)
            × (one.sys.threads i ≡ ended)
            × (write_replay k sleep count w.sys.dev ≡ (err ebusy, one.sys.dev)))
        × (w.sys.dev.state.mode ≢ replay
            → (four.writes i ≡ waits_replay)
              × (four.sys.threads i ≡ ended)
              × (write_replay k sleep count w.sys.dev
                  ≡ ((if interrupted then err erestartsys else pos count), d)))
  unfolding section thread_step advance write_begins write_replay state_start_replay
      state_op_start_replay notify_readers
  write_alone_lem sleep count i w = (
    λ m. (ground arith, ground arith, ground (arith, m)),
    λ m. (ground arith, ground arith, ground (arith, m)),
  )
