-- ===== src/Chardev/Writing.antt =====
-- `echo_write` of module/echo_chardev.c.
use team9osdriver.Prelude.{
  ℕ, ◌+◌, ◌*◌, ◌≤◌, ◌<◌, ◌≡◌, ◌⊎◌, Bool, true, false, Option, none, some, arith, pos, err,
}
use team9osdriver.State.{state_start_replay}
use team9osdriver.Types.{idle, teach, u8, u16, replay, ebusy, einval, efault}
use team9osdriver.Device.{state_ptr, state_ops, Kernel, Dev, Now}
use team9osdriver.Device.Events.{step, request, move}
use team9osdriver.Servo.Angles.{IsValid}
use team9osdriver.Device.Invariant.{step-IsValid}
use team9osdriver.Chardev.{write_replay, write_move, run_command, Cmd, cmd_size, echo_write}
use team9osdriver.Chardev.Reading.{Awaits}

module _ (k : Kernel) (now : Now) (sleep : Dev k → Bool × Dev k) where
  -- A write that is too short, that cannot be copied, or whose command is none of the four is
  -- refused, and the device stays as it was.
  write_refused :
      (user : Option Cmd) (count : ℕ) (cmd : Cmd) (d : Dev k)
      → (count < cmd_size → echo_write k now sleep user count d ≡ (err einval, d))
        × (cmd_size ≤ count → echo_write k now sleep none count d ≡ (err efault, d))
        × (cmd_size ≤ count
            → (cmd.command ≡ 0) ⊎ (4 < cmd.command)
            → echo_write k now sleep (some cmd) count d ≡ (err einval, d))
  unfolding echo_write
  write_refused user count cmd d = (λ h. ground arith, λ h. ground arith, λ h p. ground arith)

  -- A complete write of REPLAY in replay mode returns EBUSY, and all that it changes is that the
  -- replay counts as unfinished. If such a write returns its count in any mode, then the flag that
  -- a replay has finished is set when it returns, given that a sleep that no signal ends leaves
  -- that flag set.
  write_replay_blocks :
      (cmd : Cmd) (count : ℕ) (d : Dev k)
      → cmd_size ≤ count
      → cmd.command ≡ 2
      → Awaits k (λ d. d.replay_finished) sleep
      → let r = echo_write k now sleep (some cmd) count d in
        (d.state.mode ≡ replay → r ≡ (err ebusy, record d { replay_finished = false }))
        × (r.0 ≡ pos count → r.1.replay_finished ≡ true)
  unfolding echo_write state_start_replay
  write_replay_blocks cmd count d h c law = (
    λ busy. ground arith,
    ground (
      arith,
      law
          (state_start_replay k.clock state_ptr (state_ops k)
            (record d { replay_finished = false })).1,
    ),
  )

  -- A servo number or an angle of a direct move is cut to 8 and to 16 bits before any test, so servo
  -- 256 is servo 0 and an angle of 65536 is 0.
  write_move_wraps :
      (cmd : Cmd) (count n m : ℕ) (d : Dev k)
      → cmd.command ≡ 4
      → echo_write k now sleep
          (some (record cmd { servo_id = cmd.servo_id + 256 * n; angle = cmd.angle + 65536 * m }))
          count
          d
        ≡ echo_write k now sleep (some cmd) count d
  unfolding echo_write
  write_move_wraps cmd count n m d h =
      let id : u8 (cmd.servo_id + 256 * n) ≡ u8 cmd.servo_id = omega arith in
      let angle : u16 (cmd.angle + 65536 * m) ≡ u16 cmd.angle = omega arith in rw (id, angle)

  write_replay-IsValid :
      (count : ℕ) (d : Dev k)
      → ((d : Dev k) → IsValid d.servo → IsValid (sleep d).1.servo)
      → IsValid d.servo
      → IsValid (write_replay k sleep count d).1.servo
  unfolding write_replay step
  write_replay-IsValid count d calm h =
      let cleared : Dev k = record d { replay_finished = false } in
      let queued = step-IsValid k cleared (request now replay) tt h in
      ground (arith, queued, calm (step k cleared (request now replay)) queued)

  write_move-IsValid :
      (count : ℕ) (cmd : Cmd) (d : Dev k)
      → IsValid d.servo
      → IsValid (write_move k count cmd d).1.servo
  unfolding write_move step
  write_move-IsValid count cmd d h =
      ground (arith, step-IsValid k d (move (u8 cmd.servo_id) (u16 cmd.angle)) tt h)

  run_command-IsValid :
      (count : ℕ) (cmd : Cmd) (d : Dev k)
      → ((d : Dev k) → IsValid d.servo → IsValid (sleep d).1.servo)
      → IsValid d.servo
      → IsValid (run_command k now sleep count cmd d).1.servo
  unfolding run_command step
  run_command-IsValid count cmd d calm h = ground (
    arith,
    step-IsValid k d (request now teach) tt h,
    step-IsValid k d (request now idle) tt h,
    write_replay-IsValid count d calm h,
    write_move-IsValid count cmd d h,
  )

  -- Every write keeps the angles in range, if the threads that run while a writer sleeps do.
  pub write-IsValid :
      (user : Option Cmd) (count : ℕ) (d : Dev k)
      → ((d : Dev k) → IsValid d.servo → IsValid (sleep d).1.servo)
      → IsValid d.servo
      → IsValid (echo_write k now sleep user count d).1.servo
  unfolding echo_write
  write-IsValid none count d calm h = ground (arith, h)
  write-IsValid (some cmd) count d calm h = ground (arith, run_command-IsValid count cmd d calm h)
