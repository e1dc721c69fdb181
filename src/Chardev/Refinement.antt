-- ===== src/Chardev/Refinement.antt =====
-- The file operations of module/echo_chardev.c do to the device what a user asks of the robot of
-- Device/Spec.
use team9osdriver.Prelude.{ℕ, ◌≡◌, Bool, false, Option, some, ltb, ◌==◌, ◌||◌, ℤ, if◌then◌else◌}
use team9osdriver.Types.{idle, teach, replay, u8, u16}
use team9osdriver.Device.{Kernel, Dev, state_ptr, state_ops, Now, is_replay}
use team9osdriver.State.{state_start_replay}
use team9osdriver.Device.Spec.{Robot, ask, turn, tell}
use team9osdriver.Device.Spec.Abstraction.{robot_of}
use team9osdriver.Chardev.{
  Cmd, cmd_size, cmd_teach, cmd_replay, cmd_stop, cmd_move, mode_val, mode_of, Ioctl, reset,
  request_mode, echo_open, echo_release, echo_read, echo_write, echo_ioctl,
}
use team9osdriver.Chardev.Orders.{centred}

module _ (k : Kernel) (now : Now) (sleep : Dev k → Bool × Dev k) where
  -- the calls that user space makes of the file
  pub data FileOp : Type 0 where
    open_file release_file : FileOp
    read_file : Bool → ℕ × ℕ → Bool → ℕ → FileOp
    write_file : Option Cmd → ℕ → FileOp
    control : ℕ × ℕ → Ioctl k → FileOp

  unfoldable pub call : FileOp → Dev k → Dev k
  call open_file d = (echo_open k d).1
  call release_file d = (echo_release k d).1
  call (read_file nonblock pad copied count) d = (echo_read k nonblock sleep pad copied count d).2
  call (write_file user count) d = (echo_write k now sleep user count d).1
  call (control pad req) d = (echo_ioctl k now pad req d).2

  -- What is asked by a call that sleeps with `others` doing something to the robot meanwhile: a
  -- request to replay that is not refused sleeps, and so does a read that may wait and has no news.
  module _ (others : Robot → Robot) where
    abbrev pub command : Cmd → Robot → Robot
    command cmd r =
        if cmd.command == cmd_teach
        then tell k.clock r (ask now teach)
        else if cmd.command == cmd_replay
        then if is_replay r.mode then r else others (tell k.clock r (ask now replay))
        else if cmd.command == cmd_stop
        then tell k.clock r (ask now idle)
        else if cmd.command == cmd_move
        then tell k.clock r (turn (u8 cmd.servo_id) (u16 cmd.angle))
        else r

    -- What a call asks of the robot, with whether there is news. All that fails asks nothing, and
    -- so do the calls that only look.
    abbrev pub obey : Bool → FileOp → Robot → Robot
    obey news (read_file nonblock pad copied count) r = if news || nonblock then r else others r
    obey news (write_file (some cmd) count) r = if ltb count cmd_size then r else command cmd r
    obey news (control pad reset) r = centred k now r
    obey news (control pad (request_mode (some m))) r =
        if ltb (mode_val replay) m then r else tell k.clock r (ask now (mode_of m))
    obey news _ r = r

  module _ (others : Robot → Robot)
      (slept : (d : Dev k) → robot_of k (sleep d).1 ≡ others (robot_of k d)) where
    started : Dev k → ℤ × Dev k
    started d =
        state_start_replay k.clock state_ptr (state_ops k) (record d { replay_finished = false })
