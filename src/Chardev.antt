-- ===== src/Chardev.antt =====
-- module/echo_chardev.c with the structures of module/echo_ioctl.h: the file operations of
-- /dev/echo_robot. A transfer from user space is `none` if it fails.
pub mod Layout
pub mod Create
pub mod Reading
pub mod Writing
pub mod Controls
pub mod Orders
pub mod Refinement
use team9osdriver.Prelude.{
  ℕ, ◌+◌, ◌/◌, ◌%◌, ◌<◌, min, Bool, true, false, not, ◌&&◌, Option, none, some, List, [], ◌∷◌, ◌++◌,
  ℤ, pos, negsuc, err, is_zero, ◌+ℤ◌, ltb, ◌==◌, if◌then◌else◌, take,
}
use team9osdriver.Types.{
  Mode, idle, teach, replay, u8, u16, servo_pan, servo_tilt, servo_tilt2, servo_center, einval,
  efault, enotty, eagain, erestartsys,
}
use team9osdriver.Servo
use team9osdriver.Buffer.{get_replay_count, buffer_count, buffer_clear, buffer_set_replay_speed}
use team9osdriver.State.{get_mode, get_total_moves, set_mode, state_start_replay, state_stop}
use team9osdriver.Joystick.{get_irq_count}
use team9osdriver.Device.{
  Kernel, Dev, Device, Now, state_ptr, state_ops, op_move_servo, notify_readers,
}

-- `struct echo_cmd`
pub record Cmd : Type 0 where
  pub command : ℕ  -- __u32
  pub servo_id : ℕ  -- __u32
  pub angle : ℕ  -- __u32
  pub speed : ℕ  -- __u32

-- the numbers of the commands
abbrev pub cmd_teach : ℕ
cmd_teach = 1

abbrev pub cmd_replay : ℕ
cmd_replay = 2

abbrev pub cmd_stop : ℕ
cmd_stop = 3

abbrev pub cmd_move : ℕ
cmd_move = 4

-- `struct echo_snapshot`
pub record Snapshot : Type 0 where
  pub mode : ℕ  -- __u32
  pub pan_angle : ℕ  -- __u16
  pub tilt_angle : ℕ  -- __u16
  pub tilt2_angle : ℕ  -- __u16
  pub buffer_count : ℕ  -- __u32
  pub total_moves : ℕ  -- __u32
  pub total_replays : ℕ  -- __u32
  pub irq_count : ℕ  -- __u32

-- `enum echo_mode` and its numbers
abbrev pub mode_val : Mode → ℕ
mode_val idle = 0
mode_val teach = 1
mode_val replay = 2

abbrev pub mode_of : ℕ → Mode
mode_of n = if n == 0 then idle else if n == 1 then teach else replay

abbrev le16 : ℕ → List ℕ
le16 n = (n % 256) ∷ (n / 256 % 256) ∷ []

abbrev le32 : ℕ → List ℕ
le32 n = (n % 256) ∷ (n / 256 % 256) ∷ (n / 65536 % 256) ∷ (n / 16777216 % 256) ∷ []

-- The bytes of the structure in memory. Two bytes of padding follow the three angles; no assignment
-- writes them, so they are what the stack held, `pad`.
unfoldable pub snapshot_bytes : ℕ × ℕ → Snapshot → List ℕ
snapshot_bytes pad s =
    le32 s.mode
    ++ (le16 s.pan_angle
        ++ (le16 s.tilt_angle
            ++ (le16 s.tilt2_angle
                ++ (pad.0
                    ∷ pad.1
                    ∷ (le32 s.buffer_count
                        ++ (le32 s.total_moves ++ (le32 s.total_replays ++ le32 s.irq_count)))))))

abbrev pub snapshot_size : ℕ
snapshot_size = 28

abbrev pub cmd_size : ℕ
cmd_size = 16

module _ (k : Kernel) where
  unfoldable pub build_snapshot : Dev k → Snapshot
  unfolding get_mode get_total_moves
  build_snapshot d = record {
    mode = mode_val (get_mode k.clock state_ptr (state_ops k) d);
    pan_angle = Servo.get_angle d.servo servo_pan;
    tilt_angle = Servo.get_angle d.servo servo_tilt;
    tilt2_angle = Servo.get_angle d.servo servo_tilt2;
    buffer_count = buffer_count k.kfifo d.buffer;
    total_moves = get_total_moves k.clock state_ptr (state_ops k) d;
    total_replays = get_replay_count k.kfifo d.buffer;
    irq_count = get_irq_count d.joystick;
  }

  unfoldable pub echo_open : Dev k → ℤ × Dev k
  echo_open d = (pos 0, record d { open_count = d.open_count +ℤ pos 1 })

  unfoldable pub echo_release : Dev k → ℤ × Dev k
  echo_release d = (pos 0, record d { open_count = d.open_count +ℤ negsuc 0 })

  unfoldable pub get_open_count : Dev k → ℤ
  get_open_count d = d.open_count

  -- `wait_event_interruptible` returns at once if the condition holds. Else the caller sleeps: what
  -- others do meanwhile, and whether a signal ends the sleep, is the parameter `sleep`.
  abbrev pub wait_event : (Dev k → Bool) → (Dev k → Bool × Dev k) → Dev k → Bool × Dev k
  wait_event cond sleep d = if cond d then (false, d) else sleep d

  -- The result, the bytes that user space receives, and the device.
  unfoldable pub echo_read :
      Bool → (Dev k → Bool × Dev k) → ℕ × ℕ → Bool → ℕ → Dev k → ℤ × List ℕ × Dev k
  echo_read nonblock sleep pad copied count d =
      let (interrupted, d1) = wait_event (λ d. d.new_data_avail) sleep d in
      let d2 = record d1 { new_data_avail = false } in
      let to_copy = min count snapshot_size in
      if nonblock && not d.new_data_avail
      then (err eagain, [], d)
      else if interrupted
      then (err erestartsys, [], d1)
      else if copied
      then (pos to_copy, take to_copy (snapshot_bytes pad (build_snapshot d2)), d2)
      else (err efault, [], d2)

  -- `case ECHO_CMD_REPLAY`
  unfoldable pub write_replay : (Dev k → Bool × Dev k) → ℕ → Dev k → ℤ × Dev k
  write_replay sleep count d =
      let (ret, d1) =
        state_start_replay k.clock state_ptr (state_ops k) (record d { replay_finished = false }) in
      let (interrupted, d2) = wait_event (λ d. d.replay_finished) sleep d1 in
      if not (is_zero ret)
      then (ret, d1)
      else if interrupted
      then (err erestartsys, d2)
      else (pos count, d2)

  -- `case ECHO_CMD_MOVE`
  unfoldable pub write_move : ℕ → Cmd → Dev k → ℤ × Dev k
  write_move count cmd d =
      let (ret, d1) = op_move_servo k (u8 cmd.servo_id) (u16 cmd.angle) d in
      if not (is_zero ret) then (ret, d1) else (pos count, notify_readers d1)

  unfoldable pub run_command : Now → (Dev k → Bool × Dev k) → ℕ → Cmd → Dev k → ℤ × Dev k
  unfolding write_replay write_move
  run_command now sleep count cmd d =
      if cmd.command == cmd_teach
      then (pos count, (set_mode k.clock state_ptr (state_ops k) now.start now.jiffies teach d).1)
      else if cmd.command == cmd_replay
      then write_replay sleep count d
      else if cmd.command == cmd_stop
      then (pos count, state_stop k.clock state_ptr (state_ops k) d)
      else if cmd.command == cmd_move
      then write_move count cmd d
      else (err einval, d)

  unfoldable pub echo_write : Now → (Dev k → Bool × Dev k) → Option Cmd → ℕ → Dev k → ℤ × Dev k
  unfolding run_command
  echo_write now sleep user count d =
      if ltb count cmd_size
      then (err einval, d)
      else elim user [ none ↦ (err efault, d) | some cmd ↦ run_command now sleep count cmd d ]

  -- the requests of `ioctl`, with what `copy_from_user` gives, or whether `copy_to_user` works
  pub data Ioctl : Type 0 where
    set_speed : Option ℕ → Ioctl
    reset : Ioctl
    get_state : Bool → Ioctl
    request_mode : Option ℕ → Ioctl
    unknown : Ioctl

  unfoldable pub ioctl_set_speed : ℕ → Dev k → ℤ × List ℕ × Dev k
  ioctl_set_speed speed d =
      if speed == 0
      then (err einval, [], d)
      else (pos 0, [], record d { buffer = buffer_set_replay_speed k.kfifo d.buffer speed })

  unfoldable pub ioctl_reset : Dev k → ℤ × List ℕ × Dev k
  ioctl_reset d =
      let d1 = state_stop k.clock state_ptr (state_ops k) d in
      let d2 : Dev k = record d1 { buffer = buffer_clear k.kfifo d1.buffer } in
      let d3 = (op_move_servo k servo_pan servo_center d2).1 in
      let d4 = (op_move_servo k servo_tilt servo_center d3).1 in
      let d5 = (op_move_servo k servo_tilt2 servo_center d4).1 in (pos 0, [], notify_readers d5)

  unfoldable pub ioctl_set_mode : Now → ℕ → Dev k → ℤ × List ℕ × Dev k
  ioctl_set_mode now new_mode d =
      let (ret, d1) =
        set_mode k.clock state_ptr (state_ops k) now.start now.jiffies (mode_of new_mode) d in
      if ltb (mode_val replay) new_mode then (err einval, [], d) else (ret, [], d1)

  unfoldable pub echo_ioctl : Now → ℕ × ℕ → Ioctl → Dev k → ℤ × List ℕ × Dev k
  unfolding ioctl_set_speed ioctl_reset ioctl_set_mode
  echo_ioctl now pad (set_speed none) d = (err efault, [], d)
  echo_ioctl now pad (set_speed (some speed)) d = ioctl_set_speed speed d
  echo_ioctl now pad reset d = ioctl_reset d
  echo_ioctl now pad (get_state true) d = (pos 0, snapshot_bytes pad (build_snapshot d), d)
  echo_ioctl now pad (get_state false) d = (err efault, [], d)
  echo_ioctl now pad (request_mode none) d = (err efault, [], d)
  echo_ioctl now pad (request_mode (some new_mode)) d = ioctl_set_mode now new_mode d
  echo_ioctl now pad unknown d = (err enotty, [], d)
