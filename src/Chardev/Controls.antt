-- ===== src/Chardev/Controls.antt =====
-- `echo_ioctl` of module/echo_chardev.c.
use team9osdriver.Prelude.{ℕ, ◌+◌, ◌≡◌, ◌≢◌, refl, true, false, none, some, [], arith, pos, err}
use team9osdriver.Types.{
  Mode, idle, servo_pan, servo_tilt, servo_tilt2, servo_center, einval, efault, enotty,
}
use team9osdriver.Servo.{Servo, set_angle, get_angle}
use team9osdriver.Servo.Angles.{IsValid, get_angle-set_angle, set_angle-IsValid}
use team9osdriver.State.{set_mode, state_stop, stop_mode, stop_rest}
use team9osdriver.Buffer.{buffer_clear, buffer_cancel_replay, buffer_set_replay_speed}
use team9osdriver.Device.{
  Kernel, Dev, Now, state_ptr, state_ops, op_move_servo, notify_readers, signal_replay_done,
  state_op_cancel_replay,
}
use team9osdriver.Device.Events.{step, request}
use team9osdriver.Device.Invariant.{step-IsValid}
use team9osdriver.Chardev.{
  Ioctl, set_speed, reset, get_state, request_mode, unknown, echo_ioctl, mode_of, build_snapshot,
}
use team9osdriver.Chardev.Layout.{snapshot_at, Fits, snapshot_roundtrip}

module _ (k : Kernel) (now : Now) (pad : ℕ × ℕ) where
  -- the servos when a reset has centred all three
  centred : Servo → Servo
  centred s =
      (set_angle k.i2c
        (set_angle k.i2c (set_angle k.i2c s servo_pan servo_center).1 servo_tilt servo_center).1
        servo_tilt2 servo_center).1

  get_angle-centred : (s : Servo) (id : ℕ) → IsValid s → get_angle (centred s) id ≡ servo_center
  unfolding centred
  get_angle-centred s id v =
      let s1 = (set_angle k.i2c s servo_pan servo_center).1 in
      let s2 = (set_angle k.i2c s1 servo_tilt servo_center).1 in
      let v1 = set_angle-IsValid k.i2c s servo_pan servo_center v in
      let v2 = set_angle-IsValid k.i2c s1 servo_tilt servo_center v1 in
      ground (
        arith,
        get_angle-set_angle k.i2c s2 servo_tilt2 servo_center id v2,
        get_angle-set_angle k.i2c s1 servo_tilt servo_center id v1,
        get_angle-set_angle k.i2c s servo_pan servo_center id v,
      )

  centred-IsValid : (s : Servo) → IsValid s → IsValid (centred s)
  unfolding centred
  centred-IsValid s v = set_angle-IsValid k.i2c _ servo_tilt2 servo_center (
      set_angle-IsValid k.i2c _ servo_tilt servo_center
        (set_angle-IsValid k.i2c s servo_pan servo_center v))

  -- A reset returns 0 and leaves the device idle and the recording empty, no timer and no replay
  -- waiting, and all three servos believed to be at 90 degrees, whatever the bus answers. The counts of
  -- moves, replays and interrupts stay as they were.
  pub reset_lem :
      (d : Dev k)
      → IsValid d.servo
      → let r = echo_ioctl k now pad reset d in
        let d' = r.2 in
        (r.0 ≡ pos 0)
        × (d'.state.mode ≡ idle)
        × (d'.state.inactivity_timer ≡ none)
        × (d'.buffer.work_pending ≡ false)
        × (k.kfifo.entries d'.buffer.move_fifo ≡ [])
        × ((id : ℕ) → get_angle d'.servo id ≡ servo_center)
        × (d'.state.total_moves ≡ d.state.total_moves)
        × (d'.buffer.replay_count ≡ d.buffer.replay_count)
        × (d'.joystick.irq_count ≡ d.joystick.irq_count)
  unfolding echo_ioctl state_stop stop_mode stop_rest buffer_clear buffer_cancel_replay
      op_move_servo notify_readers signal_replay_done state_op_cancel_replay centred
  reset_lem d v = (
    refl,
    refl,
    refl,
    refl,
    k.kfifo.reset_lem _,
    λ id. get_angle-centred d.servo id v,
    refl,
    refl,
    refl,
  )

  -- `echo_state_set_mode`, seen from here, is the event of a request.
  speed-request :
      (d : Dev k) (m : Mode)
      → (step k d (request now m)).buffer.replay_speed ≡ d.buffer.replay_speed
  unfolding step
  speed-request d m = ground arith

  request-IsValid :
      (d : Dev k) (m : Mode)
      → IsValid d.servo
      → IsValid (set_mode k.clock state_ptr (state_ops k) now.start now.jiffies m d).1.servo
  unfolding step
  request-IsValid d m h = step-IsValid k d (request now m) tt h

  -- A request that cannot be read, a speed of 0, a mode above 2 and an unknown number are refused, each
  -- with its error, and the device stays as it was.
  ioctl_refused :
      (d : Dev k) (m : ℕ)
      → (echo_ioctl k now pad (set_speed none) d ≡ (err efault, [], d))
        × (echo_ioctl k now pad (set_speed (some 0)) d ≡ (err einval, [], d))
        × (echo_ioctl k now pad (request_mode none) d ≡ (err efault, [], d))
        × (echo_ioctl k now pad (request_mode (some (m + 3))) d ≡ (err einval, [], d))
        × (echo_ioctl k now pad unknown d ≡ (err enotty, [], d))
  unfolding echo_ioctl
  ioctl_refused d m = (refl, refl, refl, ground arith, refl)

  speed-ioctl :
      (req : Ioctl k) (d : Dev k)
      → d.buffer.replay_speed ≢ 0
      → (echo_ioctl k now pad req d).2.buffer.replay_speed ≢ 0
  unfolding echo_ioctl step
  speed-ioctl (set_speed none) d h = h
  speed-ioctl (set_speed (some speed)) d h = unfold buffer_set_replay_speed in ground arith
  speed-ioctl reset d h = h
  speed-ioctl (get_state true) d h = h
  speed-ioctl (get_state false) d h = h
  speed-ioctl (request_mode none) d h = h
  speed-ioctl (request_mode (some m)) d h = ground (arith, speed-request d (mode_of m))
  speed-ioctl unknown d h = h

  -- The replay speed never becomes 0: every request keeps a speed that is not 0, and SET_SPEED stores
  -- the speed that it is given, if that is not 0.
  speed_stays_positive :
      (req : Ioctl k) (d : Dev k) (speed : ℕ)
      → d.buffer.replay_speed ≢ 0
      → ((echo_ioctl k now pad req d).2.buffer.replay_speed ≢ 0)
        × (speed ≢ 0
            → (echo_ioctl k now pad (set_speed (some speed)) d).2.buffer.replay_speed ≡ speed)
  unfolding echo_ioctl buffer_set_replay_speed
  speed_stays_positive req d speed h = (speed-ioctl req d h, λ p. ground arith)

  -- GET_STATE copies the state of the device: what user space decodes is the snapshot, if its numbers
  -- fit their fields, and the device stays as it was.
  get_state_lem :
      (d : Dev k)
      → Fits (build_snapshot k d)
      → let r = echo_ioctl k now pad (get_state true) d in
        (r.0 ≡ pos 0) × (snapshot_at r.1 ≡ build_snapshot k d) × (r.2 ≡ d)
  unfolding echo_ioctl
  get_state_lem d h = (refl, (snapshot_roundtrip pad (build_snapshot k d) h).1, refl)

  -- Every request keeps the angles in range.
  pub ioctl-IsValid :
      (req : Ioctl k) (d : Dev k) → IsValid d.servo → IsValid (echo_ioctl k now pad req d).2.servo
  unfolding echo_ioctl
  ioctl-IsValid (set_speed none) d h = h
  ioctl-IsValid (set_speed (some speed)) d h = unfold buffer_set_replay_speed in ground (arith, h)
  ioctl-IsValid reset d h =
      unfold state_stop stop_mode stop_rest buffer_clear buffer_cancel_replay op_move_servo
        notify_readers signal_replay_done state_op_cancel_replay centred in
      centred-IsValid d.servo h
  ioctl-IsValid (get_state true) d h = h
  ioctl-IsValid (get_state false) d h = h
  ioctl-IsValid (request_mode none) d h = h
  ioctl-IsValid (request_mode (some m)) d h = ground (arith, request-IsValid d (mode_of m) h)
  ioctl-IsValid unknown d h = h
