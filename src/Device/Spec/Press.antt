-- ===== src/Device/Spec/Press.antt =====
-- A press of the joystick, for the device and for the robot.
use team9osdriver.Prelude.{ℕ, ◌≡◌, ◌≢◌, ◌++◌, sym, ap, ◌∙◌, arith, [], ◌∷◌, ℤ}
use team9osdriver.Types.{replay, Move, fifo_size}
use team9osdriver.Servo.{get_angle}
use team9osdriver.Servo.Angles.{IsValid, get_angle_range}
use team9osdriver.Device.{Kernel, Dev, Now}
use team9osdriver.Device.Events.{input, step}
use team9osdriver.Buffer.Recording.{newest}
use team9osdriver.Device.Input.{pressed, input_records, input_ignored}
use team9osdriver.Device.Spec.{press, aim, clamped, pressed_move, learn, tell}
use team9osdriver.Device.Spec.Abstraction.{
  arms_of, angle_of-arms_of, clamped-eq, arms_of-set_angle, is_some, robot_of,
}

module _ (k : Kernel) where
  pressed-eq :
      (d : Dev k) (now : Now) (id : ℕ) (delta : ℤ)
      → IsValid d.servo
      → pressed k d now id delta ≡ pressed_move k.clock now id delta (robot_of k d)
  unfolding robot_of
  pressed-eq d now id delta v = λ i. record (pressed k d now id delta) {
    angle =
        (clamped-eq (get_angle d.servo id) delta (get_angle_range d.servo id v)
            ∙ ap (λ cur. clamped cur delta) (sym (angle_of-arms_of d.servo id)))
          i;
  }

  input_kept :
      (d : Dev k) (now : Now) (id : ℕ) (delta : ℤ)
      → let d' = step k d (input now id delta) in
        (d'.buffer.work_pending ≡ d.buffer.work_pending)
        × (d'.buffer.replay_count ≡ d.buffer.replay_count)
  unfolding step
  input_kept d now id delta = (ground arith, ground arith)

  input-learn :
      (d : Dev k) (now : Now) (id : ℕ) (delta : ℤ)
      → IsValid d.servo
      → d.state.mode ≢ replay
      → robot_of k (step k d (input now id delta))
        ≡ learn now (pressed_move k.clock now id delta (robot_of k d)) (robot_of k d)
  unfolding robot_of
  input-learn d now id delta v h =
      let (servo, entries, moves, mode, timer, last, _) = input_records k d now id delta h in
      let (queued, replays) = input_kept d now id delta in
      let same = pressed-eq d now id delta v in
      let m = pressed k d now id delta in
      let recorded =
        entries
        ∙ ap (λ p. newest fifo_size (k.kfifo.entries d.buffer.move_fifo ++ (p ∷ []))) same in
      let aimed =
        ap arms_of servo
        ∙ arms_of-set_angle k d.servo id m.angle v
        ∙ ap (λ (p : Move). aim p.servo_id p.angle (arms_of d.servo)) same in
      λ i. record {
        mode = mode i;
        arms = aimed i;
        recording = recorded i;
        last_move = last i;
        armed = is_some k (timer i);
        queued = queued i;
        moves = moves i;
        replays = replays i;
      }

  pub input-Refines :
      (d : Dev k) (now : Now) (id : ℕ) (delta : ℤ)
      → IsValid d.servo
      → robot_of k (step k d (input now id delta))
        ≡ tell k.clock (robot_of k d) (press now id delta)
  unfolding robot_of
  input-Refines d now id delta v =
      ground (arith, input-learn d now id delta v, input_ignored k d now id delta)
