-- ===== src/Chardev/Orders.antt =====
-- What the calls of module/echo_chardev.c that do not sleep ask of the robot of Device/Spec.
use team9osdriver.Prelude.{ℕ, ◌≡◌, ap, ◌∙◌, arith, Bool, true, false, List, [], ℤ, if◌then◌else◌}
use team9osdriver.Types.{
  Mode, idle, replay, u8, u16, servo_center, servo_pan, servo_tilt, servo_tilt2,
}
use team9osdriver.Device.{Kernel, Dev, state_ptr, state_ops, Now, op_move_servo, notify_readers}
use team9osdriver.State.{set_mode, state_start_replay, state_stop}
use team9osdriver.Buffer.{buffer_clear, buffer_set_replay_speed}
use team9osdriver.Device.Events.{request, move, step}
use team9osdriver.Servo.Angles.{IsValid}
use team9osdriver.Device.Invariant.{step-IsValid}
use team9osdriver.Device.Spec.{Robot, ask, turn, tell}
use team9osdriver.Device.Spec.Abstraction.{robot_of}
use team9osdriver.Device.Spec.Refinement.{step-Refines}
use team9osdriver.Chardev.{Cmd, write_move, ioctl_reset}

-- a function of a choice
pub of_if {ℓ ℓ'} :
    {A : Type ℓ} {B : Type ℓ'} (f : A → B) (b : Bool) (x y : A) (u v : B)
    → f x ≡ u
    → f y ≡ v
    → f (if b then x else y) ≡ (if b then u else v)
of_if f true x y u v e e' = e
of_if f false x y u v e e' = e'

-- a function that does not see a choice
pub of_either {ℓ ℓ'} :
    {A : Type ℓ} {B : Type ℓ'} (f : A → B) (b : Bool) (x y : A) (u : B)
    → f x ≡ u
    → f y ≡ u
    → f (if b then x else y) ≡ u
of_either f true x y u e e' = e
of_either f false x y u e e' = e'

module _ (k : Kernel) (now : Now) where
  abbrev pub centred : Robot → Robot
  centred r = record r {
    mode = idle;
    arms = record { base = servo_center; first = servo_center; second = servo_center };
    recording = [];
    armed = false;
    queued = false;
  }

  unfoldable pub told_device : {A : Type 0} → A × Dev k → Robot
  told_device p = robot_of k p.1

  unfoldable pub told_read : ℤ × List ℕ × Dev k → Robot
  told_read p = robot_of k p.2

  pub request-Refines :
      (m : Mode) (d : Dev k)
      → IsValid d.servo
      → robot_of k (set_mode k.clock state_ptr (state_ops k) now.start now.jiffies m d).1
        ≡ tell k.clock (robot_of k d) (ask now m)
  unfolding step
  request-Refines m d h = step-Refines k d (request now m) tt h

  turn-Refines :
      (id angle : ℕ) (d : Dev k)
      → IsValid d.servo
      → robot_of k (op_move_servo k id angle d).1 ≡ tell k.clock (robot_of k d) (turn id angle)
  unfolding step notify_readers robot_of
  turn-Refines id angle d h = step-Refines k d (move id angle) tt h

  pub write_move-Refines :
      (count : ℕ) (cmd : Cmd) (d : Dev k)
      → IsValid d.servo
      → robot_of k (write_move k count cmd d).1
        ≡ tell k.clock (robot_of k d) (turn (u8 cmd.servo_id) (u16 cmd.angle))
  unfolding write_move notify_readers robot_of told_device
  write_move-Refines count cmd d h =
      let e = turn-Refines (u8 cmd.servo_id) (u16 cmd.angle) d h in
      of_either told_device _ _ _ _ e e

  pub start-Refines :
      (d : Dev k)
      → IsValid d.servo
      → robot_of k
          (state_start_replay k.clock state_ptr
            (state_ops k)
            (record d { replay_finished = false })).1
        ≡ tell k.clock (robot_of k d) (ask now replay)
  unfolding set_mode robot_of
  start-Refines d h = request-Refines replay (record d { replay_finished = false }) h

  pub speed_kept :
      (speed : ℕ) (d : Dev k)
      → robot_of k (record d { buffer = buffer_set_replay_speed k.kfifo d.buffer speed })
        ≡ robot_of k d
  unfolding robot_of buffer_set_replay_speed
  speed_kept speed d = ground arith

  move-IsValid :
      (id angle : ℕ) (d : Dev k) → IsValid d.servo → IsValid (op_move_servo k id angle d).1.servo
  unfolding step notify_readers
  move-IsValid id angle d h = step-IsValid k d (move id angle) tt h

  turn_to : ℕ → Robot → Robot
  turn_to id r = tell k.clock r (turn id servo_center)

  -- the device of a reset behind its stop, with the recording cleared
  stopped : Dev k → Dev k
  stopped d =
      let d1 = state_stop k.clock state_ptr (state_ops k) d in
      record d1 { buffer = buffer_clear k.kfifo d1.buffer }

  stopped-IsValid : (d : Dev k) → IsValid d.servo → IsValid (stopped d).servo
  unfolding step stopped set_mode buffer_clear
  stopped-IsValid d h = step-IsValid k d (request now idle) tt h

  stopped-Refines :
      (d : Dev k)
      → IsValid d.servo
      → robot_of k (stopped d)
        ≡ record (tell k.clock (robot_of k d) (ask now idle)) { recording = [] }
  unfolding stopped robot_of buffer_clear set_mode
  stopped-Refines d h = λ i. record (request-Refines idle d h i) {
    recording = k.kfifo.reset_lem (state_stop k.clock state_ptr (state_ops k) d).buffer.move_fifo i;
  }

  pub reset-Refines :
      (d : Dev k) → IsValid d.servo → robot_of k (ioctl_reset k d).2 ≡ centred (robot_of k d)
  unfolding ioctl_reset robot_of notify_readers stopped turn_to
  reset-Refines d h =
      let d2 = stopped d in
      let h2 = stopped-IsValid d h in
      let d3 = (op_move_servo k servo_pan servo_center d2).1 in
      let h3 = move-IsValid servo_pan servo_center d2 h2 in
      let d4 = (op_move_servo k servo_tilt servo_center d3).1 in
      let h4 = move-IsValid servo_tilt servo_center d3 h3 in
      turn-Refines servo_tilt2 servo_center d4 h4
      ∙ ap (turn_to servo_tilt2) (turn-Refines servo_tilt servo_center d3 h3)
      ∙ ap (λ r. turn_to servo_tilt2 (turn_to servo_tilt r))
          (turn-Refines servo_pan servo_center d2 h2)
      ∙ ap (λ r. turn_to servo_tilt2 (turn_to servo_tilt (turn_to servo_pan r)))
          (stopped-Refines d h)
