-- ===== src/Threads/Spec/Sections.antt =====
-- Each section of a call and of the timer's function, for the device and for the robot.
use team9osdriver.Prelude.{◌≡◌, sym, if◌then◌else◌, ap, ◌∙◌, arith, Bool, false, not, is_zero}
use team9osdriver.Types.{servo_pan, servo_tilt, servo_tilt2, servo_center}
use team9osdriver.Servo.{get_angle}
use team9osdriver.Servo.Angles.{IsValid, get_angle_range}
use team9osdriver.Buffer.{buffer_record, buffer_clear, buffer_start_replay, buffer_cancel_replay}
use team9osdriver.Buffer.Recording.{entries-record}
use team9osdriver.State.{enter_teach}
use team9osdriver.Device.{
  Kernel, Dev, op_move_servo, state_op_get_servo, state_op_record_move, state_op_clear_buffer,
  state_op_start_replay, notify_readers, signal_replay_done,
}
use team9osdriver.Device.Spec.{clamped}
use team9osdriver.Device.Spec.Abstraction.{
  arms_of-set_angle, angle_of-arms_of, clamped-eq, robot_of,
}
use team9osdriver.Threads.{
  Pc, ended, input_get, input_move, input_time, input_record, input_count, teach_clear, teach_count,
  direct_move, reset_clear, reset_pan, reset_tilt, reset_tilt2, notifying, TimerPc, advance,
  timer_advance,
}
use team9osdriver.Threads.Spec.{go_on, expire_on}

told_if : (b : Bool) → (if b then notifying else ended) ≡ (if not b then ended else notifying)
told_if b = ground arith

module _ (k : Kernel) where
  -- whether the chip refuses the movement that a thread is about to make
  abbrev pub refuses : Pc → Dev k → Bool
  refuses (direct_move id angle) d = not (is_zero (op_move_servo k id angle d).0)
  refuses p d = false

  pub timer_advance-Refines :
      (t : TimerPc) (d : Dev k)
      → let (t', d') = timer_advance k t d in (t', robot_of k d') ≡ expire_on t (robot_of k d)
  unfolding timer_advance robot_of state_op_start_replay notify_readers buffer_start_replay
  timer_advance-Refines t d = ground arith

  pub advance-Refines :
      (p : Pc) (d : Dev k)
      → IsValid d.servo
      → let (p', d') = advance k p d in
        (p', robot_of k d') ≡ go_on k.clock (refuses p d) p (robot_of k d)
  unfolding advance robot_of enter_teach op_move_servo state_op_record_move state_op_clear_buffer
      state_op_start_replay notify_readers signal_replay_done state_op_get_servo buffer_start_replay
      buffer_record buffer_clear buffer_cancel_replay
  advance-Refines (input_get now id delta) d v =
      ap (λ to. (input_move now id to, robot_of k d))
        (clamped-eq (get_angle d.servo id) delta (get_angle_range d.servo id v)
          ∙ ap (λ cur. clamped cur delta) (sym (angle_of-arms_of d.servo id)))
  advance-Refines (input_move now id angle) d v = λ j. (
    input_time now id angle,
    record (robot_of k d) { arms = arms_of-set_angle k d.servo id angle v j },
  )
  advance-Refines (input_record now m) d v = λ j.
      (input_count now, record (robot_of k d) { recording = entries-record k.kfifo d.buffer m j })
  advance-Refines (teach_clear now) d v = λ j. (
    teach_count now,
    record (robot_of k d) { recording = k.kfifo.reset_lem d.buffer.move_fifo j },
  )
  advance-Refines (direct_move id angle) d v = λ j. (
    told_if (is_zero (op_move_servo k id angle d).0) j,
    record (robot_of k d) { arms = arms_of-set_angle k d.servo id angle v j },
  )
  advance-Refines reset_clear d v =
      λ j. (reset_pan, record (robot_of k d) { recording = k.kfifo.reset_lem d.buffer.move_fifo j })
  advance-Refines reset_pan d v = λ j. (
    reset_tilt,
    record (robot_of k d) { arms = arms_of-set_angle k d.servo servo_pan servo_center v j },
  )
  advance-Refines reset_tilt d v = λ j. (
    reset_tilt2,
    record (robot_of k d) { arms = arms_of-set_angle k d.servo servo_tilt servo_center v j },
  )
  advance-Refines reset_tilt2 d v = λ j. (
    notifying,
    record (robot_of k d) { arms = arms_of-set_angle k d.servo servo_tilt2 servo_center v j },
  )
  advance-Refines p d v = ground arith
