-- ===== src/Threads/Safety.antt =====
-- What no order of the sections can break.
use team9osdriver.Prelude.{Bool, arith, get_or}
use team9osdriver.Servo.Angles.{IsValid, set_angle-IsValid}
use team9osdriver.Types.{servo_pan, servo_tilt, servo_tilt2, servo_center}
use team9osdriver.State.{enter_teach, replay_complete}
use team9osdriver.Buffer.{no_move}
use team9osdriver.Device.{
  Kernel, Dev, op_move_servo, state_op_record_move, state_op_clear_buffer, state_op_start_replay,
  notify_readers, signal_replay_done,
}
use team9osdriver.Threads.{
  Pc, input_move, direct_move, reset_pan, reset_tilt, reset_tilt2, TimerPc, WorkerPc, worker_moves,
  advance, timer_advance, worker_advance,
}
use team9osdriver.Threads.System.{
  System, Step, call, go, fire, tick, begin, work, Steps, stay, more, thread_step, timer_step,
  worker_step, timer_fires, worker_begins,
}

module _ (k : Kernel) where
  advance-IsValid : (p : Pc) (d : Dev k) → IsValid d.servo → IsValid (advance k p d).1.servo
  unfolding advance enter_teach op_move_servo state_op_record_move state_op_clear_buffer
      state_op_start_replay notify_readers signal_replay_done
  advance-IsValid (input_move now id angle) d v = set_angle-IsValid k.i2c d.servo id angle v
  advance-IsValid (direct_move id angle) d v = set_angle-IsValid k.i2c d.servo id angle v
  advance-IsValid reset_pan d v = set_angle-IsValid k.i2c d.servo servo_pan servo_center v
  advance-IsValid reset_tilt d v = set_angle-IsValid k.i2c d.servo servo_tilt servo_center v
  advance-IsValid reset_tilt2 d v = set_angle-IsValid k.i2c d.servo servo_tilt2 servo_center v
  advance-IsValid p d v = ground (arith, v)

  timer_advance-IsValid :
      (p : TimerPc) (d : Dev k) → IsValid d.servo → IsValid (timer_advance k p d).1.servo
  unfolding timer_advance state_op_start_replay notify_readers
  timer_advance-IsValid p d v = ground (arith, v)

  worker_advance-IsValid :
      (p : WorkerPc) (d : Dev k) → IsValid d.servo → IsValid (worker_advance k p d).1.servo
  unfolding worker_advance op_move_servo notify_readers signal_replay_done replay_complete
  worker_advance-IsValid (worker_moves n i moves) d v =
      let m = get_or moves i no_move in set_angle-IsValid k.i2c d.servo m.servo_id m.angle v
  worker_advance-IsValid p d v = ground (arith, v)

  pub Step-IsValid :
      {calls : Pc → Bool} {s t : System k}
      → Step k calls s t
      → IsValid s.dev.servo
      → IsValid t.dev.servo
  unfolding thread_step timer_step worker_step timer_fires worker_begins
  Step-IsValid (call i p e c) v = v
  Step-IsValid {s = s} (go i c) v = advance-IsValid (s.threads i) s.dev v
  Step-IsValid (fire t r e) v = v
  Step-IsValid {s = s} (tick r) v = timer_advance-IsValid s.timer s.dev v
  Step-IsValid (begin moves r e z) v = v
  Step-IsValid {s = s} (work r) v = worker_advance-IsValid s.worker s.dev v

  -- Any number of threads, the timer and the worker, in any order of their sections, keep the
  -- angles of the servos in range.
  Steps-IsValid :
      {calls : Pc → Bool} {s t : System k}
      → Steps k calls s t
      → IsValid s.dev.servo
      → IsValid t.dev.servo
  Steps-IsValid stay v = v
  Steps-IsValid (more r st) v = Step-IsValid st (Steps-IsValid r v)
