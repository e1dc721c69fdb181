-- ===== src/Device/Invariant.antt =====
-- What holds of the device between two operations.
use team9osdriver.Prelude.{ℕ, ◌≡◌, ◌≢◌, true, none, Option, List, [], ◌∷◌, arith}
use team9osdriver.Types.{teach, replay, Move}
use team9osdriver.State.{clamp_angle, replay_complete}
use team9osdriver.Servo
use team9osdriver.Servo.{Servo, set_angle}
use team9osdriver.Servo.Angles.{IsValid, set_angle-IsValid}
use team9osdriver.Buffer.{play_move}
use team9osdriver.Buffer.Replay.{replay_worker-keeps}
use team9osdriver.Device.{
  notify_readers, signal_replay_done, Kernel, Dev, run_work, buf_op_replay_done, op_move_servo,
  buffer_ptr, buf_ops,
}
use team9osdriver.Device.Events.{Event, input, expire, request, move, work, step, run}

module _ (k : Kernel) where
  -- The servos' angles are in range; a robot that is taught will fall silent or be told to do
  -- something, for its timer runs; and a replay that is announced has its work queued.
  pub record Inv (d : Dev k) : Type 0 where
    pub servos : IsValid d.servo
    pub armed : d.state.mode ≡ teach → d.state.inactivity_timer ≢ none
    pub queued : d.state.mode ≡ replay → d.buffer.work_pending ≡ true

  -- The threads that run while the worker sleeps keep the servos' angles in range.
  abbrev pub Calm : Event k → Type 0
  Calm (work msleep moves) = (n : ℕ) (d : Dev k) → IsValid d.servo → IsValid (msleep n d).servo
  Calm _ = Unit {0}

  work-IsValid :
      (msleep : ℕ → Dev k → Dev k) (moves : Option (List Move)) (d : Dev k)
      → ((n : ℕ) (d : Dev k) → IsValid d.servo → IsValid (msleep n d).servo)
      → IsValid d.servo
      → IsValid (run_work k msleep moves d).servo
  unfolding run_work play_move op_move_servo buf_op_replay_done notify_readers signal_replay_done
      replay_complete
  work-IsValid msleep moves d calm v =
      replay_worker-keeps k.kfifo buffer_ptr (buf_ops k) msleep (λ d. IsValid d.servo) (λ b w h. h)
        (λ m w h.
          unfold play_move op_move_servo in
          set_angle-IsValid k.i2c _ m.servo_id m.angle (calm _ w h))
        (λ w h. h) moves _ v

  pub step-IsValid :
      (d : Dev k) (e : Event k) → Calm e → IsValid d.servo → IsValid (step k d e).servo
  unfolding step
  step-IsValid d (input now id delta) c v =
      ground (
        arith,
        set_angle-IsValid k.i2c d.servo id (clamp_angle (Servo.get_angle d.servo id) delta) v,
      )
  step-IsValid d expire c v = ground (arith, v)
  step-IsValid d (request now m) c v = ground (arith, v)
  step-IsValid d (move id angle) c v = ground (arith, set_angle-IsValid k.i2c d.servo id angle v)
  step-IsValid d (work msleep moves) c v = ground (arith, v, work-IsValid msleep moves d c v)

  -- Every event keeps the invariant: the angles of the servos are in range, the timer runs while
  -- the device is taught, and the work is queued while it is in replay mode. Of a run of the work
  -- this supposes that the threads that run in its sleeps keep the angles in range.
  pub step-Inv : (d : Dev k) (e : Event k) → Calm e → Inv d → Inv (step k d e)
  unfolding step
  step-Inv d (input now id delta) c h = ground (
    arith,
    set_angle-IsValid k.i2c d.servo id (clamp_angle (Servo.get_angle d.servo id) delta) h.servos,
  )
  step-Inv d expire c h = ground (arith, h.servos, h.armed, h.queued)
  step-Inv d (request now m) c h = ground arith
  step-Inv d (move id angle) c h = ground (arith, set_angle-IsValid k.i2c d.servo id angle h.servos)
  step-Inv d (work msleep moves) c h = ground (arith, work-IsValid msleep moves d c h.servos)

  abbrev pub AllCalm : List (Event k) → Type 0
  AllCalm [] = Unit {0}
  AllCalm (e ∷ es) = Calm e × AllCalm es

  -- A device in order stays in order through any sequence of events, if in the sleeps of each run
  -- of the replay work the other threads keep the angles of the servos in range.
  pub run-Inv : (d : Dev k) (es : List (Event k)) → AllCalm es → Inv d → Inv (run k d es)
  unfolding run
  run-Inv d [] c h = h
  run-Inv d (e ∷ es) c h = run-Inv (step k d e) es c.1 (step-Inv d e c.0 h)
