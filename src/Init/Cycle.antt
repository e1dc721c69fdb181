-- ===== src/Init/Cycle.antt =====
-- A module that is loaded, used and unloaded: echo_init and echo_exit of module/echo_main.c with any
-- operations between them.
use team9osdriver.Prelude.{
  ℕ, ◌≡◌, refl, sym, ap, subst, ◌∙◌, arith, if◌then◌else◌, Bool, Option, List, [], ◌∷◌,
}
use team9osdriver.Types.{Move}
use team9osdriver.Resources.{
  Held, release, device_mem, servo_mem, i2c_client, i2c_adapter, buffer_mem, workqueue, state_mem,
  created, Balanced,
}
use team9osdriver.Servo
use team9osdriver.Servo.{set_angle}
use team9osdriver.Servo.Create.{servo_destroy, servo_gone}
use team9osdriver.Buffer.Create.{buffer_destroy}
use team9osdriver.State.Create.{state_destroy}
use team9osdriver.Joystick.Create.{joystick_destroy}
use team9osdriver.Chardev.Create.{chardev_destroy}
use team9osdriver.Proc.Create.{proc_destroy}
use team9osdriver.State.{clamp_angle, replay_complete}
use team9osdriver.Buffer.{replay_delay, play_move}
use team9osdriver.Buffer.Replay.{replay_worker-keeps}
use team9osdriver.Device.{
  notify_readers, signal_replay_done, Kernel, Dev, run_work, buf_op_replay_done, op_move_servo,
  buffer_ptr, buf_ops,
}
use team9osdriver.Device.Events.{Event, input, expire, request, move, work, step, run}
use team9osdriver.Init.{InitEnv, echo_init, echo_exit}
use team9osdriver.Init.Fresh.{echo_init-Inv}
use team9osdriver.Device.Invariant.{Inv, AllCalm, run-Inv}
use team9osdriver.Init.Unwinding.{echo_init-Balanced}

module _ (k : Kernel) where
  -- The parts that have hardware behind them, by their flags.
  abbrev hardware : Dev k → Bool × Bool
  hardware d = (d.servo.sim_mode, d.sim_mode)

  -- The threads that run while the worker sleeps leave the flags alone.
  abbrev KeepsFlags : Event k → Type 0
  KeepsFlags (work msleep moves) = (n : ℕ) (d : Dev k) → hardware (msleep n d) ≡ hardware d
  KeepsFlags _ = Unit {0}

  abbrev AllKeepFlags : List (Event k) → Type 0
  AllKeepFlags [] = Unit {0}
  AllKeepFlags (e ∷ es) = KeepsFlags e × AllKeepFlags es

  set_angle_flag :
      (d : Dev k) (id angle : ℕ) → (set_angle k.i2c d.servo id angle).1.sim_mode ≡ d.servo.sim_mode
  unfolding set_angle
  set_angle_flag d id angle = ground arith

  moved-hardware : (d : Dev k) (id angle : ℕ) → hardware (op_move_servo k id angle d).1 ≡ hardware d
  unfolding op_move_servo
  moved-hardware d id angle = ap (λ b. (b, d.sim_mode)) (set_angle_flag d id angle)

  work-hardware :
      (msleep : ℕ → Dev k → Dev k) (moves : Option (List Move)) (d : Dev k)
      → ((n : ℕ) (d : Dev k) → hardware (msleep n d) ≡ hardware d)
      → hardware (run_work k msleep moves d) ≡ hardware d
  unfolding run_work play_move op_move_servo buf_op_replay_done notify_readers signal_replay_done
      replay_complete
  work-hardware msleep moves d calm =
      replay_worker-keeps k.kfifo buffer_ptr (buf_ops k) msleep (λ w. hardware w ≡ hardware d)
        (λ b w h. h)
        (λ m w h.
          let n = replay_delay w.buffer.replay_speed m.delay_ms in
          moved-hardware (msleep n w) m.servo_id m.angle ∙ calm n w ∙ h)
        (λ w h. h) moves _ refl

  step-hardware : (d : Dev k) (e : Event k) → KeepsFlags e → hardware (step k d e) ≡ hardware d
  unfolding step
  step-hardware d (input now id delta) c =
      ground (arith, moved-hardware d id (clamp_angle (Servo.get_angle d.servo id) delta))
  step-hardware d expire c = ground arith
  step-hardware d (request now m) c = ground arith
  step-hardware d (move id angle) c = moved-hardware d id angle
  step-hardware d (work msleep moves) c = ground (arith, work-hardware msleep moves d c)

  run-hardware :
      (d : Dev k) (es : List (Event k)) → AllKeepFlags es → hardware (run k d es) ≡ hardware d
  unfolding run
  run-hardware d [] c = refl
  run-hardware d (e ∷ es) c = run-hardware (step k d e) es c.1 ∙ step-hardware d e c.0

  servo_held : Bool → Held → Held
  servo_held sim_mode h =
      if sim_mode
      then release servo_mem h
      else release servo_mem (release i2c_adapter (release i2c_client h))

  servo_gone_held : (s : Servo.Servo) (h : Held) → servo_gone k.i2c s h ≡ servo_held s.sim_mode h
  unfolding servo_destroy servo_held
  servo_gone_held s h = ground arith

  -- What is given back depends on the flags alone.
  echo_exit-hardware :
      (d d' : Dev k) (h : Held) → hardware d' ≡ hardware d → echo_exit k d' h ≡ echo_exit k d h
  unfolding echo_exit buffer_destroy state_destroy joystick_destroy
  echo_exit-hardware d d' h e =
      let exit : Bool × Bool → Held = λ flags. release device_mem (
        servo_held flags.0 (
          release buffer_mem (
            release workqueue (
              release state_mem (
                joystick_destroy flags.1 d.joystick (chardev_destroy tt (proc_destroy tt h))))))) in
      ap (release device_mem) (servo_gone_held d'.servo _)
      ∙ ap exit e
      ∙ sym (ap (release device_mem) (servo_gone_held d.servo _))

  module _ (env : InitEnv k.kfifo.Fifo) (h h' : Held) (d : Dev k) (es : List (Event k)) where
    -- A module that is loaded, used in any way and unloaded gives back all that its load took, each
    -- once, if in the sleeps of each run of the replay work the other threads leave alone whether the
    -- device has hardware.
    pub load_and_unload :
        echo_init k env h ≡ (created d, h') → AllKeepFlags es → echo_exit k (run k d es) h' ≡ h
    load_and_unload loaded keep =
        echo_exit-hardware d (run k d es) h' (run-hardware d es keep)
        ∙ subst (Balanced (echo_exit k) h) loaded (echo_init-Balanced k env h)

    -- In a module that is loaded, the device is in order after any sequence of events, if in the sleeps
    -- of each run of the replay work the other threads keep the angles of the servos in range.
    load_and_run-Inv : echo_init k env h ≡ (created d, h') → AllCalm k es → Inv k (run k d es)
    load_and_run-Inv loaded calm = run-Inv k d es calm (echo_init-Inv k env h h' d loaded).0
