-- ===== src/Device/Spec/Refinement.antt =====
-- The device does what the robot of Device/Spec does.
use team9osdriver.Prelude.{◌≡◌, sym, subst, refl, ap, ◌∙◌, arith, none, some, List, [], ◌∷◌}
use team9osdriver.Types.{idle, teach, replay}
use team9osdriver.Servo.Angles.{IsValid}
use team9osdriver.Device.{Kernel, Dev}
use team9osdriver.Device.Events.{Event, input, expire, request, move, work, step, run}
use team9osdriver.Device.Spec.{tell, tell_all}
use team9osdriver.Device.Spec.Abstraction.{
  arms_of-set_angle, robot_of, told, told_all, Quiet, AllQuiet,
}
use team9osdriver.Device.Spec.Press.{input-Refines}
use team9osdriver.Device.Spec.Play.{work-Refines}
use team9osdriver.Device.Invariant.{Calm, step-IsValid}

module _ (k : Kernel) where
  pub step-Refines :
      (d : Dev k) (e : Event k)
      → Quiet k e
      → IsValid d.servo
      → robot_of k (step k d e) ≡ tell k.clock (robot_of k d) (told k e)
  unfolding robot_of step
  step-Refines d (input now id delta) q v = input-Refines k d now id delta v
  step-Refines d expire q v = ground arith
  step-Refines d (request now teach) q v = ground (arith, k.kfifo.reset_lem d.buffer.move_fifo)
  step-Refines d (request now replay) q v = ground arith
  step-Refines d (request now idle) q v = ground arith
  step-Refines d (move id angle) q v =
      λ i. record (robot_of k d) { arms = arms_of-set_angle k d.servo id angle v i }
  step-Refines d (work msleep none) q v = absurd q
  step-Refines d (work msleep (some moves)) q v =
      ground (arith, work-Refines k msleep q.0 moves d q.1 v)

  Quiet-Calm : (e : Event k) → Quiet k e → Calm k e
  Quiet-Calm (work msleep (some moves)) q = λ n d v. subst IsValid (sym (q.0 n d).0) v
  Quiet-Calm (work msleep none) q = absurd q
  Quiet-Calm (input now id delta) q = tt
  Quiet-Calm expire q = tt
  Quiet-Calm (request now m) q = tt
  Quiet-Calm (move id angle) q = tt

  -- Whatever happens to the device, one whole operation at a time, it does what the robot of
  -- Device/Spec does: its mode, its arms, its recording, the time of its last movement, its timer
  -- (armed or not), its queue and its counts are those of the robot, whose count of moves starts
  -- anew at each request to teach, as in the code (module/echo_ioctl.h has it since the load of the
  -- module). This supposes that the angles are in range at the start, and of each run of the replay
  -- work that it gets its memory and that nothing disturbs it in its sleeps.
  pub run-Refines :
      (es : List (Event k)) (d : Dev k)
      → AllQuiet k es
      → IsValid d.servo
      → robot_of k (run k d es) ≡ tell_all k.clock (robot_of k d) (told_all k es)
  unfolding run tell_all
  run-Refines [] d q v = refl
  run-Refines (e ∷ es) d q v =
      run-Refines es (step k d e) q.1 (step-IsValid k d e (Quiet-Calm e q.0) v)
      ∙ ap (λ r. tell_all k.clock r (told_all k es)) (step-Refines d e q.0 v)
