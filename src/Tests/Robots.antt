-- ===== src/Tests/Robots.antt =====
-- The device and the robot of Device/Spec at concrete inputs.
use team9osdriver.Prelude.{
  ℕ, ◌≡◌, refl, arith, Bool, true, some, List, [], ◌∷◌, ℤ, pos, negsuc, replicate,
}
use team9osdriver.Types.{idle, teach, replay, Move}
use team9osdriver.Servo.{get_angle}
use team9osdriver.Device.{Dev, Now}
use team9osdriver.Device.Events.{Event, input, expire, request, move, work, run}
use team9osdriver.Device.Invariant.{Inv}
use team9osdriver.Device.Spec.{tell_all}
use team9osdriver.Device.Spec.Abstraction.{robot_of, told_all, Still}
use team9osdriver.Device.Spec.Refinement.{run-Refines}
use team9osdriver.Device.Spec.Repeats.{presses, replay_repeats}
use team9osdriver.Chardev.{Cmd}
use team9osdriver.Controller.{Moment}
use team9osdriver.Tests.Fixture.{test_kernel, teaching, at_250, turn}

abbrev awake : ℕ → Dev test_kernel → Dev test_kernel
awake n d = d

awake-Still : Still test_kernel awake
awake-Still n d = (refl, refl, refl)

abbrev memory : List Move
memory = replicate 256 (turn 0)

teaching-Inv : Inv test_kernel teaching
teaching-Inv = record { servos = omega arith; armed = λ p. λ q. cc; queued = λ p. cc }

-- a press, a direct move, silence, the replay and a request
abbrev day : List (Event test_kernel)
day =
    input at_250 0 (pos 10)
    ∷ move 1 200
    ∷ expire
    ∷ work awake (some memory)
    ∷ request at_250 teach
    ∷ []

run-Refines_example :
    robot_of test_kernel (run test_kernel teaching day)
    ≡ tell_all test_kernel.clock (robot_of test_kernel teaching) (told_all test_kernel day)
run-Refines_example =
    run-Refines test_kernel day teaching (tt, (tt, (tt, ((awake-Still, refl), (tt, tt)))))
      teaching-Inv.servos

-- the base up and down, and the second arm
abbrev lesson : List (Now × ℕ × ℤ)
lesson = (at_250, 0, pos 10) ∷ (at_250, 0, negsuc 4) ∷ (at_250, 2, pos 30) ∷ []

replay_repeats_example :
    let taught = run test_kernel teaching (request at_250 teach ∷ presses test_kernel lesson) in
    let done = run test_kernel taught (request at_250 replay ∷ work awake (some memory) ∷ []) in
    ((id : ℕ) → get_angle done.servo id ≡ get_angle taught.servo id)
    × (test_kernel.kfifo.entries done.buffer.move_fifo
        ≡ test_kernel.kfifo.entries taught.buffer.move_fifo)
    × (done.state.mode ≡ idle)
replay_repeats_example =
    replay_repeats test_kernel teaching at_250 lesson (request at_250 replay) awake memory
      teaching-Inv tt awake-Still refl

-- a sleep that a signal ends
abbrev interrupted : Dev test_kernel → Bool × Dev test_kernel
interrupted d = (true, d)

-- a movement of servo 256, which is servo 0 behind the cast
abbrev move_command : Cmd
move_command = record { command = 4; servo_id = 256; angle = 120; speed = 0 }

-- the key 6, while a replay is queued
abbrev at_key : Moment test_kernel
at_key = record { now = at_250; sleep = interrupted }
