-- ===== src/Tests/Stages.antt =====
-- The threads of the driver beside the robot with calls under way, at concrete runs.
use team9osdriver.Prelude.{arith, ◌≡◌, ◌<◌, ◌^◌, refl, false, none, some, pos}
use team9osdriver.Types.{teach}
use team9osdriver.Servo.Angles.{IsValid}
use team9osdriver.Threads.{
  ended, input_lock, direct_move, timer_rests, worker_rests, advance, worker_advance,
}
use team9osdriver.Device.{buf_op_should_stop}
use team9osdriver.State.{get_mode}
use team9osdriver.Threads.System.{
  System, at_start, update, Steps, stay, more, call, go, begin, work, entry, thread_step,
  worker_step, worker_begins,
}
use team9osdriver.Threads.Spec.{Acts}
use team9osdriver.Threads.Spec.Copies.{player_of}
use team9osdriver.Threads.Spec.Refinement.{stage_of, Steps-Refines}
use team9osdriver.Threads.Spec.Story.{to_play}
use team9osdriver.Threads.Spec.Sound.{ArePlayable}
use team9osdriver.Threads.Spec.Playable.{known_entry, recording_is_playable}
use team9osdriver.Threads.Stall.{stalled, teach_can_stall}
use team9osdriver.Tests.Fixture.{test_kernel, resting, replaying, at_250, dirty}

-- The worker has begun and has sent the first of the two movements.
abbrev half_played : System test_kernel
half_played =
    let s0 = worker_begins test_kernel (some dirty) (at_start test_kernel replaying) in
    let s1 = worker_step test_kernel (worker_step test_kernel s0) in
    worker_step test_kernel (worker_step test_kernel (worker_step test_kernel s1))

half_reached : Steps test_kernel entry (at_start test_kernel replaying) half_played
unfolding worker_begins worker_step worker_advance buf_op_should_stop get_mode
half_reached =
    let r0 = more stay (begin (some dirty) refl refl refl) in
    let r1 = more (more r0 (work refl)) (work refl) in
    more (more (more r1 (work refl)) (work refl)) (work refl)

abbrev replaying-IsValid : IsValid replaying.servo
replaying-IsValid = record { size = refl; in_range = omega arith }

Steps-Refines_example :
    Acts test_kernel.clock entry
      (stage_of test_kernel (at_start test_kernel replaying))
      (stage_of test_kernel half_played)
Steps-Refines_example =
    Steps-Refines test_kernel half_reached (record { servos = replaying-IsValid; memory = tt })

-- A press has moved a servo of a resting robot and recorded that.
abbrev pressed : System test_kernel
pressed =
    let s0 = record (at_start test_kernel resting) {
      threads = update (λ _. ended) 0 (input_lock at_250 0 (pos 5));
    } in
    let s1 = thread_step test_kernel 0 (thread_step test_kernel 0 s0) in
    thread_step test_kernel 0 (thread_step test_kernel 0 (thread_step test_kernel 0 s1))

pressed_reached : Steps test_kernel known_entry (at_start test_kernel resting) pressed
unfolding thread_step advance
pressed_reached =
    let r0 = more stay (call 0 (input_lock at_250 0 (pos 5)) refl refl) in
    let r1 = more (more r0 (go 0 refl)) (go 0 refl) in
    more (more (more r1 (go 0 refl)) (go 0 refl)) (go 0 refl)

recording_is_playable_example :
    ArePlayable (test_kernel.kfifo.entries pressed.dev.buffer.move_fifo)
    × ArePlayable (to_play (player_of pressed.worker))
    × (pressed.dev.state.total_moves < 2 ^ 32)
    × (pressed.dev.buffer.replay_count < 2 ^ 32)
recording_is_playable_example =
    recording_is_playable test_kernel resting pressed_reached
      (record { size = refl; in_range = omega arith })
      ((omega arith, omega arith, omega arith), ((omega arith, omega arith, omega arith), tt))
      (omega arith) (omega arith)

-- behind the stall, a thread asks for a move
abbrev stalled_moved : System test_kernel
stalled_moved = record (stalled test_kernel resting at_250) {
  threads = update ((stalled test_kernel resting at_250).threads) 0 (direct_move 1 30);
}

teach_can_stall_example :
    Steps test_kernel entry (at_start test_kernel resting) (stalled test_kernel resting at_250)
    × (stalled_moved.dev.state.mode ≡ teach)
    × (stalled_moved.dev.state.inactivity_timer ≡ none)
    × (stalled_moved.dev.buffer.work_pending ≡ false)
    × (stalled_moved.worker ≡ worker_rests)
    × (stalled_moved.timer ≡ timer_rests)
unfolding stalled
teach_can_stall_example =
    teach_can_stall test_kernel resting at_250 stalled_moved
      (more stay (call 0 (direct_move 1 30) refl refl))
