-- ===== src/Tests/Interleaved.antt =====
-- Threads of the driver in some order of their sections.
use team9osdriver.Prelude.{arith, ◌≤◌, ◌+◌, ◌*◌, ◌⊎◌, ◌≡◌, refl, pos}
use team9osdriver.Types.{idle, replay}
use team9osdriver.Chardev.{Cmd}
use team9osdriver.Threads.{
  ended, input_lock, start_lock, stop_lock, worker_rests, timer_rests, advance,
}
use team9osdriver.Threads.System.{
  System, at_start, update, Steps, stay, more, call, go, entry, entry_but_stop, none_new,
  thread_step,
}
use team9osdriver.Threads.Budget.{OnlyBelow, sections_in, orders_end}
use team9osdriver.Threads.Rest.{CanGoOn, AtRest, every_order_rests}
use team9osdriver.Threads.Modes.{ModeStep, Step-ModeStep}
use team9osdriver.Threads.Hang.{hung, stop_can_hang}
use team9osdriver.Tests.Fixture.{test_kernel, resting, at_250}

abbrev two_called : System test_kernel
two_called = record (at_start test_kernel resting) {
  threads = update (update (λ _. ended) 0 (input_lock at_250 0 (pos 5))) 1 start_lock;
}

-- a press and a request to replay have begun, and the press has done its first section
abbrev two_threads : System test_kernel
two_threads = thread_step test_kernel 0 two_called

two_reached : Steps test_kernel entry_but_stop (at_start test_kernel resting) two_threads
two_reached =
    more
      (more (more stay (call 0 (input_lock at_250 0 (pos 5)) refl refl))
        (call 1 start_lock refl refl))
      (go 0 refl)

abbrev replay_started : System test_kernel
replay_started = thread_step test_kernel 1 two_threads

started_reached : Steps test_kernel entry_but_stop (at_start test_kernel resting) replay_started
unfolding thread_step advance
started_reached = more two_reached (go 1 refl)

abbrev move_tilt : Cmd
move_tilt = record { command = 4; servo_id = 1; angle = 30; speed = 0 }

two_below : OnlyBelow test_kernel 2 two_threads
unfolding thread_step advance
two_below i h = ground (arith, h)

one_more : Steps test_kernel none_new two_threads replay_started
unfolding thread_step advance
one_more = more stay (go 1 refl)

every_order_rests_example :
    (sections_in test_kernel one_more ≤ 41250 * 2 + 8246)
    × (CanGoOn test_kernel replay_started
        ⊎ (AtRest test_kernel replay_started × (replay_started.dev.state.mode ≡ idle)))
every_order_rests_example =
    every_order_rests test_kernel resting 2 refl two_reached two_below one_more

-- a thread in a stop
abbrev stopping : System test_kernel
stopping = record (at_start test_kernel resting) { threads = update (λ _. ended) 0 stop_lock }

stopping_below : OnlyBelow test_kernel 1 stopping
stopping_below i h = ground (arith, h)

stop_goes_on : Steps test_kernel none_new stopping (thread_step test_kernel 0 stopping)
stop_goes_on = more stay (go 0 refl)

orders_end_example : sections_in test_kernel stop_goes_on ≤ 41250 * 1 + 8246
orders_end_example =
    orders_end test_kernel resting 1 (more stay (call 0 stop_lock refl refl)) stopping_below
      stop_goes_on

-- after the hang, a press has begun
abbrev hung_pressed : System test_kernel
hung_pressed = record (hung test_kernel resting) {
  threads = update ((hung test_kernel resting).threads) 0 (input_lock at_250 0 (pos 5));
}

stop_can_hang_example :
    Steps test_kernel entry (at_start test_kernel resting) (hung test_kernel resting)
    × (hung_pressed.dev.state.mode ≡ replay)
    × (hung_pressed.worker ≡ worker_rests)
    × (hung_pressed.timer ≡ timer_rests)
unfolding hung
stop_can_hang_example =
    stop_can_hang test_kernel resting hung_pressed
      (more stay (call 0 (input_lock at_250 0 (pos 5)) refl refl))

Step-ModeStep_example : ModeStep test_kernel two_threads replay_started
unfolding thread_step advance
Step-ModeStep_example = Step-ModeStep test_kernel {calls = entry_but_stop} (go 1 refl)
