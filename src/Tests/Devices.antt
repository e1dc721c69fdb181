-- ===== src/Tests/Devices.antt =====
-- The device of module/echo_main.c at concrete inputs.
use team9osdriver.Prelude.{List, ◌≤◌, ◌⊎◌, inr, ℕ, ◌≡◌, refl, true, some, [], ◌∷◌, arith}
use team9osdriver.Types.{idle, teach}
use team9osdriver.Joystick.{joystick_thread_fn}
use team9osdriver.Joystick.Lock.{presses, late_presses, locked, no_press_arrives}
use team9osdriver.Device.{Dev}
use team9osdriver.Device.Events.{Event, step, expire, work}
use team9osdriver.Device.Invariant.{Inv, step-Inv}
use team9osdriver.Threads.{ended, teach_lock, worker_completes, advance}
use team9osdriver.Threads.System.{
  System, at_start, update, stay, more, work, thread_step, worker_step,
}
use team9osdriver.Threads.Progress.{alive}
use team9osdriver.Threads.Undone.{teach_is_undone}
use team9osdriver.Tests.Fixture.{test_kernel, teaching, replaying, at_250, dirty}

abbrev still : ℕ → Dev test_kernel → Dev test_kernel
still n d = d

replay_after_silence : Event test_kernel
replay_after_silence = work still (some dirty)

teaching-Inv : Inv test_kernel teaching
teaching-Inv = record { servos = omega arith; armed = λ p. λ q. cc; queued = λ p. cc }

step-Inv_example : Inv test_kernel (step test_kernel teaching expire)
step-Inv_example = step-Inv test_kernel teaching expire tt teaching-Inv

-- an interrupt within the debounce time of its pin, and one behind it
abbrev two_presses : List (ℕ × ℕ)
two_presses = (10, 2) ∷ (1000, 2) ∷ []

abbrev locked_device : Dev test_kernel
locked_device = record teaching { joystick = record (teaching.joystick) { irq_locked = true } }

two_pressed : presses test_kernel.clock two_presses teaching ≡ some locked_device
unfolding presses joystick_thread_fn
two_pressed = refl

no_press_arrives_example :
    (locked_device ≡ locked test_kernel.clock true teaching)
    × (late_presses test_kernel.clock (0 ∷ 0 ∷ 0 ∷ 0 ∷ []) two_presses ≤ 1)
no_press_arrives_example =
    no_press_arrives test_kernel.clock two_presses teaching locked_device two_pressed

-- A replay runs, and thread 3 is about to ask for TEACH.
abbrev asked : System test_kernel
asked = record (at_start test_kernel replaying) {
  threads = update (λ _. ended) 3 (teach_lock at_250);
  worker = worker_completes;
}

teach_is_undone_example :
    ((thread_step test_kernel 3 asked).dev.state.mode ≡ teach)
    × (((worker_step test_kernel (thread_step test_kernel 3 asked)).dev.buffer.work_pending ≡ true)
        ⊎ ((alive (worker_step test_kernel (thread_step test_kernel 3 asked)).worker ≡ true)
            ⊎ ((worker_step test_kernel (thread_step test_kernel 3 asked)).dev.state.mode ≡ idle)))
unfolding thread_step advance
teach_is_undone_example =
    teach_is_undone test_kernel asked _ 3 at_250 (inr refl) refl (λ j n. ground (arith, n))
      (more stay (work refl))
