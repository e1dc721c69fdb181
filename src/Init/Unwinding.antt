-- ===== src/Init/Unwinding.antt =====
-- What echo_init and echo_exit of module/echo_main.c leave behind.
use team9osdriver.Prelude.{◌≡◌, refl, ap, ◌∙◌, Bool, true, false}
use team9osdriver.Resources.{
  Held, device_mem, acquire, release-acquire, Created, created, failed, Balanced,
}
use team9osdriver.Servo.{Servo}
use team9osdriver.Servo.Create.{servo_gone, servo_create-Balanced}
use team9osdriver.Buffer.{Buffer}
use team9osdriver.Buffer.Create.{buffer_destroy, buffer_create-Balanced}
use team9osdriver.State.{State}
use team9osdriver.State.Create.{state_destroy, state_create-Balanced}
use team9osdriver.Joystick.{Joystick}
use team9osdriver.Joystick.Create.{joystick_destroy, joystick_create-Balanced}
use team9osdriver.Chardev.Create.{chardev_destroy, chardev_create-Balanced}
use team9osdriver.Proc.Create.{proc_destroy, proc_create-Balanced}
use team9osdriver.Device.{Kernel}
use team9osdriver.Init.{
  InitEnv, err_free, err_servo, err_buffer, err_state, err_joystick, err_chardev, echo_exit,
  after_proc, after_chardev, after_joystick, after_state, after_buffer, after_servo, echo_init,
}

module _ (k : Kernel) (env : InitEnv k.kfifo.Fifo) (h : Held) where
  open k use {kfifo, i2c}

  -- A step that finds the ones before it balanced is balanced, and so are all that follow it.
  after_proc-Balanced :
      (s : Servo) (b : Buffer kfifo.Fifo) (st : State) (j : Joystick) (h' : Held)
      → err_chardev k env.sim_mode s b st j h' ≡ h
      → (r : Created (Unit {0}) × Held) → Balanced proc_destroy h' r
      → Balanced (echo_exit k) h (after_proc k env s b st j r)
  unfolding after_proc echo_exit
  after_proc-Balanced s b st j h' e (failed _, _) r = ap (err_chardev k env.sim_mode s b st j) r ∙ e
  after_proc-Balanced s b st j h' e (created _, _) r =
      ap (err_chardev k env.sim_mode s b st j) r ∙ e

  after_chardev-Balanced :
      (s : Servo) (b : Buffer kfifo.Fifo) (st : State) (j : Joystick) (h' : Held)
      → err_joystick k env.sim_mode s b st j h' ≡ h
      → (r : Created (Unit {0}) × Held) → Balanced chardev_destroy h' r
      → Balanced (echo_exit k) h (after_chardev k env s b st j r)
  unfolding after_chardev
  after_chardev-Balanced s b st j h' e (failed _, _) r =
      ap (err_joystick k env.sim_mode s b st j) r ∙ e
  after_chardev-Balanced s b st j h' e (created _, g) r =
      after_proc-Balanced s b st j g (ap (err_joystick k env.sim_mode s b st j) r ∙ e) _
        (proc_create-Balanced env.proc g)

  after_joystick-Balanced :
      (s : Servo) (b : Buffer kfifo.Fifo) (st : State) (h' : Held)
      → err_state k s b st h' ≡ h
      → (r : Created Joystick × Held) → Balanced (joystick_destroy env.sim_mode) h' r
      → Balanced (echo_exit k) h (after_joystick k env s b st r)
  unfolding after_joystick
  after_joystick-Balanced s b st h' e (failed _, _) r = ap (err_state k s b st) r ∙ e
  after_joystick-Balanced s b st h' e (created j, g) r =
      after_chardev-Balanced s b st j g (ap (err_state k s b st) r ∙ e) _
        (chardev_create-Balanced env.chardev g)

  after_state-Balanced :
      (s : Servo) (b : Buffer kfifo.Fifo) (h' : Held)
      → err_buffer k s b h' ≡ h
      → (r : Created State × Held) → Balanced state_destroy h' r
      → Balanced (echo_exit k) h (after_state k env s b r)
  unfolding after_state
  after_state-Balanced s b h' e (failed _, _) r = ap (err_buffer k s b) r ∙ e
  after_state-Balanced s b h' e (created st, g) r =
      after_joystick-Balanced s b st g (ap (err_buffer k s b) r ∙ e) _
        (joystick_create-Balanced env.joystick_memory env.pins env.sim_mode g)

  after_buffer-Balanced :
      (s : Servo) (h' : Held)
      → err_servo k s h' ≡ h
      → (r : Created (Buffer kfifo.Fifo) × Held) → Balanced (buffer_destroy kfifo) h' r
      → Balanced (echo_exit k) h (after_buffer k env s r)
  unfolding after_buffer
  after_buffer-Balanced s h' e (failed _, _) r = ap (err_servo k s) r ∙ e
  after_buffer-Balanced s h' e (created b, g) r =
      after_state-Balanced s b g (ap (err_servo k s) r ∙ e) _
        (state_create-Balanced env.state_memory env.timeout_ms g)

  after_servo-Balanced :
      (r : Created Servo × Held)
      → Balanced (servo_gone i2c) (acquire device_mem h) r
      → Balanced (echo_exit k) h (after_servo k env r)
  unfolding after_servo
  after_servo-Balanced (failed _, _) r = ap (err_free k) r ∙ release-acquire device_mem h
  after_servo-Balanced (created s, g) r =
      after_buffer-Balanced s g (ap (err_free k) r ∙ release-acquire device_mem h) _
        (buffer_create-Balanced kfifo env.buffer env.zeroed g)

  init_cases : (m : Bool) → env.memory ≡ m → Balanced (echo_exit k) h (echo_init k env h)
  unfolding echo_init
  init_cases false e = rw e refl
  init_cases true e = rw e (
      after_servo-Balanced _
        (servo_create-Balanced i2c env.servo env.sim_mode (acquire device_mem h)))

  -- Whatever the kernel and the bus answer, and whichever step fails, a load of the module that fails
  -- has given back all that it took, each once; and unloading a module straight after a load that
  -- succeeds gives back all that the load took.
  pub echo_init-Balanced : Balanced (echo_exit k) h (echo_init k env h)
  echo_init-Balanced = init_cases env.memory refl
