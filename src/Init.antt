-- ===== src/Init.antt =====
-- `echo_init` and `echo_exit` of module/echo_main.c.
pub mod Unwinding
pub mod Fresh
pub mod Cycle
pub mod Unload
use team9osdriver.Prelude.{ℕ, Bool, true, false, not, ℤ, pos, err, if◌then◌else◌}
use team9osdriver.Types.{enomem, enodev}
use team9osdriver.Kernel.{Kfifo}
use team9osdriver.Resources.{Held, device_mem, acquire, release, Created, created, failed}
use team9osdriver.Servo.{Servo}
use team9osdriver.Servo.Create.{ServoEnv, servo_create, servo_gone}
use team9osdriver.Buffer.{Buffer}
use team9osdriver.Buffer.Create.{BufferEnv, buffer_create, buffer_destroy}
use team9osdriver.State.{State}
use team9osdriver.State.Create.{state_create, state_destroy}
use team9osdriver.Joystick.{Joystick}
use team9osdriver.Joystick.Create.{PinEnv, joystick_create, joystick_destroy}
use team9osdriver.Chardev.Create.{ChardevEnv, chardev_create, chardev_destroy}
use team9osdriver.Proc.Create.{ProcEnv, proc_create, proc_destroy}
use team9osdriver.Device.{Kernel, Device, Dev}

-- The module parameters, and what the kernel answers while the module is loaded.
pub record InitEnv (F : Type 0) : Type 0 where
  pub sim_mode : Bool
  pub timeout_ms : ℕ
  pub memory : Bool
  pub servo : ServoEnv
  pub buffer : BufferEnv
  pub zeroed : F
  pub state_memory : Bool
  pub joystick_memory : Bool
  pub pins : ℕ → PinEnv
  pub chardev : ChardevEnv
  pub proc : ProcEnv

module _ (k : Kernel) where
  open k use {kfifo, i2c}

  -- The labels behind which echo_init undoes what it did: each falls through to the one below.
  abbrev pub err_free : Held → Held
  err_free h = release device_mem h

  abbrev pub err_servo : Servo → Held → Held
  err_servo s h = err_free (servo_gone i2c s h)

  abbrev pub err_buffer : Servo → Buffer kfifo.Fifo → Held → Held
  err_buffer s b h = err_servo s (buffer_destroy kfifo b h)

  abbrev pub err_state : Servo → Buffer kfifo.Fifo → State → Held → Held
  err_state s b st h = err_buffer s b (state_destroy st h)

  abbrev pub err_joystick : Bool → Servo → Buffer kfifo.Fifo → State → Joystick → Held → Held
  err_joystick sim_mode s b st j h = err_state s b st (joystick_destroy sim_mode j h)

  abbrev pub err_chardev : Bool → Servo → Buffer kfifo.Fifo → State → Joystick → Held → Held
  err_chardev sim_mode s b st j h = err_joystick sim_mode s b st j (chardev_destroy tt h)

  unfoldable pub echo_exit : Dev k → Held → Held
  echo_exit d h = err_chardev d.sim_mode d.servo d.buffer d.state d.joystick (proc_destroy tt h)

  module _ (env : InitEnv kfifo.Fifo) where
    unfoldable pub new_device : Servo → Buffer kfifo.Fifo → State → Joystick → Dev k
    new_device s b st j = record {
      servo = s;
      buffer = b;
      state = st;
      joystick = j;
      open_count = pos 0;
      new_data_avail = false;
      replay_finished = false;
      sim_mode = env.sim_mode;
      timeout_ms = env.timeout_ms;
    }

    -- What echo_init does with the result of each create function, the last one first.
    unfoldable pub after_proc :
        Servo
        → Buffer kfifo.Fifo
        → State
        → Joystick
        → Created (Unit {0}) × Held
        → Created (Dev k) × Held
    unfolding new_device
    after_proc s b st j (failed e, h) = (failed (err enodev), err_chardev env.sim_mode s b st j h)
    after_proc s b st j (created p, h) = (created (new_device s b st j), h)

    unfoldable pub after_chardev :
        Servo
        → Buffer kfifo.Fifo
        → State
        → Joystick
        → Created (Unit {0}) × Held
        → Created (Dev k) × Held
    unfolding after_proc
    after_chardev s b st j (failed e, h) =
        (failed (err enodev), err_joystick env.sim_mode s b st j h)
    after_chardev s b st j (created c, h) = after_proc s b st j (proc_create env.proc h)

    unfoldable pub after_joystick :
        Servo → Buffer kfifo.Fifo → State → Created Joystick × Held → Created (Dev k) × Held
    unfolding after_chardev
    after_joystick s b st (failed e, h) = (failed (err enodev), err_state s b st h)
    after_joystick s b st (created j, h) = after_chardev s b st j (chardev_create env.chardev h)

    unfoldable pub after_state :
        Servo → Buffer kfifo.Fifo → Created State × Held → Created (Dev k) × Held
    unfolding after_joystick
    after_state s b (failed e, h) = (failed (err enodev), err_buffer s b h)
    after_state s b (created st, h) =
        after_joystick s b st (joystick_create env.joystick_memory env.pins env.sim_mode h)

    unfoldable pub after_buffer :
        Servo → Created (Buffer kfifo.Fifo) × Held → Created (Dev k) × Held
    unfolding after_state
    after_buffer s (failed e, h) = (failed (err enodev), err_servo s h)
    after_buffer s (created b, h) = after_state s b (state_create env.state_memory env.timeout_ms h)

    unfoldable pub after_servo : Created Servo × Held → Created (Dev k) × Held
    unfolding after_buffer
    after_servo (failed e, h) = (failed (err enodev), err_free h)
    after_servo (created s, h) = after_buffer s (buffer_create kfifo env.buffer env.zeroed h)

    unfoldable pub echo_init : Held → Created (Dev k) × Held
    unfolding after_servo
    echo_init h =
        if not env.memory
        then (failed (err enomem), h)
        else after_servo (servo_create i2c env.servo env.sim_mode (acquire device_mem h))
