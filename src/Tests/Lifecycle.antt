-- ===== src/Tests/Lifecycle.antt =====
-- Loads of the module that succeed and that fail.
use team9osdriver.Prelude.{
  ℕ, ◌≡◌, refl, true, false, ◌==◌, pos, negsuc, none, some, [], ◌∷◌, if◌then◌else◌,
}
use team9osdriver.Types.{servo_center}
use team9osdriver.Resources.{
  Held, created, Balanced, device_mem, servo_mem, buffer_mem, state_mem, joystick_mem, chardev_mem,
  proc_mem, i2c_adapter, i2c_client, workqueue, chrdev_region, cdev, dev_class, device_node,
  proc_entry, gpio, irq,
}
use team9osdriver.Servo.Create.{ServoEnv, servo_create, servo_fresh, set_all, pca9685_init_hw}
use team9osdriver.Joystick.Create.{PinEnv, joystick_create, joystick_new}
use team9osdriver.Chardev.Create.{ChardevEnv, chardev_create}
use team9osdriver.Servo.Ready.{Ready}
use team9osdriver.Servo.{Servo, angle_to_pwm}
use team9osdriver.Buffer.Create.{buffer_new, buffer_create}
use team9osdriver.State.{state_new}
use team9osdriver.State.Create.{state_create}
use team9osdriver.Proc.Create.{proc_create}
use team9osdriver.Device.{Dev}
use team9osdriver.Device.Events.{input, expire, work, run}
use team9osdriver.Init.{InitEnv, new_device, echo_init, echo_exit}
use team9osdriver.Init.Unwinding.{echo_init-Balanced}
use team9osdriver.Init.Cycle.{load_and_unload}
use team9osdriver.Tests.Fixture.{at_250, dirty, test_kernel, list_kfifo, quiet_bus}

abbrev still : ℕ → Dev test_kernel → Dev test_kernel
still n d = d

abbrev good_pin : PinEnv
good_pin = record { request = pos 0; direction = pos 0; to_irq = pos 40; request_irq = pos 0 }

-- its interrupt is in use
abbrev busy_pin : PinEnv
busy_pin = record { request = pos 0; direction = pos 0; to_irq = pos 40; request_irq = negsuc 15 }

abbrev third_busy : ℕ → PinEnv
third_busy i = if i == 2 then busy_pin else good_pin

abbrev good_servo : ServoEnv
good_servo = record { memory = true; adapter = true; client_error = none }

abbrev good_chardev : ChardevEnv
good_chardev = record {
  memory = true;
  region = pos 0;
  add = pos 0;
  class_error = none;
  device_error = none;
}

abbrev no_node : ChardevEnv
no_node = record {
  memory = true;
  region = pos 0;
  add = pos 0;
  class_error = none;
  device_error = some (negsuc 11);
}

-- A robot with hardware; `pins` and `chardev` are answers that may fail.
abbrev robot : (ℕ → PinEnv) → ChardevEnv → InitEnv list_kfifo.Fifo
robot pins chardev = record {
  sim_mode = false;
  timeout_ms = 5000;
  memory = true;
  servo = good_servo;
  buffer = record { memory = true; workqueue_made = true };
  zeroed = [];
  state_memory = true;
  joystick_memory = true;
  pins = pins;
  chardev = chardev;
  proc = record { memory = true; entry_made = true };
}

abbrev good_robot : InitEnv list_kfifo.Fifo
good_robot = robot (λ i. good_pin) good_chardev

echo_init-Balanced_example :
    Balanced
      (echo_exit test_kernel)
      (some (i2c_adapter ∷ []))
      (echo_init test_kernel (robot third_busy good_chardev) (some (i2c_adapter ∷ [])))
echo_init-Balanced_example =
    echo_init-Balanced test_kernel (robot third_busy good_chardev) (some (i2c_adapter ∷ []))

-- what the load of the good robot gives
abbrev robot_device : Dev test_kernel
robot_device =
    new_device test_kernel good_robot
      (servo_fresh quiet_bus false
        (set_all quiet_bus (angle_to_pwm servo_center) (pca9685_init_hw quiet_bus []).1))
      (buffer_new list_kfifo []) (state_new 5000) joystick_new

abbrev robot_held : Held
robot_held = some (
    proc_entry
    ∷ proc_mem
    ∷ device_node
    ∷ dev_class
    ∷ cdev
    ∷ chrdev_region
    ∷ chardev_mem
    ∷ irq 3
    ∷ gpio 3
    ∷ irq 2
    ∷ gpio 2
    ∷ irq 1
    ∷ gpio 1
    ∷ irq 0
    ∷ gpio 0
    ∷ joystick_mem
    ∷ state_mem
    ∷ workqueue
    ∷ buffer_mem
    ∷ i2c_client
    ∷ i2c_adapter
    ∷ servo_mem
    ∷ device_mem
    ∷ [])

loaded_robot : echo_init test_kernel good_robot (some []) ≡ (created robot_device, robot_held)
unfolding echo_init servo_create buffer_create state_create joystick_create chardev_create
    proc_create pca9685_init_hw
loaded_robot = refl

load_and_unload_example :
    echo_exit test_kernel
      (run test_kernel robot_device
        (input at_250 0 (pos 5) ∷ expire ∷ work still (some dirty) ∷ []))
      robot_held
    ≡ some []
load_and_unload_example =
    load_and_unload test_kernel good_robot (some []) robot_held robot_device
      (input at_250 0 (pos 5) ∷ expire ∷ work still (some dirty) ∷ []) loaded_robot
      (tt, (tt, ((λ n d. refl), tt)))

-- the servo of the robot, and what is held behind its start
abbrev robot_servo : Servo
robot_servo =
    servo_fresh quiet_bus false
      (set_all quiet_bus (angle_to_pwm servo_center) (pca9685_init_hw quiet_bus []).1)

abbrev servo_resources : Held
servo_resources = some (i2c_client ∷ i2c_adapter ∷ servo_mem ∷ [])
