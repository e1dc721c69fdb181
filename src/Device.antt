-- ===== src/Device.antt =====
-- module/echo_main.c: the device that joins the parts, and the callbacks through which they reach
-- one another.
pub mod Events
pub mod Modes
pub mod Invariant
pub mod Playback
pub mod Input
pub mod Races
pub mod Spec
use team9osdriver.Prelude.{ℕ, Bool, true, false, not, Option, List, ℤ}
use team9osdriver.Types.{Mode, replay, Move}
use team9osdriver.Kernel.{Kfifo, Clock, Ptr}
use team9osdriver.Servo
use team9osdriver.Servo.{I2c, Servo}
use team9osdriver.Buffer.{
  Buffer, BufferOps, buffer_record, buffer_clear, buffer_start_replay, buffer_cancel_replay,
  replay_worker,
}
use team9osdriver.State.{State, StateOps, get_mode, replay_complete, handle_input}
use team9osdriver.Joystick.{Joystick, JoystickOps}

-- The parts of the kernel that the device is built on.
pub record Kernel : Type 1 where
  pub kfifo : Kfifo
  pub clock : Clock
  pub i2c : I2c

-- `struct echo_device`, with the contexts that its pointers lead to
pub record Device (F : Type 0) : Type 0 where
  pub servo : Servo
  pub buffer : Buffer F
  pub state : State
  pub joystick : Joystick
  pub open_count : ℤ
  pub new_data_avail : Bool
  pub replay_finished : Bool
  pub sim_mode : Bool
  pub timeout_ms : ℕ

-- The times that an operation reads: of its start and of its move, and the jiffies.
pub record Now : Type 0 where
  pub start : ℕ
  pub moved : ℕ
  pub jiffies : ℕ

abbrev pub buffer_ptr : {F : Type 0} → Ptr (Device F) (Buffer F)
buffer_ptr = record { load = λ d. d.buffer; store = λ b d. record d { buffer = b } }

abbrev pub state_ptr : {F : Type 0} → Ptr (Device F) State
state_ptr = record { load = λ d. d.state; store = λ s d. record d { state = s } }

abbrev pub joystick_ptr : {F : Type 0} → Ptr (Device F) Joystick
joystick_ptr = record { load = λ d. d.joystick; store = λ j d. record d { joystick = j } }

unfoldable pub notify_readers : {F : Type 0} → Device F → Device F
notify_readers d = record d { new_data_avail = true }

unfoldable pub signal_replay_done : {F : Type 0} → Device F → Device F
unfolding notify_readers
signal_replay_done d = notify_readers (record d { replay_finished = true })

-- `== ECHO_MODE_REPLAY`
abbrev pub is_replay : Mode → Bool
is_replay replay = true
is_replay _ = false

module _ (k : Kernel) where
  open k use {kfifo, clock, i2c}

  abbrev pub Dev : Type 0
  Dev = Device kfifo.Fifo

  unfoldable pub op_move_servo : ℕ → ℕ → Dev → ℤ × Dev
  op_move_servo servo_id angle d =
      let (ret, s) = Servo.set_angle i2c d.servo servo_id angle in (ret, record d { servo = s })

  unfoldable pub state_op_get_servo : ℕ → Dev → ℕ
  state_op_get_servo servo_id d = Servo.get_angle d.servo servo_id

  unfoldable pub state_op_record_move : Move → Dev → Dev
  state_op_record_move m d = record d { buffer = buffer_record kfifo d.buffer m }

  unfoldable pub state_op_clear_buffer : Dev → Dev
  state_op_clear_buffer d = record d { buffer = buffer_clear kfifo d.buffer }

  unfoldable pub state_op_start_replay : Dev → Dev
  state_op_start_replay d = record d { buffer = buffer_start_replay kfifo d.buffer }

  unfoldable pub state_op_cancel_replay : Dev → Dev
  state_op_cancel_replay d =
      signal_replay_done (record d { buffer = buffer_cancel_replay kfifo d.buffer })

  abbrev pub state_ops : StateOps Dev
  state_ops = record {
    move_servo = op_move_servo;
    get_servo = state_op_get_servo;
    record_move = state_op_record_move;
    clear_buffer = state_op_clear_buffer;
    start_replay = state_op_start_replay;
    cancel_replay = state_op_cancel_replay;
    notify = notify_readers;
  }

  unfoldable pub buf_op_should_stop : Dev → Bool
  buf_op_should_stop d = not (is_replay (get_mode clock state_ptr state_ops d))

  unfoldable pub buf_op_replay_done : Dev → Dev
  buf_op_replay_done d = signal_replay_done (replay_complete clock state_ptr state_ops d)

  abbrev pub buf_ops : BufferOps Dev
  buf_ops = record {
    move_servo = op_move_servo;
    should_stop = buf_op_should_stop;
    replay_done = buf_op_replay_done;
    notify = notify_readers;
  }

  abbrev joy_ops : Now → JoystickOps Dev
  joy_ops now = record {
    on_direction = λ id delta d.
        handle_input clock state_ptr state_ops now.start now.moved now.jiffies id delta d;
  }

  -- A run of the work that `echo_buffer_start_replay` queued: the kernel takes the work off the queue
  -- and calls `replay_worker`.
  unfoldable pub run_work : (ℕ → Dev → Dev) → Option (List Move) → Dev → Dev
  run_work msleep moves d =
      replay_worker kfifo buffer_ptr buf_ops msleep moves
        (record d { buffer = record (d.buffer) { work_pending = false } })
