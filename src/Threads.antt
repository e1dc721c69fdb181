-- ===== src/Threads.antt =====
-- The threads of the driver at the grain of its locked sections: module/echo_state.c, the replay
-- worker of module/echo_buffer.c and the callbacks of module/echo_main.c. A thread does one section
-- at a time, and the sections of different threads come in any order.
pub mod System
pub mod Alone
pub mod Worker
pub mod Safety
pub mod Progress
pub mod Calls
pub mod Replay
pub mod Stuck
pub mod Hang
pub mod Stall
pub mod Undone
pub mod Teaching
pub mod Counting
pub mod Budget
pub mod Rest
pub mod Waiting
pub mod News
pub mod Modes
pub mod Spec
use team9osdriver.Prelude.{
  ℕ, zero, suc, ◌+◌, Bool, true, false, Option, none, some, List, ℤ, ltb, u32_of, if◌then◌else◌,
  get_or, is_zero,
}
use team9osdriver.Types.{
  servo_pan, servo_tilt, servo_tilt2, servo_center, Mode, idle, teach, replay, Move, u32, fifo_size,
}
use team9osdriver.Kernel.{ulong}
use team9osdriver.State.{
  clamp_angle, enter_teach, set_mode_to, delete_timer, arm_timer, replay_complete,
}
use team9osdriver.Buffer.{
  buffer_clear, no_move, replay_delay, drain, restore, buffer_clear, buffer_cancel_replay,
}
use team9osdriver.Device.{
  Kernel, Dev, Now, state_ptr, state_ops, state_op_get_servo, state_op_record_move,
  state_op_clear_buffer, state_op_start_replay, op_move_servo, notify_readers, signal_replay_done,
  buf_op_should_stop, is_replay,
}

-- Where a thread stands in a call, with the local variables that are live there. The first word
-- names the function: handle_input, start_replay, stop, set_mode for TEACH, a move of a servo that
-- user space asked for, or RESET, which begins with a stop.
pub data Pc : Type 0 where
  ended : Pc  -- in no call
  input_lock : Now → ℕ → ℤ → Pc
  input_get : Now → ℕ → ℤ → Pc
  input_move : Now → ℕ → ℕ → Pc
  input_time : Now → ℕ → ℕ → Pc
  input_record : Now → Move → Pc
  input_count : Now → Pc
  input_timer : Now → Pc
  start_lock start_timer start_queue : Pc
  stop_lock stop_timer stop_cancel stop_signal : Pc
  teach_lock : Now → Pc
  teach_time : Now → Pc
  teach_clear : Now → Pc
  teach_count : Now → Pc
  teach_timer : Now → Pc
  direct_move : ℕ → ℕ → Pc
  reset_lock reset_timer reset_cancel reset_signal reset_notify : Pc
  reset_clear reset_pan reset_tilt reset_tilt2 : Pc
  notifying : Pc  -- before the last statement of each of them

-- the function of the inactivity timer
pub data TimerPc : Type 0 where
  timer_rests timer_locks timer_queues timer_notifies : TimerPc

-- The replay worker, with the rounds left, the index and the copied movements.
pub data WorkerPc : Type 0 where
  worker_rests : WorkerPc
  worker_starts : Option (List Move) → WorkerPc
  worker_counts : ℕ → List Move → WorkerPc
  worker_tests : ℕ → ℕ → List Move → WorkerPc
  worker_sleeps : ℕ → ℕ → List Move → WorkerPc
  worker_moves : ℕ → ℕ → List Move → WorkerPc
  worker_notifies : ℕ → ℕ → List Move → WorkerPc
  worker_completes worker_signals : WorkerPc

module _ (k : Kernel) where
  open k use {kfifo, clock, i2c}

  -- `last_move_time` is read and set under `time_lock`.
  unfoldable take_time : Now → ℕ → ℕ → Dev k → Pc × Dev k
  take_time now id angle d =
      let delay = u32_of (clock.ktime_ms_delta now.moved d.state.last_move_time) in
      (
        input_record now (record { servo_id = id; angle = angle; delay_ms = delay }),
        record d { state = record (d.state) { last_move_time = now.moved } },
      )

  unfoldable count_move : Dev k → Dev k
  count_move d = record d {
    state = record (d.state) { total_moves = u32 (d.state.total_moves + 1) };
  }

  -- the next section of a call, and where it leaves the thread
  unfoldable pub advance : Pc → Dev k → Pc × Dev k
  unfolding take_time count_move
  advance ended d = (ended, d)
  advance (input_lock now id delta) d =
      if is_replay d.state.mode
      then (ended, d)
      else (input_get now id delta, enter_teach clock state_ptr (state_ops k) now.start d)
  advance (input_get now id delta) d =
      (input_move now id (clamp_angle (state_op_get_servo k id d) delta), d)
  advance (input_move now id angle) d = (input_time now id angle, (op_move_servo k id angle d).1)
  advance (input_time now id angle) d = take_time now id angle d
  advance (input_record now m) d = (input_count now, state_op_record_move k m d)
  advance (input_count now) d = (input_timer now, count_move d)
  advance (input_timer now) d = (notifying, arm_timer clock state_ptr (state_ops k) now.jiffies d)
  advance start_lock d =
      if is_replay d.state.mode
      then (ended, d)
      else (start_timer, set_mode_to clock state_ptr (state_ops k) replay d)
  advance start_timer d = (start_queue, delete_timer clock state_ptr (state_ops k) d)
  advance start_queue d = (notifying, state_op_start_replay k d)
  advance stop_lock d = (stop_timer, set_mode_to clock state_ptr (state_ops k) idle d)
  advance stop_timer d = (stop_cancel, delete_timer clock state_ptr (state_ops k) d)
  advance stop_cancel d = (stop_signal, record d { buffer = buffer_cancel_replay kfifo d.buffer })
  advance stop_signal d = (notifying, signal_replay_done d)
  advance (teach_lock now) d = (teach_time now, set_mode_to clock state_ptr (state_ops k) teach d)
  advance (teach_time now) d =
      (teach_clear now, record d { state = record (d.state) { last_move_time = now.start } })
  advance (teach_clear now) d = (teach_count now, state_op_clear_buffer k d)
  advance (teach_count now) d =
      (teach_timer now, record d { state = record (d.state) { total_moves = 0 } })
  advance (teach_timer now) d = (notifying, arm_timer clock state_ptr (state_ops k) now.jiffies d)
  advance (direct_move id angle) d =
      let (ret, d') = op_move_servo k id angle d in (if is_zero ret then notifying else ended, d')
  advance reset_lock d = (reset_timer, set_mode_to clock state_ptr (state_ops k) idle d)
  advance reset_timer d = (reset_cancel, delete_timer clock state_ptr (state_ops k) d)
  advance reset_cancel d = (reset_signal, record d { buffer = buffer_cancel_replay kfifo d.buffer })
  advance reset_signal d = (reset_notify, signal_replay_done d)
  advance reset_notify d = (reset_clear, notify_readers d)
  advance reset_clear d = (reset_pan, record d { buffer = buffer_clear kfifo d.buffer })
  advance reset_pan d = (reset_tilt, (op_move_servo k servo_pan servo_center d).1)
  advance reset_tilt d = (reset_tilt2, (op_move_servo k servo_tilt servo_center d).1)
  advance reset_tilt2 d = (notifying, (op_move_servo k servo_tilt2 servo_center d).1)
  advance notifying d = (ended, notify_readers d)

  unfoldable pub timer_advance : TimerPc → Dev k → TimerPc × Dev k
  timer_advance timer_rests d = (timer_rests, d)
  timer_advance timer_locks d = elim (d.state.mode) [
    | teach ↦ (timer_queues, set_mode_to clock state_ptr (state_ops k) replay d)
    | _ ↦ (timer_rests, d)
  ]
  timer_advance timer_queues d = (timer_notifies, state_op_start_replay k d)
  timer_advance timer_notifies d = (timer_rests, notify_readers d)

  -- The whole section under `fifo_lock`: the copy, and the movements put back.
  unfoldable pub worker_copy : List Move → Dev k → WorkerPc × Dev k
  unfolding drain restore
  worker_copy moves d =
      let len = kfifo.kfifo_len d.buffer.move_fifo in
      let count = if ltb fifo_size len then fifo_size else len in
      let (f, taken) = drain kfifo count 0 d.buffer.move_fifo moves in
      (
        worker_counts count taken,
        record d { buffer = record (d.buffer) { move_fifo = restore kfifo count 0 f taken } },
      )

  unfoldable pub worker_advance : WorkerPc → Dev k → WorkerPc × Dev k
  unfolding worker_copy
  worker_advance worker_rests d = (worker_rests, d)
  worker_advance (worker_starts none) d = (worker_completes, d)
  worker_advance (worker_starts (some moves)) d = worker_copy moves d
  worker_advance (worker_counts n moves) d = (
    worker_tests n 0 moves,
    record d { buffer = record (d.buffer) { replay_count = u32 (d.buffer.replay_count + 1) } },
  )
  worker_advance (worker_tests zero i moves) d = (worker_completes, d)
  worker_advance (worker_tests (suc n) i moves) d =
      if buf_op_should_stop k d then (worker_completes, d) else (worker_sleeps n i moves, d)
  worker_advance (worker_sleeps n i moves) d = (worker_moves n i moves, d)
  worker_advance (worker_moves n i moves) d =
      let m = get_or moves i no_move in
      (worker_notifies n i moves, (op_move_servo k m.servo_id m.angle d).1)
  worker_advance (worker_notifies n i moves) d = (worker_tests n (suc i) moves, notify_readers d)
  worker_advance worker_completes d =
      (worker_signals, replay_complete clock state_ptr (state_ops k) d)
  worker_advance worker_signals d = (worker_rests, signal_replay_done d)
