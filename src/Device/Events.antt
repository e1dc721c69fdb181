-- ===== src/Device/Events.antt =====
-- What happens to the device, one whole operation at a time: a call of echo_state_handle_input (what
-- of the joystick reaches it is in Joystick/Lock), the inactivity timer, the requests of user space
-- (module/echo_chardev.c makes them) and a run of the replay work.
use team9osdriver.Prelude.{ℕ, true, false, none, some, Option, List, [], ◌∷◌, ℤ}
use team9osdriver.Types.{Mode, Move}
use team9osdriver.State.{
  enter_teach, do_move, set_teach, state_start_replay, state_stop, stop_mode, stop_rest,
  replay_complete, handle_input, inactivity_timer_fn, delete_timer, set_mode,
}
use team9osdriver.Buffer.{
  replay_worker, buffer_record, buffer_clear, buffer_start_replay, buffer_cancel_replay,
}
use team9osdriver.Device.{
  signal_replay_done, state_op_record_move, state_op_get_servo, state_op_clear_buffer,
  state_op_start_replay, state_op_cancel_replay, buf_op_replay_done, Kernel, Dev, Now,
  op_move_servo, notify_readers, run_work, state_ptr, state_ops,
}

module _ (k : Kernel) where
  pub data Event : Type 0 where
    input : Now → ℕ → ℤ → Event
    expire : Event
    request : Now → Mode → Event
    move : ℕ → ℕ → Event
    work : (ℕ → Dev k → Dev k) → Option (List Move) → Event

  -- A timer expires only while it is armed, and a work runs only while it is queued.
  unfoldable pub step : Dev k → Event → Dev k
  unfolding buffer_clear buffer_start_replay buffer_cancel_replay handle_input enter_teach do_move
      inactivity_timer_fn set_mode set_teach state_start_replay state_stop stop_mode stop_rest
      replay_complete replay_worker state_op_get_servo op_move_servo notify_readers
      signal_replay_done state_op_record_move state_op_clear_buffer state_op_start_replay
      state_op_cancel_replay buf_op_replay_done run_work buffer_record
  step d (input now id delta) =
      handle_input k.clock state_ptr (state_ops k) now.start now.moved now.jiffies id delta d
  step d expire = elim (d.state.inactivity_timer) [
    | none ↦ d
    | some t ↦
        inactivity_timer_fn k.clock state_ptr (state_ops k)
          (delete_timer k.clock state_ptr (state_ops k) d)
  ]
  step d (request now m) = (set_mode k.clock state_ptr (state_ops k) now.start now.jiffies m d).1
  step d (move id angle) = notify_readers (op_move_servo k id angle d).1
  step d (work msleep moves) = elim (d.buffer.work_pending) [
    | true ↦ run_work k msleep moves d
    | false ↦ d
  ]

  unfoldable pub run : Dev k → List Event → Dev k
  run d [] = d
  run d (e ∷ es) = run (step d e) es
