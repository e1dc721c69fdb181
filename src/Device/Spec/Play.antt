-- ===== src/Device/Spec/Play.antt =====
-- A run of the replay work, for the device and for the robot.
use team9osdriver.Prelude.{
  ℕ, ◌+◌, ◌≡◌, sym, subst, refl, ap, ◌∙◌, arith, false, some, List, [], ◌∷◌, length, if◌then◌else◌,
}
use team9osdriver.Types.{idle, Move, fifo_size, u32}
use team9osdriver.Servo.{set_angle}
use team9osdriver.Servo.Angles.{IsValid, set_angle-IsValid}
use team9osdriver.State.{get_mode, replay_complete}
use team9osdriver.Buffer.{Buffer, replay_delay, play_move}
use team9osdriver.Buffer.Replay.{perform, replay_worker-eq-perform}
use team9osdriver.Device.{
  Kernel, Dev, run_work, is_replay, buffer_ptr, buf_ops, op_move_servo, notify_readers,
  signal_replay_done, buf_op_should_stop, buf_op_replay_done,
}
use team9osdriver.Device.Spec.{perform_all, play_all}
use team9osdriver.Device.Spec.Abstraction.{arms_of, arms_of-set_angle, is_some, robot_of, Still}

module _ (k : Kernel) where
  module _ (msleep : ℕ → Dev k → Dev k) (still : Still k msleep) where
    abbrev go : List Move → Dev k → Dev k
    go = perform k.kfifo buffer_ptr (buf_ops k) msleep

    played :
        (m : Move) (d : Dev k)
        → IsValid d.servo
        → let d' = play_move k.kfifo buffer_ptr (buf_ops k) msleep m d in
          (d'.state ≡ d.state)
          × (d'.buffer ≡ d.buffer)
          × (d'.servo ≡ (set_angle k.i2c d.servo m.servo_id m.angle).1)
    unfolding play_move op_move_servo notify_readers
    played m d v =
        let (servo, state, buffer) = still (replay_delay d.buffer.replay_speed m.delay_ms) d in
        (state, buffer, ap (λ s. (set_angle k.i2c s m.servo_id m.angle).1) servo)

    perform-Refines :
        (ms : List Move) (d : Dev k)
        → IsValid d.servo
        → let d' = go ms d in
          (d'.state ≡ d.state)
          × (d'.buffer ≡ d.buffer)
          × (arms_of d'.servo ≡ (
              if is_replay d.state.mode then perform_all ms (arms_of d.servo) else arms_of d.servo))
    unfolding perform perform_all buf_op_should_stop get_mode
    perform-Refines [] d v = (refl, refl, ground arith)
    perform-Refines (m ∷ ms) d v =
        let w = play_move k.kfifo buffer_ptr (buf_ops k) msleep m d in
        let (state, buffer, servo) = played m d v in
        let valid =
          subst IsValid (sym servo) (set_angle-IsValid k.i2c d.servo m.servo_id m.angle v) in
        let aimed = ap arms_of servo ∙ arms_of-set_angle k d.servo m.servo_id m.angle v in
        ground (arith, state, buffer, aimed, perform-Refines ms w valid)

    pub work-Refines :
        (moves : List Move) (d : Dev k)
        → length moves ≡ fifo_size
        → IsValid d.servo
        → robot_of k (run_work k msleep (some moves) d) ≡ play_all (robot_of k d)
    unfolding robot_of run_work buf_op_replay_done signal_replay_done notify_readers replay_complete
    work-Refines moves d size v =
        let q = k.kfifo in
        let ready : Dev k = record d { buffer = record (d.buffer) { work_pending = false } } in
        let worked = replay_worker-eq-perform q buffer_ptr (buf_ops k) msleep moves ready size in
        let counted : Dev k = record ready {
          buffer = record (ready.buffer) {
            move_fifo = worked.0;
            replay_count = u32 (ready.buffer.replay_count + 1);
          };
        } in
        let (state, buffer, arms) = perform-Refines (q.entries d.buffer.move_fifo) counted v in
        rw worked.2 (λ i. record {
          mode = idle;
          arms = arms i;
          recording = (ap (λ (b : Buffer q.Fifo). q.entries b.move_fifo) buffer ∙ worked.1) i;
          last_move = (state i).last_move_time;
          armed = is_some k (state i).inactivity_timer;
          queued = (buffer i).work_pending;
          moves = (state i).total_moves;
          replays = (buffer i).replay_count;
        })
