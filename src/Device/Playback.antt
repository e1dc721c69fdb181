-- ===== src/Device/Playback.antt =====
-- A replay that nothing disturbs: where it leaves the servos and the rest of the device.
use team9osdriver.Prelude.{
  ℕ, ◌+◌, ◌≡◌, refl, ap, ◌∙◌, true, false, some, List, [], ◌∷◌, arith, length,
}
use team9osdriver.Types.{idle, replay, Move, fifo_size, u32}
use team9osdriver.Servo.{I2c, Servo, set_angle}
use team9osdriver.State.{replay_complete, get_mode}
use team9osdriver.Buffer.{Buffer, replay_delay, play_move}
use team9osdriver.Buffer.Replay.{perform, replay_worker-eq-perform}
use team9osdriver.Device.{
  Kernel, Dev, run_work, buf_op_replay_done, buf_op_should_stop, op_move_servo, buffer_ptr, buf_ops,
  notify_readers, signal_replay_done,
}

-- The servos after the movements, each done in its turn.
unfoldable replayed : I2c → List Move → Servo → Servo
replayed i2c [] s = s
replayed i2c (m ∷ ms) s = replayed i2c ms (set_angle i2c s m.servo_id m.angle).1

module _ (k : Kernel) where
  -- What the threads do that run while the worker sleeps leaves the servos, the mode and the
  -- recording alone.
  abbrev Undisturbed : (ℕ → Dev k → Dev k) → Type 0
  Undisturbed msleep =
      (n : ℕ) (d : Dev k)
      → ((msleep n d).servo ≡ d.servo)
        × ((msleep n d).state.mode ≡ d.state.mode)
        × ((msleep n d).buffer ≡ d.buffer)

  module _ (msleep : ℕ → Dev k → Dev k) (calm : Undisturbed msleep) where
    abbrev go : List Move → Dev k → Dev k
    go = perform k.kfifo buffer_ptr (buf_ops k) msleep

    perform_undisturbed :
        (ms : List Move) (d : Dev k)
        → d.state.mode ≡ replay
        → ((go ms d).servo ≡ replayed k.i2c ms d.servo) × ((go ms d).buffer ≡ d.buffer)
    unfolding perform replayed play_move buf_op_should_stop get_mode op_move_servo notify_readers
    perform_undisturbed [] d h = (refl, refl)
    perform_undisturbed (m ∷ ms) d h =
        let n = replay_delay d.buffer.replay_speed m.delay_ms in
        ground (
          arith,
          calm n d,
          perform_undisturbed ms (play_move k.kfifo buffer_ptr (buf_ops k) msleep m d),
        )

    -- A run of the replay work in replay mode, with memory for 256 movements and with nothing that
    -- disturbs it in its sleeps, moves the servos through the whole recording in order, keeps the
    -- recording, counts itself once, leaves no work queued and the device idle, and sets the flags
    -- that a waiting writer and waiting readers test.
    run_work_undisturbed :
        (moves : List Move) (d : Dev k)
        → length moves ≡ fifo_size
        → d.state.mode ≡ replay
        → let d' = run_work k msleep (some moves) d in
          (d'.servo ≡ replayed k.i2c (k.kfifo.entries d.buffer.move_fifo) d.servo)
          × (k.kfifo.entries d'.buffer.move_fifo ≡ k.kfifo.entries d.buffer.move_fifo)
          × (d'.buffer.replay_count ≡ u32 (d.buffer.replay_count + 1))
          × (d'.buffer.work_pending ≡ false)
          × (d'.state.mode ≡ idle)
          × (d'.replay_finished ≡ true)
          × (d'.new_data_avail ≡ true)
    unfolding run_work buf_op_replay_done signal_replay_done notify_readers replay_complete
    run_work_undisturbed moves d size h =
        let q = k.kfifo in
        let ready : Dev k = record d { buffer = record (d.buffer) { work_pending = false } } in
        let worked = replay_worker-eq-perform q buffer_ptr (buf_ops k) msleep moves ready size in
        let counted : Dev k = record ready {
          buffer = record (ready.buffer) {
            move_fifo = worked.0;
            replay_count = u32 (ready.buffer.replay_count + 1);
          };
        } in
        let done = perform_undisturbed (q.entries d.buffer.move_fifo) counted h in
        rw worked.2 (
          done.0,
          ap (λ (b : Buffer q.Fifo). q.entries b.move_fifo) done.1 ∙ worked.1,
          ap (λ (b : Buffer q.Fifo). b.replay_count) done.1,
          ap (λ (b : Buffer q.Fifo). b.work_pending) done.1,
          refl,
          refl,
          refl,
        )
