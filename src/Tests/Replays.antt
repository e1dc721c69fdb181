-- ===== src/Tests/Replays.antt =====
-- module/echo_buffer.c at concrete inputs.
use team9osdriver.Prelude.{ℕ, ◌≡◌, refl, some, List, [], ◌∷◌, ◌++◌, length}
use team9osdriver.Types.{Move, fifo_size}
use team9osdriver.Servo.{set_angle}
use team9osdriver.State.{get_mode, replay_complete}
use team9osdriver.Buffer.{replay_worker, buffer_record}
use team9osdriver.Buffer.Recording.{newest, record_all, entries-record_all}
use team9osdriver.Buffer.Replay.{perform, replay_worker-eq-perform}
use team9osdriver.Device.{
  Dev, buffer_ptr, buf_ops, run_work, op_move_servo, buf_op_should_stop, buf_op_replay_done,
  notify_readers, signal_replay_done,
}
use team9osdriver.Tests.Fixture.{list_kfifo, test_kernel, replaying, turn, dirty}

-- A full buffer with a new movement.
overflow :
    length
      (list_kfifo.entries (record_all list_kfifo replaying.buffer (turn 1 ∷ turn 2 ∷ [])).move_fifo)
    ≡ 4
unfolding record_all buffer_record
overflow = refl

entries-record_all_example :
    list_kfifo.entries (record_all list_kfifo replaying.buffer (turn 1 ∷ turn 2 ∷ [])).move_fifo
    ≡ newest fifo_size (list_kfifo.entries replaying.buffer.move_fifo ++ (turn 1 ∷ turn 2 ∷ []))
entries-record_all_example = entries-record_all list_kfifo replaying.buffer (turn 1 ∷ turn 2 ∷ [])

abbrev still : ℕ → Dev test_kernel → Dev test_kernel
still n d = d

replay_test : (run_work test_kernel still (some dirty) replaying).servo.angles ≡ 100 ∷ 90 ∷ 100 ∷ []
unfolding run_work set_angle replay_worker op_move_servo buf_op_should_stop buf_op_replay_done
    get_mode replay_complete notify_readers signal_replay_done
replay_test = refl

replay_worker-eq-perform_example :
    (f : List Move) × (list_kfifo.entries f ≡ list_kfifo.entries replaying.buffer.move_fifo)
    × (replay_worker list_kfifo buffer_ptr (buf_ops test_kernel) still (some dirty) replaying
        ≡ (buf_ops test_kernel).replay_done (
            perform list_kfifo buffer_ptr
              (buf_ops test_kernel)
              still
              (list_kfifo.entries replaying.buffer.move_fifo)
              (record replaying {
                buffer = record (replaying.buffer) { move_fifo = f; replay_count = 1 };
              })))
replay_worker-eq-perform_example =
    replay_worker-eq-perform list_kfifo buffer_ptr (buf_ops test_kernel) still dirty replaying refl
