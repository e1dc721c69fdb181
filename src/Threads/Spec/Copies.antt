-- ===== src/Threads/Spec/Copies.antt =====
-- The worker's copy of the recording, as the movements that it has still to play.
use team9osdriver.Prelude.{
  ℕ, zero, suc, ◌≡◌, refl, ap, ◌∙◌, arith, none, some, List, [], ◌∷◌, ◌++◌, length, get_or,
}
use team9osdriver.Types.{Move, fifo_size}
use team9osdriver.Servo.Angles.{IsValid}
use team9osdriver.Buffer.{no_move, drain}
use team9osdriver.Buffer.Replay.{
  Copied, Copied-head, Copied-tail, drain-Drained, entries-restore, count_eq,
}
use team9osdriver.State.{replay_complete, get_mode}
use team9osdriver.Device.{
  Kernel, Dev, op_move_servo, notify_readers, signal_replay_done, buf_op_should_stop,
}
use team9osdriver.Device.Spec.Abstraction.{arms_of-set_angle, robot_of}
use team9osdriver.Threads.{
  WorkerPc, worker_rests, worker_starts, worker_counts, worker_tests, worker_sleeps, worker_moves,
  worker_notifies, worker_completes, worker_signals, worker_copy, worker_advance,
}
use team9osdriver.Threads.System.{IsMemory}
use team9osdriver.Threads.Spec.{
  Player, rests, starts, fails, counts, tests, notifies, sleeps, aims, completes, signals, play_on,
}

-- the `n` movements of an array from index `i` on
abbrev slice : ℕ → ℕ → List Move → List Move
slice zero i ms = []
slice (suc n) i ms = get_or ms i no_move ∷ slice n (suc i) ms

Copied-slice :
    (xs : List Move) (i : ℕ) (ms : List Move) → Copied i xs ms → slice (length xs) i ms ≡ xs
Copied-slice [] i ms c = refl
Copied-slice (x ∷ xs) i ms c =
    rw (Copied-head i x xs ms c)
      (ap (λ l. x ∷ l) (Copied-slice xs (suc i) ms (Copied-tail i x xs ms c)))

abbrev pub player_of : WorkerPc → Player
player_of worker_rests = rests
player_of (worker_starts none) = fails
player_of (worker_starts (some ms)) = starts
player_of (worker_counts n ms) = counts (slice n 0 ms)
player_of (worker_tests n i ms) = tests (slice n i ms)
player_of (worker_sleeps n i ms) = sleeps (get_or ms i no_move) (slice n (suc i) ms)
player_of (worker_moves n i ms) = aims (get_or ms i no_move) (slice n (suc i) ms)
player_of (worker_notifies n i ms) = notifies (slice n (suc i) ms)
player_of worker_completes = completes
player_of worker_signals = signals

-- the memory of a worker that has just begun
abbrev pub HasMemory : WorkerPc → Type 0
HasMemory (worker_starts room) = IsMemory room
HasMemory _ = Unit {0}

module _ (k : Kernel) where
  -- The copy has the whole recording, and puts it back.
  copied :
      (ms : List Move) (d : Dev k)
      → length ms ≡ fifo_size
      → let (w, d') = worker_copy k ms d in
        (player_of w ≡ counts (k.kfifo.entries d.buffer.move_fifo))
        × (k.kfifo.entries d'.buffer.move_fifo ≡ k.kfifo.entries d.buffer.move_fifo)
  unfolding worker_copy
  copied ms d size =
      let q = k.kfifo in
      let xs = q.entries d.buffer.move_fifo in
      let out = drain q (length xs) 0 d.buffer.move_fifo ms in
      let dr =
        drain-Drained q xs 0 d.buffer.move_fifo ms refl
          (omega (arith, q.entries_fit d.buffer.move_fifo)) in
      rw (count_eq q d.buffer.move_fifo) (
        ap counts (Copied-slice xs 0 out.1 dr.copied),
        entries-restore q xs 0 out.0 out.1 dr.copied
              (omega (arith, ap length dr.emptied, q.entries_fit d.buffer.move_fifo))
            ∙ ap (λ ys. ys ++ xs) dr.emptied,
      )

  pub worker_advance-Refines :
      (w : WorkerPc) (d : Dev k)
      → HasMemory w
      → IsValid d.servo
      → let (w', d') = worker_advance k w d in
        (player_of w', robot_of k d') ≡ play_on (player_of w) (robot_of k d)
  unfolding worker_advance robot_of op_move_servo notify_readers signal_replay_done replay_complete
      buf_op_should_stop get_mode
  worker_advance-Refines worker_rests d h v = refl
  worker_advance-Refines (worker_starts none) d h v = refl
  worker_advance-Refines (worker_starts (some ms)) d h v =
      let (player, recording) = copied ms d h in
      λ j. (player j, record (robot_of k d) { recording = recording j })
  worker_advance-Refines (worker_counts n ms) d h v = refl
  worker_advance-Refines (worker_tests zero i ms) d h v = refl
  worker_advance-Refines (worker_tests (suc n) i ms) d h v = ground arith
  worker_advance-Refines (worker_sleeps n i ms) d h v = refl
  worker_advance-Refines (worker_moves n i ms) d h v =
      let m = get_or ms i no_move in
      λ j. (
        notifies (slice n (suc i) ms),
        record (robot_of k d) { arms = arms_of-set_angle k d.servo m.servo_id m.angle v j },
      )
  worker_advance-Refines (worker_notifies n i ms) d h v = refl
  worker_advance-Refines worker_completes d h v = refl
  worker_advance-Refines worker_signals d h v = refl
