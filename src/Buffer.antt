-- ===== src/Buffer.antt =====
-- module/echo_buffer.c: the recording in its kfifo, and the replay worker. `fifo_lock` is held over
-- each change of the kfifo, so each is one step.
pub mod Recording
pub mod Replay
pub mod Create
use team9osdriver.Prelude.{
  ℕ, zero, suc, ◌+◌, ◌/◌, Bool, true, false, Option, none, some, List, ℤ, ltb, if◌then◌else◌,
  get_or, set,
}
use team9osdriver.Types.{Move, fifo_size, u32}
use team9osdriver.Kernel.{Kfifo, Ptr}

-- `struct echo_buffer_ctx`. `work_pending` is the pending bit of `replay_work`.
pub record Buffer (F : Type 0) : Type 0 where
  pub move_fifo : F
  pub work_pending : Bool
  pub replay_speed : ℕ  -- u16
  pub replay_count : ℕ  -- atomic_t

-- `struct echo_buffer_ops`
pub record BufferOps (W : Type 0) : Type 0 where
  pub move_servo : ℕ → ℕ → W → ℤ × W
  pub should_stop : W → Bool
  pub replay_done : W → W
  pub notify : W → W

-- what stands in memory that was never written
abbrev pub no_move : Move
no_move = record { servo_id = 0; angle = 0; delay_ms = 0 }

-- the milliseconds that the worker sleeps before a movement
unfoldable pub replay_delay : ℕ → ℕ → ℕ
replay_delay speed delay_ms =
    let delay = if ltb 0 speed then delay_ms / speed else delay_ms in
    if ltb delay 10 then 10 else delay

module _ (q : Kfifo) where
  open q use {Fifo, kfifo_len, kfifo_is_full, kfifo_put, kfifo_get, kfifo_skip, kfifo_reset}

  unfoldable pub buffer_record : Buffer Fifo → Move → Buffer Fifo
  buffer_record b m =
      let f = if kfifo_is_full b.move_fifo then kfifo_skip b.move_fifo else b.move_fifo in
      record b { move_fifo = kfifo_put f m }

  unfoldable pub buffer_clear : Buffer Fifo → Buffer Fifo
  buffer_clear b = record b { move_fifo = kfifo_reset b.move_fifo }

  unfoldable pub buffer_count : Buffer Fifo → ℕ
  buffer_count b = kfifo_len b.move_fifo

  -- `queue_work` does nothing if the work is pending already.
  unfoldable pub buffer_start_replay : Buffer Fifo → Buffer Fifo
  buffer_start_replay b = record b { work_pending = true }

  -- `cancel_work_sync` takes a pending work off the queue. It also waits for a running worker: the
  -- caller is at rest meanwhile, and goes on from the memory that the worker leaves.
  unfoldable pub buffer_cancel_replay : Buffer Fifo → Buffer Fifo
  buffer_cancel_replay b = record b { work_pending = false }

  unfoldable pub buffer_set_replay_speed : Buffer Fifo → ℕ → Buffer Fifo
  buffer_set_replay_speed b speed = if ltb 0 speed then record b { replay_speed = speed } else b

  unfoldable pub get_replay_count : Buffer Fifo → ℕ
  get_replay_count b = b.replay_count

  -- The first loop of the snapshot: the moves from index `i` on, `n` rounds left.
  unfoldable pub drain : ℕ → ℕ → Fifo → List Move → Fifo × List Move
  drain zero i f moves = (f, moves)
  drain (suc n) i f moves = elim (kfifo_get f) [
    | none ↦ (f, moves)
    | some (m, f') ↦ drain n (suc i) f' (set moves i m)
  ]

  -- The second loop puts the moves back.
  unfoldable pub restore : ℕ → ℕ → Fifo → List Move → Fifo
  restore zero i f moves = f
  restore (suc n) i f moves = restore n (suc i) (kfifo_put f (get_or moves i no_move)) moves

  -- What other threads do while the worker sleeps is the parameter `msleep`.
  module _ {W : Type 0} (ctx : Ptr W (Buffer Fifo)) (ops : BufferOps W) (msleep : ℕ → W → W) where
    open ctx use {load, store}
    open ops use {move_servo, should_stop, replay_done, notify}

    -- one round of the replay loop, behind its test
    unfoldable pub play_move : Move → W → W
    play_move m w =
        let w' = msleep (replay_delay (load w).replay_speed m.delay_ms) w in
        notify (move_servo m.servo_id m.angle w').1

    unfoldable pub play : ℕ → ℕ → List Move → W → W
    play zero i moves w = w
    play (suc n) i moves w = elim (should_stop w) [
      | true ↦ w
      | false ↦ play n (suc i) moves (play_move (get_or moves i no_move) w)
    ]

    -- `moves` is what `kmalloc_array` returns: `none` for NULL, or memory with any contents.
    unfoldable pub replay_worker : Option (List Move) → W → W
    unfolding drain restore play play_move
    replay_worker none w = replay_done w
    replay_worker (some moves) w =
        let b = load w in
        let len = kfifo_len b.move_fifo in
        let count = if ltb fifo_size len then fifo_size else len in
        let (f, taken) = drain count 0 b.move_fifo moves in
        let f' = restore count 0 f taken in
        let w' = store (record b { move_fifo = f'; replay_count = u32 (b.replay_count + 1) }) w in
        replay_done (play count 0 taken w')
