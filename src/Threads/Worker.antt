-- ===== src/Threads/Worker.antt =====
-- The replay worker by its sections: alone it is `replay_worker` of module/echo_buffer.c, and it ends.
use team9osdriver.Prelude.{
  ℕ, zero, suc, ◌≡◌, refl, ap, ◌∙◌, sym, true, false, Bool-cases, inl, inr, Option, some, none,
  List, get_or, ltb, if◌then◌else◌,
}
use team9osdriver.Types.{Move, fifo_size}
use team9osdriver.Buffer.{replay_worker, play, play_move, no_move}
use team9osdriver.Device.{Kernel, Dev, buf_op_should_stop, buf_op_replay_done, buffer_ptr, buf_ops}
use team9osdriver.Threads.{
  WorkerPc, worker_rests, worker_starts, worker_tests, worker_sleeps, worker_completes,
  worker_advance,
}

-- three sections, and four for each round of the loop
abbrev sections : ℕ → ℕ
sections zero = 3
sections (suc n) = suc (suc (suc (suc (sections n))))

module _ (k : Kernel) where
  abbrev pub still : ℕ → Dev k → Dev k
  still n d = d

  -- `n` sections of the worker
  unfoldable worker_alone : ℕ → WorkerPc → Dev k → WorkerPc × Dev k
  worker_alone zero w d = (w, d)
  worker_alone (suc n) w d = let (w', d') = worker_advance k w d in worker_alone n w' d'

  alone_rests : (n : ℕ) (d : Dev k) → worker_alone n worker_rests d ≡ (worker_rests, d)
  unfolding worker_alone worker_advance
  alone_rests zero d = refl
  alone_rests (suc n) d = alone_rests n d

  alone_completes :
      (n : ℕ) (d : Dev k)
      → worker_alone (suc (suc n)) worker_completes d ≡ (worker_rests, buf_op_replay_done k d)
  unfolding worker_alone worker_advance buf_op_replay_done
  alone_completes n d = alone_rests n (buf_op_replay_done k d)

  abbrev played : ℕ → ℕ → List Move → Dev k → Dev k
  played n i moves d = play k.kfifo buffer_ptr (buf_ops k) still n i moves d

  abbrev round : ℕ → List Move → Dev k → Dev k
  round i moves d = play_move k.kfifo buffer_ptr (buf_ops k) still (get_or moves i no_move) d

  tests_stop :
      (n i : ℕ) (moves : List Move) (d : Dev k)
      → buf_op_should_stop k d ≡ true
      → (worker_advance k (worker_tests (suc n) i moves) d ≡ (worker_completes, d))
        × (played (suc n) i moves d ≡ d)
  unfolding worker_advance play
  tests_stop n i moves d h = (rw (h, worker_advance), rw (h, play))

  tests_go :
      (n i : ℕ) (moves : List Move) (d : Dev k)
      → buf_op_should_stop k d ≡ false
      → (worker_advance k (worker_tests (suc n) i moves) d ≡ (worker_sleeps n i moves, d))
        × (played (suc n) i moves d ≡ played n (suc i) moves (round i moves d))
  unfolding worker_advance play
  tests_go n i moves d h = (rw (h, worker_advance), rw (h, play))

  -- sleeping, moving and telling are the body of the loop
  alone_round :
      (m n i : ℕ) (moves : List Move) (d : Dev k)
      → worker_alone (suc (suc (suc m))) (worker_sleeps n i moves) d
        ≡ worker_alone m (worker_tests n (suc i) moves) (round i moves d)
  unfolding worker_alone worker_advance play_move
  alone_round m n i moves d = refl

  alone_step :
      (m : ℕ) (w w' : WorkerPc) (d d' : Dev k)
      → worker_advance k w d ≡ (w', d')
      → worker_alone (suc m) w d ≡ worker_alone m w' d'
  unfolding worker_alone
  alone_step m w w' d d' e = ap (λ (p : WorkerPc × Dev k). worker_alone m p.0 p.1) e

  alone_tests :
      (n i : ℕ) (moves : List Move) (d : Dev k)
      → worker_alone (sections n) (worker_tests n i moves) d
        ≡ (worker_rests, buf_op_replay_done k (played n i moves d))
  unfolding worker_advance play
  alone_tests zero i moves d =
      alone_step 2 (worker_tests 0 i moves) worker_completes d d refl ∙ alone_completes 0 d
  alone_tests (suc n) i moves d = elim (Bool-cases (buf_op_should_stop k d)) [
    | inl stop ↦
        let (now, after) = tests_stop n i moves d stop in
        alone_step _ _ _ d d now
        ∙ alone_completes (suc (sections n)) d
        ∙ ap (λ e. (worker_rests, buf_op_replay_done k e)) (sym after)
    | inr go ↦
        let (now, after) = tests_go n i moves d go in
        alone_step _ _ _ d d now
        ∙ alone_round (sections n) n i moves d
        ∙ alone_tests n (suc i) moves (round i moves d)
        ∙ ap (λ e. (worker_rests, buf_op_replay_done k e)) (sym after)
  ]

  -- the movements that the worker copies
  unfoldable count_of : Dev k → ℕ
  count_of d =
      let len = k.kfifo.kfifo_len d.buffer.move_fifo in if ltb fifo_size len then fifo_size else len

  alone_failed :
      (n : ℕ) (d : Dev k)
      → worker_alone (suc (sections n)) worker_completes d ≡ (worker_rests, buf_op_replay_done k d)
  alone_failed zero d = alone_completes 2 d
  alone_failed (suc n) d = alone_completes (suc (suc (suc (sections n)))) d

  -- A worker that no other thread meets comes to rest after five sections and four for each movement
  -- that it copies, and has then done what `replay_worker` does with sleeps that change nothing.
  worker_alone_lem :
      (moves : Option (List Move)) (d : Dev k)
      → worker_alone (suc (suc (sections (count_of d)))) (worker_starts moves) d
        ≡ (worker_rests, replay_worker k.kfifo buffer_ptr (buf_ops k) still moves d)
  unfolding worker_alone worker_advance replay_worker count_of
  worker_alone_lem none d = alone_failed (count_of d) d
  worker_alone_lem (some moves) d = alone_tests (count_of d) 0 _ _
