-- ===== src/Buffer/Replay.antt =====
-- The replay worker of module/echo_buffer.c against a recursion over the recorded movements.
use native.Mathlib.Nat.{div-le_self}
use team9osdriver.Prelude.{
  ℕ, zero, suc, ◌+◌, ◌≤◌, ◌<◌, ◌≡◌, refl, sym, ap, ◌∙◌, true, false, List, [], ◌∷◌, ◌++◌,
  append-nil, append_assoc, arith, some, none, Option, ltb, if◌then◌else◌, length, length-append,
  length-set, get_or, set, get_or-set_self, get_or-set_ne, Bool-cases, inl, inr,
}
use team9osdriver.Types.{Move, fifo_size, u32}
use team9osdriver.Kernel.{Kfifo, Ptr}
use team9osdriver.Buffer.{
  Buffer, BufferOps, no_move, replay_delay, drain, restore, replay_worker, play, play_move,
}

-- The worker sleeps at least 10 ms before each movement; a recorded pause of 10 ms or more is kept
-- at speed 1, and is never made longer by a higher speed.
replay_delay_bounds :
    (speed d : ℕ)
    → (10 ≤ replay_delay speed d)
      × (10 ≤ d → replay_delay 1 d ≡ d)
      × (10 ≤ d → replay_delay speed d ≤ d)
unfolding replay_delay
replay_delay_bounds speed d =
    (ground arith, λ h. ground arith, λ h. ground (arith, div-le_self d speed))

-- The array holds `xs` from index `i` on.
abbrev pub Copied : ℕ → List Move → List Move → Type 0
Copied i xs moves = (j : ℕ) → j < length xs → get_or moves (i + j) no_move ≡ get_or xs j no_move

pub Copied-head :
    (i : ℕ) (x : Move) (xs moves : List Move) → Copied i (x ∷ xs) moves → get_or moves i no_move ≡ x
Copied-head i x xs moves c =
    ap (λ k. get_or moves k no_move) {x = i} {y = i + 0} (omega arith) ∙ c 0 (omega arith)

pub Copied-tail :
    (i : ℕ) (x : Move) (xs moves : List Move) → Copied i (x ∷ xs) moves → Copied (suc i) xs moves
Copied-tail i x xs moves c j p =
    ap (λ k. get_or moves k no_move) {x = suc i + j} {y = i + suc j} (omega arith)
    ∙ c (suc j) (omega arith)

Copied-cons :
    (i : ℕ) (x : Move) (xs moves : List Move)
    → get_or moves i no_move ≡ x
    → Copied (suc i) xs moves
    → Copied i (x ∷ xs) moves
Copied-cons i x xs moves h c zero p =
    ap (λ k. get_or moves k no_move) {x = i + 0} {y = i} (omega arith) ∙ h
Copied-cons i x xs moves h c (suc j) p =
    ap (λ k. get_or moves k no_move) {x = i + suc j} {y = suc i + j} (omega arith)
    ∙ c j (omega arith)

module _ (q : Kfifo) where
  open q use {Fifo, entries, kfifo_put}

  -- what `drain` leaves of the kfifo and of the array
  pub record Drained (i : ℕ) (xs moves : List Move) (out : Fifo × List Move) : Type 0 where
    pub emptied : entries out.0 ≡ []
    pub size : length out.1 ≡ length moves
    pub before : (j : ℕ) → j < i → get_or out.1 j no_move ≡ get_or moves j no_move
    pub copied : Copied i xs out.1

  pub drain-Drained :
      (xs : List Move) (i : ℕ) (f : Fifo) (moves : List Move)
      → entries f ≡ xs
      → i + length xs ≤ length moves
      → Drained i xs moves (drain q (length xs) i f moves)
  unfolding drain
  drain-Drained [] i f moves e h = record {
    emptied = e;
    size = refl;
    before = λ j p. refl;
    copied = λ j p. absurd (omega arith);
  }
  drain-Drained (x ∷ xs) i f moves e h =
      let (f', got, e') = q.get_lem f x xs e in
      let ih =
        drain-Drained xs (suc i) f' (set moves i x) e' (omega (arith, length-set moves i x)) in
      rw got (record {
        emptied = ih.emptied;
        size = ih.size ∙ length-set moves i x;
        before = λ j p. ih.before j (omega arith) ∙ get_or-set_ne moves i j x no_move (omega arith);
        copied =
            Copied-cons i x xs _
              (ih.before i (omega arith) ∙ get_or-set_self moves i x no_move (omega arith))
              ih.copied;
      })

  -- `play` and `restore` see the array only through the elements that they index.
  pub entries-restore :
      (xs : List Move) (i : ℕ) (f : Fifo) (moves : List Move)
      → Copied i xs moves
      → length (entries f) + length xs ≤ fifo_size
      → entries (restore q (length xs) i f moves) ≡ entries f ++ xs
  unfolding restore
  entries-restore [] i f moves c h = sym (append-nil (entries f))
  entries-restore (x ∷ xs) i f moves c h =
      let here : get_or moves i no_move ≡ x =
        ap (λ k. get_or moves k no_move) (omega arith) ∙ c 0 (omega arith) in
      let put = q.put_lem f x (omega arith) in
      rw (restore, here)
        (entries-restore xs (suc i) (kfifo_put f x) moves (Copied-tail i x xs moves c)
            (omega (arith, ap length put, length-append (entries f) (x ∷ [])))
          ∙ ap (λ ys. ys ++ xs) put
          ∙ append_assoc (entries f) (x ∷ []) xs)

  -- The test of the count against the size of the array never passes.
  pub count_eq :
      (f : Fifo)
      → (if ltb fifo_size (q.kfifo_len f) then fifo_size else q.kfifo_len f) ≡ length (entries f)
  count_eq f = ground (arith, q.len_lem f, q.entries_fit f)

  module _ {W : Type 0} (ctx : Ptr W (Buffer Fifo)) (ops : BufferOps W) (msleep : ℕ → W → W) where
    -- Perform movements in order, until one of the tests before them says stop.
    unfoldable pub perform : List Move → W → W
    perform [] w = w
    perform (m ∷ ms) w = elim (ops.should_stop w) [
      | true ↦ w
      | false ↦ perform ms (play_move q ctx ops msleep m w)
    ]

    play-eq-perform :
        (xs : List Move) (i : ℕ) (moves : List Move) (w : W)
        → Copied i xs moves
        → play q ctx ops msleep (length xs) i moves w ≡ perform xs w
    unfolding play perform
    play-eq-perform [] i moves w c = refl
    play-eq-perform (x ∷ xs) i moves w c =
        let here : get_or moves i no_move ≡ x =
          ap (λ k. get_or moves k no_move) (omega arith) ∙ c 0 (omega arith) in
        elim (Bool-cases (ops.should_stop w)) [
          | inl stop ↦ rw (stop, perform)
          | inr go ↦
              rw (go, perform, here)
                (play-eq-perform xs (suc i) moves (play_move q ctx ops msleep x w)
                  (Copied-tail i x xs moves c))
        ]

    play-keeps :
        (P : W → Type 0)
        → ((m : Move) (w : W) → P w → P (play_move q ctx ops msleep m w))
        → (n i : ℕ) (moves : List Move) (w : W) → P w
        → P (play q ctx ops msleep n i moves w)
    unfolding play
    play-keeps P moved zero i moves w h = h
    play-keeps P moved (suc n) i moves w h = elim (Bool-cases (ops.should_stop w)) [
      | inl stop ↦ rw (stop, play) h
      | inr go ↦
          rw (go, play) (play-keeps P moved n (suc i) moves _ (moved (get_or moves i no_move) w h))
    ]

    -- With memory for 256 movements, the worker leaves the recording as it was, counts one replay,
    -- performs the recorded movements in order, each behind a test whether to stop, and then
    -- reports that it is done. What the memory held before plays no part.
    pub replay_worker-eq-perform :
        (moves : List Move) (w : W)
        → length moves ≡ fifo_size
        → let b = ctx.load w in
          (f : Fifo) × (entries f ≡ entries b.move_fifo)
          × (replay_worker q ctx ops msleep (some moves) w
              ≡ ops.replay_done (
                  perform (entries b.move_fifo) (
                    ctx.store
                      (record b { move_fifo = f; replay_count = u32 (b.replay_count + 1) })
                      w)))
    unfolding replay_worker
    replay_worker-eq-perform moves w size =
        let b = ctx.load w in
        let xs = entries b.move_fifo in
        let out = drain q (length xs) 0 b.move_fifo moves in
        let d =
          drain-Drained xs 0 b.move_fifo moves refl (omega (arith, q.entries_fit b.move_fifo)) in
        let f = restore q (length xs) 0 out.0 out.1 in
        let w' =
          ctx.store (record b { move_fifo = f; replay_count = u32 (b.replay_count + 1) }) w in
        (
          f,
          entries-restore xs 0 out.0 out.1 d.copied
                (omega (arith, ap length d.emptied, q.entries_fit b.move_fifo))
              ∙ ap (λ ys. ys ++ xs) d.emptied,
          rw (count_eq b.move_fifo, replay_worker)
              (ap ops.replay_done (play-eq-perform xs 0 out.1 w' d.copied)),
        )

    -- What each round of the replay loop keeps, and the bookkeeping before and after it keeps too,
    -- the whole worker keeps.
    pub replay_worker-keeps :
        (P : W → Type 0)
        → ((b : Buffer Fifo) (w : W) → P w → P (ctx.store b w))
        → ((m : Move) (w : W) → P w → P (play_move q ctx ops msleep m w))
        → ((w : W) → P w → P (ops.replay_done w))
        → (moves : Option (List Move)) (w : W) → P w
        → P (replay_worker q ctx ops msleep moves w)
    unfolding replay_worker
    replay_worker-keeps P stored moved done none w h = done w h
    replay_worker-keeps P stored moved done (some moves) w h =
        done _ (play-keeps P moved _ 0 _ _ (stored _ w h))
