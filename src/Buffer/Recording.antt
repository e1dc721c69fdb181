-- ===== src/Buffer/Recording.antt =====
-- What module/echo_buffer.c keeps of the movements that it is given: the newest that fit.
use team9osdriver.Prelude.{
  ℕ, zero, suc, ◌+◌, ◌-◌, ◌≤◌, ◌<◌, ◌≡◌, refl, sym, ap, ◌∙◌, true, false, List, [], ◌∷◌, ◌++◌,
  append-nil, append_assoc, arith, length, length-append, drop, Bool-cases, inl, inr,
}
use team9osdriver.Types.{Move, fifo_size}
use team9osdriver.Kernel.{Kfifo}
use team9osdriver.Buffer.{Buffer, buffer_record}

-- The last `n` elements of a list.
abbrev pub newest {ℓ} : {A : Type ℓ} → ℕ → List A → List A
newest n xs = drop (length xs - n) xs

module _ {ℓ} {A : Type ℓ} where
  drop-append : (n : ℕ) (xs ys : List A) → n ≤ length xs → drop n (xs ++ ys) ≡ drop n xs ++ ys
  drop-append zero xs ys h = refl
  drop-append (suc n) [] ys h = absurd (omega arith)
  drop-append (suc n) (x ∷ xs) ys h = drop-append n xs ys (omega arith)

  drop-nil : (n : ℕ) → drop {A = A} n [] ≡ []
  drop-nil zero = refl
  drop-nil (suc n) = refl

  drop-drop : (m n : ℕ) (xs : List A) → drop m (drop n xs) ≡ drop (n + m) xs
  drop-drop m zero xs = ap (λ k. drop k xs) (omega arith)
  drop-drop m (suc n) [] = drop-nil m ∙ sym (drop-nil (suc n + m))
  drop-drop m (suc n) (x ∷ xs) =
      drop-drop m n xs ∙ ap (λ k. drop k (x ∷ xs)) {x = suc (n + m)} {y = suc n + m} (omega arith)

  length-drop : (n : ℕ) (xs : List A) → length (drop n xs) ≡ length xs - n
  length-drop zero xs = omega arith
  length-drop (suc n) [] = omega arith
  length-drop (suc n) (x ∷ xs) = omega (arith, length-drop n xs)

  newest_from : (n k : ℕ) (xs : List A) → length xs - n ≡ k → drop k xs ≡ newest n xs
  newest_from n k xs e = rw e

  -- Keeping the newest before more arrive loses nothing that would be kept.
  newest-newest : (n : ℕ) (xs ys : List A) → newest n (newest n xs ++ ys) ≡ newest n (xs ++ ys)
  newest-newest n xs ys =
      rw (← drop-append (length xs - n) xs ys (omega arith), drop-drop)
        (ap (λ k. drop k (xs ++ ys))
          (omega (arith, length-append xs ys, length-drop (length xs - n) (xs ++ ys))))

module _ (q : Kfifo) where
  open q use {Fifo, entries}

  len_full : {f : Fifo} → q.kfifo_is_full f ≡ true → length (entries f) ≡ fifo_size
  len_full {f} h = ground (arith, q.is_full_lem f)

  len_room : {f : Fifo} → q.kfifo_is_full f ≡ false → length (entries f) < fifo_size
  len_room {f} h = ground (arith, q.is_full_lem f, q.entries_fit f)

  pub entries-record :
      (b : Buffer Fifo) (m : Move)
      → entries (buffer_record q b m).move_fifo ≡ newest fifo_size (entries b.move_fifo ++ (m ∷ []))
  unfolding buffer_record
  entries-record b m = elim (Bool-cases (q.kfifo_is_full b.move_fifo)) [
    | inl full ↦ rw full (
        q.put_lem (q.kfifo_skip b.move_fifo) m (
          omega (
            arith,
            ap length (q.skip_lem b.move_fifo),
            length-drop 1 (entries b.move_fifo),
            len_full full,
          ))
        ∙ ap (λ xs. xs ++ (m ∷ [])) (q.skip_lem b.move_fifo)
        ∙ sym (drop-append 1 (entries b.move_fifo) (m ∷ []) (omega (arith, len_full full)))
        ∙ newest_from fifo_size 1 (entries b.move_fifo ++ (m ∷ []))
            (omega (arith, length-append (entries b.move_fifo) (m ∷ []), len_full full)))
    | inr room ↦ rw room (
        q.put_lem b.move_fifo m (len_room room)
        ∙ newest_from fifo_size 0 (entries b.move_fifo ++ (m ∷ []))
            (omega (arith, length-append (entries b.move_fifo) (m ∷ []), len_room room)))
  ]

  unfoldable pub record_all : Buffer Fifo → List Move → Buffer Fifo
  record_all b [] = b
  record_all b (m ∷ ms) = record_all (buffer_record q b m) ms

  -- Whatever was recorded before, after recording `ms` the buffer holds the newest 256 movements of
  -- all, in their order: a full buffer drops the oldest ones and nothing else.
  pub entries-record_all :
      (b : Buffer Fifo) (ms : List Move)
      → entries (record_all b ms).move_fifo ≡ newest fifo_size (entries b.move_fifo ++ ms)
  unfolding record_all
  entries-record_all b [] =
      newest_from fifo_size 0 (entries b.move_fifo) (omega (arith, q.entries_fit b.move_fifo))
      ∙ ap (newest fifo_size) (sym (append-nil (entries b.move_fifo)))
  entries-record_all b (m ∷ ms) =
      entries-record_all (buffer_record q b m) ms
      ∙ rw (entries-record b m) (
          newest-newest fifo_size (entries b.move_fifo ++ (m ∷ [])) ms
          ∙ ap (newest fifo_size) (append_assoc (entries b.move_fifo) (m ∷ []) ms))
