-- ===== src/Visualizer/Bar.antt =====
-- What the bars of app/echo_visualizer.c show.
use team9osdriver.Prelude.{
  ℕ, zero, suc, ◌+◌, ◌*◌, ◌/◌, ◌≤◌, ◌<◌, ◌≡◌, ◌⊎◌, inl, inr, ◌≢◌, ℤ, ◌∙◌, refl, arith, List, pos,
  length, get_or, set, ltb, leb, if◌then◌else◌, get_or-set_self, get_or-set_ne, length-set,
}
use native.Mathlib.Decide.{ℕ_discrete}
use team9osdriver.Types.{servo_max}
use team9osdriver.Visualizer.{
  clamp_filled, fill_bar, format_bar, angle_bar, bar_len, open_char, close_char, full_char,
  empty_char,
}

cell : ℕ → ℕ → ℕ
cell filled j = if leb j filled then full_char else empty_char

length-fill_bar : (n i filled : ℕ) (buf : List ℕ) → length (fill_bar n i filled buf) ≡ length buf
unfolding fill_bar
length-fill_bar zero i filled buf = refl
length-fill_bar (suc n) i filled buf = length-fill_bar n (suc i) filled _ ∙ length-set buf (1 + i) _

fill_bar_outside :
    (n i filled : ℕ) (buf : List ℕ) (j d : ℕ)
    → (j ≤ i) ⊎ (i + n < j)
    → get_or (fill_bar n i filled buf) j d ≡ get_or buf j d
unfolding fill_bar
fill_bar_outside zero i filled buf j d p = refl
fill_bar_outside (suc n) i filled buf j d p =
    fill_bar_outside n (suc i) filled _ j d
      (elim p [ inl l ↦ inl (omega arith) | inr l ↦ inr (omega arith) ])
    ∙ get_or-set_ne buf (1 + i) j _ d (elim p [ inl l ↦ omega arith | inr l ↦ omega arith ])

cell_at : (i filled : ℕ) → (if ltb i filled then full_char else empty_char) ≡ cell filled (1 + i)
unfolding cell
cell_at i filled = ground arith

fill_bar_inside :
    (n i filled : ℕ) (buf : List ℕ) (j d : ℕ)
    → 1 + i + n ≤ length buf
    → i < j
    → j ≤ i + n
    → get_or (fill_bar n i filled buf) j d ≡ cell filled j
unfolding fill_bar
fill_bar_inside zero i filled buf j d h l u = absurd (omega arith)
fill_bar_inside (suc n) i filled buf j d h l u = elim (ℕ_discrete j (1 + i)) [
  | yes e ↦ rw e (
      fill_bar_outside n (suc i) filled _ (1 + i) d (inl (omega arith))
      ∙ get_or-set_self buf (1 + i) _ d (omega arith)
      ∙ cell_at i filled)
  | no ne ↦
      fill_bar_inside n (suc i) filled _ j d
        (omega (arith, length-set buf (1 + i) (if ltb i filled then full_char else empty_char)))
        (omega arith) (omega arith)
]

-- A buffer with room for the cells, two brackets and the end of the string.
module _ (buf : List ℕ) (filled : ℤ) (len d : ℕ) (room : 3 + len ≤ length buf) where
  abbrev cells : List ℕ
  cells = fill_bar len 0 (clamp_filled filled len) (set buf 0 open_char)

  length-cells : length cells ≡ length buf
  length-cells = length-fill_bar len 0 (clamp_filled filled len) _ ∙ length-set buf 0 open_char

  length-format_bar : length (format_bar buf filled len) ≡ length buf
  unfolding format_bar
  length-format_bar =
      length-set _ (2 + len) 0 ∙ length-set cells (1 + len) close_char ∙ length-cells

  -- what the two last assignments leave
  below_end :
      (j : ℕ)
      → j ≢ 1 + len
      → j ≢ 2 + len
      → get_or (format_bar buf filled len) j d ≡ get_or cells j d
  unfolding format_bar
  below_end j n1 n2 =
      get_or-set_ne _ (2 + len) j 0 d (omega arith)
      ∙ get_or-set_ne cells (1 + len) j close_char d (omega arith)

  format_bar_open : get_or (format_bar buf filled len) 0 d ≡ open_char
  format_bar_open =
      below_end 0 (omega arith) (omega arith)
      ∙ fill_bar_outside len 0 (clamp_filled filled len) _ 0 d (inl (omega arith))
      ∙ get_or-set_self buf 0 open_char d (omega arith)

  format_bar-cell :
      (j : ℕ)
      → 1 ≤ j
      → j ≤ len
      → get_or (format_bar buf filled len) j d ≡ cell (clamp_filled filled len) j
  format_bar-cell j l u =
      below_end j (omega arith) (omega arith)
      ∙ fill_bar_inside len 0 (clamp_filled filled len) _ j d
          (omega (arith, length-set buf 0 open_char)) (omega arith) (omega arith)

  format_bar_close : get_or (format_bar buf filled len) (1 + len) d ≡ close_char
  unfolding format_bar
  format_bar_close =
      get_or-set_ne _ (2 + len) (1 + len) 0 d (omega arith)
      ∙ get_or-set_self cells (1 + len) close_char d (omega (arith, length-cells))

  format_bar_end : get_or (format_bar buf filled len) (2 + len) d ≡ 0
  unfolding format_bar
  format_bar_end =
      get_or-set_self _ (2 + len) 0 d
        (omega (arith, length-cells, length-set cells (1 + len) close_char))

  format_bar_beyond :
      (j : ℕ) → 2 + len < j → get_or (format_bar buf filled len) j d ≡ get_or buf j d
  format_bar_beyond j h =
      below_end j (omega arith) (omega arith)
      ∙ fill_bar_outside len 0 (clamp_filled filled len) _ j d (inr (omega arith))
      ∙ get_or-set_ne buf 0 j open_char d (omega arith)

full_cells :
    (angle j : ℕ)
    → angle ≤ servo_max
    → j ≤ 18
    → (j * 10 ≤ angle → cell (clamp_filled (pos (angle * bar_len / 180)) bar_len) j ≡ full_char)
      × (angle < j * 10 → cell (clamp_filled (pos (angle * bar_len / 180)) bar_len) j ≡ empty_char)
unfolding cell clamp_filled
full_cells angle j h k = (λ l. ground arith, λ l. ground arith)

-- The bar of an angle of at most 180 fits its buffer of 32 characters: it is a bracket, a full cell
-- for each ten degrees up to the angle, empty cells up to 18, a bracket and the end of the string.
-- The characters behind stay as they were.
pub angle_bar_lem :
    (stack : List ℕ) (angle d : ℕ)
    → length stack ≡ 32
    → angle ≤ servo_max
    → let bar = angle_bar stack angle in
      (length bar ≡ 32)
      × (get_or bar 0 d ≡ open_char)
      × ((j : ℕ) → 1 ≤ j → j ≤ 18 → j * 10 ≤ angle → get_or bar j d ≡ full_char)
      × ((j : ℕ) → 1 ≤ j → j ≤ 18 → angle < j * 10 → get_or bar j d ≡ empty_char)
      × (get_or bar 19 d ≡ close_char)
      × (get_or bar 20 d ≡ 0)
      × ((j : ℕ) → 20 < j → get_or bar j d ≡ get_or stack j d)
unfolding angle_bar
angle_bar_lem stack angle d size h =
    let n = pos (angle * bar_len / 180) in
    let room : 3 + bar_len ≤ length stack = omega arith in
    (
      length-format_bar stack n bar_len d room ∙ size,
      format_bar_open stack n bar_len d room,
      λ j l u e. format_bar-cell stack n bar_len d room j l u ∙ (full_cells angle j h u).0 e,
      λ j l u e. format_bar-cell stack n bar_len d room j l u ∙ (full_cells angle j h u).1 e,
      format_bar_close stack n bar_len d room,
      format_bar_end stack n bar_len d room,
      format_bar_beyond stack n bar_len d room,
    )
