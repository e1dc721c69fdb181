-- ===== src/Visualizer/Widths.antt =====
-- How wide the lines of the status box are.
use team9osdriver.Prelude.{
  ℕ, zero, suc, ◌^◌, ◌≤◌, ◌<◌, ◌≡◌, ◌≢◌, refl, arith, List, [], ◌∷◌, ◌++◌, length, get_or,
  length-append, take, pos,
}
use mathlib.Core.List.{map}
use team9osdriver.Types.{servo_max}
use team9osdriver.Text.{Bytes, codes}
use team9osdriver.Chardev.{Snapshot}
use team9osdriver.Chardev.Layout.{Fits}
use team9osdriver.Visualizer.{angle_bar}
use team9osdriver.Visualizer.Bar.{angle_bar_lem}
use team9osdriver.Visualizer.Screen.{Fields, screen_fifo_size, mode_name, c_string, bar_row, render}

length-c_string :
    (n : ℕ) (s : List ℕ)
    → n < length s
    → ((j : ℕ) → j < n → get_or s j 0 ≢ 0)
    → get_or s n 0 ≡ 0
    → length (c_string s) ≡ n
unfolding c_string
length-c_string n [] h some_char end = absurd (omega arith)
length-c_string zero (c ∷ s) h some_char end = ground arith
length-c_string (suc n) (c ∷ s) h some_char end = ground (
  arith,
  length-c_string n s (omega arith) (λ j l. some_char (suc j) (omega arith)) end,
  some_char 0 (omega arith),
)

bar_char :
    (stack : List ℕ) (angle j : ℕ)
    → length stack ≡ 32
    → angle ≤ servo_max
    → j < 20
    → get_or (angle_bar stack angle) j 0 ≢ 0
bar_char stack angle j size h l e =
    let (_, first, full, empty, last, _, _) = angle_bar_lem stack angle 0 size h in
    ground (arith, first, full j, empty j, last)

length-bar :
    (stack : List ℕ) (angle : ℕ)
    → length stack ≡ 32
    → angle ≤ servo_max
    → length (c_string (angle_bar stack angle)) ≡ 20
length-bar stack angle size h =
    let (whole, _, _, _, _, end, _) = angle_bar_lem stack angle 0 size h in
    length-c_string 20 (angle_bar stack angle) (omega arith)
      (λ j l. bar_char stack angle j size h l) end

length-mode_name : (mode : ℕ) → length (mode_name mode) ≤ 26
length-mode_name mode = ground arith

module _ (f : Fields) where
  open f use {
    left_s, right_u, left_u, left_d, left_s_width, right_u_width, left_u_width, left_d_width,
  }

  length-bar_row :
      (label : Bytes) (stack : List ℕ) (angle : ℕ)
      → length label ≡ 11
      → length stack ≡ 32
      → angle ≤ servo_max
      → length (bar_row f label stack angle) ≡ 38
  unfolding bar_row
  length-bar_row label stack angle l size h =
      let n = length-bar stack angle size h in
      let m = right_u_width 3 angle (omega arith) (omega arith) in
      let tail_row = right_u 3 angle ++ codes "  |" in
      omega (
        arith,
        n,
        m,
        length-append label (c_string (angle_bar stack angle) ++ (codes " " ++ tail_row)),
        length-append (c_string (angle_bar stack angle)) (codes " " ++ tail_row),
        length-append (right_u 3 angle) (codes "  |"),
      )

  -- a label, a value of 26 characters and the edge of the box
  wide_row :
      (label v : Bytes)
      → length label ≡ 11
      → length v ≡ 26
      → length (label ++ (v ++ codes " |")) ≡ 39
  wide_row label v l w =
      omega (arith, length-append label (v ++ codes " |"), length-append v (codes " |"))

  count_row :
      (label : Bytes) (n : ℕ)
      → length label ≡ 11
      → n < 2 ^ 32
      → length (label ++ (left_u 26 n ++ codes " |")) ≡ 39
  count_row label n l h =
      wide_row label (left_u 26 n) l (left_u_width 26 n (omega arith) (omega arith))

  length-buffer_row :
      (n : ℕ)
      → n < 1000
      → length (
          codes "| Buffer:  "
          ++ (left_u 3 n ++ (codes " / " ++ (left_d 21 (pos screen_fifo_size) ++ codes " |"))))
        ≡ 40
  length-buffer_row n h =
      let used = left_u_width 3 n (omega arith) (omega arith) in
      let size = left_d_width 21 screen_fifo_size (omega arith) (omega arith) in
      let rest = left_d 21 (pos screen_fifo_size) ++ codes " |" in
      omega (
        arith,
        used,
        size,
        length-append (left_u 3 n) (codes " / " ++ rest),
        length-append (left_d 21 (pos screen_fifo_size)) (codes " |"),
      )

  -- The box of the status does not close: for a snapshot whose fields fit their types, with angles
  -- of at most 180 and fewer than 1000 movements in the buffer, and bars of 32 characters, the
  -- borders and the bars are 38 characters wide, but the lines of the mode and the counts 39 and
  -- that of the buffer 40.
  box_widths :
      (pan_bar tilt_bar tilt2_bar : List ℕ) (snap : Snapshot) (status_msg : Bytes)
      → length pan_bar ≡ 32
      → length tilt_bar ≡ 32
      → length tilt2_bar ≡ 32
      → snap.pan_angle ≤ 180
      → snap.tilt_angle ≤ 180
      → snap.tilt2_angle ≤ 180
      → snap.buffer_count < 1000
      → Fits snap
      → map (λ row. length row.1) (take 12 (render f pan_bar tilt_bar tilt2_bar snap status_msg))
        ≡ 38 ∷ 38 ∷ 38 ∷ 39 ∷ 38 ∷ 38 ∷ 38 ∷ 40 ∷ 39 ∷ 39 ∷ 39 ∷ 38 ∷ []
  unfolding render
  box_widths pan_bar tilt_bar tilt2_bar snap status_msg p t t2 pa ta t2a few fits =
      let mode =
        wide_row (codes "| Mode:    ") (left_s 26 (mode_name snap.mode)) refl
          (left_s_width 26 _ (length-mode_name snap.mode)) in
      let pan = length-bar_row (codes "| Pan:     ") pan_bar snap.pan_angle refl p pa in
      let tilt = length-bar_row (codes "| Tilt:    ") tilt_bar snap.tilt_angle refl t ta in
      let tilt2 = length-bar_row (codes "| Tilt2:   ") tilt2_bar snap.tilt2_angle refl t2 t2a in
      let buffer = length-buffer_row snap.buffer_count few in
      let moves = count_row (codes "| Moves:   ") snap.total_moves refl fits.total_moves in
      let replays = count_row (codes "| Replays: ") snap.total_replays refl fits.total_replays in
      let irqs = count_row (codes "| IRQs:    ") snap.irq_count refl fits.irq_count in
      λ i.
        38
        ∷ 38
        ∷ 38
        ∷ mode i
        ∷ pan i
        ∷ tilt i
        ∷ tilt2 i
        ∷ buffer i
        ∷ moves i
        ∷ replays i
        ∷ irqs i
        ∷ 38
        ∷ []
