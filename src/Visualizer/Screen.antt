-- ===== src/Visualizer/Screen.antt =====
-- `echo_visualizer_render` of app/echo_visualizer.c: the lines that it writes, with their rows.
-- Each begins in column 2. How ncurses fills a field is a parameter.

use team9osdriver.Prelude.{
  ℕ, ◌^◌, ◌≤◌, ◌<◌, ◌≡◌, List, [], ◌∷◌, ◌++◌, ℤ, pos, ◌==◌, if◌then◌else◌, length,
}
use team9osdriver.Text.{Bytes, codes}
use team9osdriver.Chardev.{Snapshot}
use team9osdriver.Visualizer.{angle_bar}

-- What `mvprintw` writes for `%-Ws`, `%Wu`, `%-Wu` and `%-Wd`: a text or a number that fits the
-- width W takes just that.
pub record Fields : Type 0 where
  pub left_s : ℕ → Bytes → Bytes
  pub right_u : ℕ → ℕ → Bytes
  pub left_u : ℕ → ℕ → Bytes
  pub left_d : ℕ → ℤ → Bytes
  pub left_s_width : (w : ℕ) (s : Bytes) → length s ≤ w → length (left_s w s) ≡ w
  pub right_u_width : (w n : ℕ) → n < 10 ^ w → 1 ≤ w → length (right_u w n) ≡ w
  pub left_u_width : (w n : ℕ) → n < 10 ^ w → 1 ≤ w → length (left_u w n) ≡ w
  pub left_d_width : (w n : ℕ) → n < 10 ^ w → 1 ≤ w → length (left_d w (pos n)) ≡ w

-- `ECHO_FIFO_SIZE`, which the screen defines again
abbrev pub screen_fifo_size : ℕ
screen_fifo_size = 256

abbrev pub mode_name : ℕ → Bytes
mode_name mode =
    if mode == 0
    then codes "IDLE"
    else if mode == 1
    then codes "TEACH"
    else if mode == 2
    then codes "REPLAY"
    else codes "UNKNOWN"

-- what `%s` prints of a buffer
unfoldable pub c_string : List ℕ → Bytes
c_string [] = []
c_string (c ∷ s) = let rest = c_string s in if c == 0 then [] else c ∷ rest

abbrev border : Bytes
border = codes "+------------------------------------+"

module _ (f : Fields) where
  open f use {left_s, right_u, left_u, left_d}

  -- a bar with its angle behind the label; `stack` is what its buffer held
  unfoldable pub bar_row : Bytes → List ℕ → ℕ → Bytes
  unfolding c_string
  bar_row label stack angle =
      label ++ (c_string (angle_bar stack angle) ++ (codes " " ++ (right_u 3 angle ++ codes "  |")))

  unfoldable pub render : List ℕ → List ℕ → List ℕ → Snapshot → Bytes → List (ℕ × Bytes)
  unfolding bar_row
  render pan_bar tilt_bar tilt2_bar snap status_msg =
      (1, border)
      ∷ (2, codes "|       PROJECT ECHO STATUS          |")
      ∷ (3, border)
      ∷ (4, codes "| Mode:    " ++ (left_s 26 (mode_name snap.mode) ++ codes " |"))
      ∷ (5, bar_row (codes "| Pan:     ") pan_bar snap.pan_angle)
      ∷ (6, bar_row (codes "| Tilt:    ") tilt_bar snap.tilt_angle)
      ∷ (7, bar_row (codes "| Tilt2:   ") tilt2_bar snap.tilt2_angle)
      ∷ (
        8,
        codes "| Buffer:  "
            ++ (left_u 3 snap.buffer_count
                ++ (codes " / " ++ (left_d 21 (pos screen_fifo_size) ++ codes " |"))),
      )
      ∷ (9, codes "| Moves:   " ++ (left_u 26 snap.total_moves ++ codes " |"))
      ∷ (10, codes "| Replays: " ++ (left_u 26 snap.total_replays ++ codes " |"))
      ∷ (11, codes "| IRQs:    " ++ (left_u 26 snap.irq_count ++ codes " |"))
      ∷ (12, border)
      ∷ (14, codes "Controls:")
      ∷ (15, codes "  [1/t] Teach   [2/r] Replay   [3/s] Stop")
      ∷ (16, codes "  [6] Reset     [q] Quit")
      ∷ (18, codes "Status: " ++ status_msg)
      ∷ []
