-- ===== src/Visualizer.antt =====
-- app/echo_visualizer.c: the bars. Visualizer/Screen has the lines of the screen.
pub mod Bar
pub mod Screen
pub mod Widths
use team9osdriver.Prelude.{
  ℕ, zero, suc, ◌+◌, ◌*◌, ◌/◌, List, ℤ, pos, negsuc, ltb, if◌then◌else◌, set,
}

-- '[', ']', '#' and '-'
abbrev pub open_char : ℕ
open_char = 91

abbrev pub close_char : ℕ
close_char = 93

abbrev pub full_char : ℕ
full_char = 35

abbrev pub empty_char : ℕ
empty_char = 45

unfoldable pub clamp_filled : ℤ → ℕ → ℕ
clamp_filled (pos n) bar_len = if ltb bar_len n then bar_len else n
clamp_filled (negsuc n) bar_len = 0

-- the loop from index `i` on, `n` rounds left
unfoldable pub fill_bar : ℕ → ℕ → ℕ → List ℕ → List ℕ
fill_bar zero i filled buf = buf
fill_bar (suc n) i filled buf =
    fill_bar n (suc i) filled (set buf (1 + i) (if ltb i filled then full_char else empty_char))

-- `set` outside the list changes nothing, where C would write outside the buffer.
unfoldable pub format_bar : List ℕ → ℤ → ℕ → List ℕ
unfolding clamp_filled fill_bar
format_bar buf filled bar_len =
    let buf1 = fill_bar bar_len 0 (clamp_filled filled bar_len) (set buf 0 open_char) in
    set (set buf1 (1 + bar_len) close_char) (2 + bar_len) 0

abbrev pub bar_len : ℕ
bar_len = 18

-- the bar that is drawn for an angle, in its buffer on the stack
unfoldable pub angle_bar : List ℕ → ℕ → List ℕ
angle_bar stack angle = format_bar stack (pos (angle * bar_len / 180)) bar_len
