-- ===== src/Tests/Screens.antt =====
-- Fields that are filled with spaces, and the status box at concrete inputs.
use team9osdriver.Prelude.{
  ℕ, zero, suc, ◌+◌, ◌-◌, ◌/◌, ◌%◌, ◌^◌, ◌≤◌, ◌<◌, ◌≡◌, refl, arith, [], ◌∷◌, ◌++◌, length,
  length-append, replicate, drop, take,
}
use team9osdriver.Text.{Bytes, codes, space}
use team9osdriver.Chardev.{Snapshot}
use team9osdriver.Visualizer.Screen.{Fields, bar_row, c_string, render}
use team9osdriver.Visualizer.{angle_bar, format_bar, fill_bar, clamp_filled}
use team9osdriver.Tests.Printed.{digits, decimal, signed}

length-digits :
    (w fuel n : ℕ) (out : Bytes) → n < 10 ^ w → 1 ≤ w → length (digits fuel n out) ≤ w + length out
unfolding digits
length-digits zero fuel n out h l = absurd (omega arith)
length-digits (suc w) zero n out h l = omega arith
length-digits (suc zero) (suc fuel) n out h l = ground arith
length-digits (suc (suc w)) (suc fuel) n out h l =
    ground
      (arith, length-digits (suc w) fuel (n / 10) ((48 + n % 10) ∷ out) (omega arith) (omega arith))

length-replicate : (n : ℕ) → length (replicate n space) ≡ n
length-replicate zero = refl
length-replicate (suc n) = omega (arith, length-replicate n)

left : ℕ → Bytes → Bytes
left w s = s ++ replicate (w - length s) space

right : ℕ → Bytes → Bytes
right w s = replicate (w - length s) space ++ s

length-left : (w : ℕ) (s : Bytes) → length s ≤ w → length (left w s) ≡ w
unfolding left
length-left w s h =
    omega (arith, length-append s (replicate (w - length s) space), length-replicate (w - length s))

length-right : (w : ℕ) (s : Bytes) → length s ≤ w → length (right w s) ≡ w
unfolding right
length-right w s h =
    omega (arith, length-append (replicate (w - length s) space) s, length-replicate (w - length s))

length-decimal : (w n : ℕ) → n < 10 ^ w → 1 ≤ w → length (decimal n) ≤ w
unfolding decimal
length-decimal w n h l = omega (arith, length-digits w (suc n) n [] h l)

abbrev spaces : Fields
spaces = record {
  left_s = left;
  right_u = λ w n. right w (decimal n);
  left_u = λ w n. left w (decimal n);
  left_d = λ w i. left w (signed i);
  left_s_width = length-left;
  right_u_width = λ w n h l. length-right w (decimal n) (length-decimal w n h l);
  left_u_width = λ w n h l. length-left w (decimal n) (length-decimal w n h l);
  left_d_width = λ w n h l. unfold signed in length-left w (decimal n) (length-decimal w n h l);
}

abbrev snapshot : Snapshot
snapshot = record {
  mode = 1;
  pan_angle = 95;
  tilt_angle = 90;
  tilt2_angle = 180;
  buffer_count = 2;
  total_moves = 12;
  total_replays = 0;
  irq_count = 7;
}

-- the line of the first angle, and the first space behind the mode
pan_line :
    take 1 (drop 4 (render spaces (replicate 32 7) (replicate 32 7) (replicate 32 7) snapshot []))
    ≡ (5, codes "| Pan:     [#########---------]  95  |") ∷ []
unfolding render bar_row c_string angle_bar format_bar fill_bar clamp_filled right decimal digits
pan_line = refl
