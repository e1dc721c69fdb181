-- ===== src/Tests/Printed.antt =====
-- Decimal digits meet the laws of the numbers that the kernel prints, and the text of
-- /proc/echo_stats.
use team9osdriver.Prelude.{
  ℕ, zero, suc, ◌+◌, ◌-◌, ◌*◌, ◌/◌, ◌%◌, ◌<◌, ◌≡◌, refl, ap, ◌∙◌, sym, subst, arith, drop, true, [],
  ◌∷◌, ℤ, pos, negsuc, ltb, if◌then◌else◌,
}
use team9osdriver.Device.{Dev}
use team9osdriver.Chardev.{build_snapshot, get_open_count}
use team9osdriver.Servo.{get_angle}
use team9osdriver.Buffer.{buffer_count, get_replay_count}
use team9osdriver.State.{get_mode, get_total_moves}
use team9osdriver.Joystick.{get_irq_count}
use team9osdriver.Proc.{echo_proc_show}
use team9osdriver.Text.{Printf, Bytes, Free, codes, newline, space}
use team9osdriver.Proc.Show.{show_tells_snapshot}
use team9osdriver.Tests.Fixture.{test_kernel, teaching}

unfoldable pub digits : ℕ → ℕ → Bytes → Bytes
digits zero n out = out
digits (suc fuel) n out =
    let rest = digits fuel (n / 10) ((48 + n % 10) ∷ out) in
    if ltb n 10 then (48 + n) ∷ out else rest

read : ℕ → Bytes → ℕ
read acc [] = acc
read acc (c ∷ s) = read (acc * 10 + (c - 48)) s

read-digits : (fuel n : ℕ) (out : Bytes) → n < fuel → read 0 (digits fuel n out) ≡ read n out
unfolding digits read
read-digits zero n out h = absurd (omega arith)
read-digits (suc fuel) n out h = ground (arith, read-digits fuel (n / 10) ((48 + n % 10) ∷ out))

digits-Free : (c fuel n : ℕ) (out : Bytes) → c < 48 → Free c out → Free c (digits fuel n out)
unfolding digits
digits-Free c zero n out h f = f
digits-Free c (suc fuel) n out h f =
    ground (arith, digits-Free c fuel (n / 10) ((48 + n % 10) ∷ out) h)

unfoldable pub decimal : ℕ → Bytes
decimal n = digits (suc n) n []

decimal-inj : (m n : ℕ) → decimal m ≡ decimal n → m ≡ n
unfolding decimal read
decimal-inj m n e =
    sym (read-digits (suc m) m [] (omega arith))
    ∙ ap (read 0) e
    ∙ read-digits (suc n) n [] (omega arith)

decimal-Free : (c n : ℕ) → c < 48 → Free c (decimal n)
unfolding decimal
decimal-Free c n h = digits-Free c (suc n) n [] h tt

unfoldable pub signed : ℤ → Bytes
unfolding decimal
signed (pos n) = decimal n
signed (negsuc n) = b'-' ∷ decimal (suc n)

-- no number without a sign begins with one
unsigned : (n : ℕ) (s : Bytes) → decimal n ≡ b'-' ∷ s → ⊥
unsigned n s e = (subst (Free b'-') e (decimal-Free b'-' n (omega arith))).0 refl

signed-inj : (i j : ℤ) → signed i ≡ signed j → i ≡ j
unfolding signed
signed-inj (pos m) (pos n) e = ap pos (decimal-inj m n e)
signed-inj (pos m) (negsuc n) e = absurd (unsigned m _ e)
signed-inj (negsuc m) (pos n) e = absurd (unsigned n _ (sym e))
signed-inj (negsuc m) (negsuc n) e = ground (arith, decimal-inj (suc m) (suc n) (ap (drop 1) e))

signed-Free : (i : ℤ) → Free newline (signed i)
unfolding signed
signed-Free (pos n) = decimal-Free newline n (omega arith)
signed-Free (negsuc n) = (omega arith, decimal-Free newline (suc n) (omega arith))

abbrev decimal_printf : Printf
decimal_printf = record {
  print_u = decimal;
  print_d = signed;
  print_u_inj = decimal-inj;
  print_d_inj = signed-inj;
  print_u_free = λ n. (decimal-Free space n (omega arith), decimal-Free newline n (omega arith));
  print_d_free = signed-Free;
}

first_lines :
    echo_proc_show test_kernel decimal_printf teaching
    ≡ codes
        "=== Project Echo Stats ===\nMode:           TEACH\nPan Angle:      90\nTilt Angle:     90\nTilt2 Angle:    90\nBuffer Used:    2 / 256\nTotal Moves:    2\nTotal Replays:  0\nIRQ Count:      0\nOpen Count:     1\nSim Mode:       yes\nTimeout:        5000 ms\n"
unfolding echo_proc_show decimal digits signed get_mode get_angle buffer_count get_total_moves
    get_replay_count get_irq_count get_open_count
first_lines = refl

-- the same, with a reader that has been told
abbrev told : Dev test_kernel
told = record teaching { new_data_avail = true }

show_tells_snapshot_example : build_snapshot test_kernel teaching ≡ build_snapshot test_kernel told
unfolding echo_proc_show get_mode get_angle buffer_count get_total_moves get_replay_count
    get_irq_count get_open_count
show_tells_snapshot_example =
    show_tells_snapshot test_kernel decimal_printf teaching told
      (record { moves = omega arith; replays = omega arith; irqs = omega arith })
      (record { moves = omega arith; replays = omega arith; irqs = omega arith }) refl
