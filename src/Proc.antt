-- ===== src/Proc.antt =====
-- module/echo_proc.c: /proc/echo_stats. What `seq_printf` writes for a number is not code of the
-- driver: `Printf` has the documented behaviour that the text relies on.
pub mod Create
pub mod Show
use Prim.Native.Char.{code}
use Prim.Native.String.{String}
use team9osdriver.Prelude.{
  ℕ, ◌-◌, ◌%◌, ◌^◌, ◌≤◌, ◌≡◌, Bool, true, false, List, [], ◌∷◌, ◌++◌, ℤ, pos, negsuc, ltb,
  if◌then◌else◌,
}
use team9osdriver.Types.{Mode, idle, teach, replay, servo_pan, servo_tilt, servo_tilt2, fifo_size}
use team9osdriver.Servo
use team9osdriver.Buffer.{buffer_count, get_replay_count}
use team9osdriver.State.{get_mode, get_total_moves}
use team9osdriver.Joystick.{get_irq_count}
use team9osdriver.Device.{Kernel, Dev, state_ptr, state_ops}
use team9osdriver.Chardev.{get_open_count}
use team9osdriver.Text.{Printf, Bytes, codes, newline}

-- an `int` that holds the bits of a counter
abbrev pub int_of : ℕ → ℤ
int_of n = if ltb n (2 ^ 31) then pos n else negsuc (2 ^ 32 - 1 - n)

abbrev pub mode_str : Mode → Bytes
mode_str teach = codes "TEACH"
mode_str replay = codes "REPLAY"
mode_str idle = codes "IDLE"

-- each line with its end
unfoldable pub unlines : List Bytes → Bytes
unlines [] = []
unlines (l ∷ ls) = l ++ (newline ∷ unlines ls)

module _ (k : Kernel) (p : Printf) where
  open p use {print_u, print_d}

  unfoldable pub stats : Dev k → List Bytes
  stats d =
      codes "=== Project Echo Stats ==="
      ∷ (codes "Mode:           " ++ mode_str (get_mode k.clock state_ptr (state_ops k) d))
      ∷ (codes "Pan Angle:      " ++ print_u (Servo.get_angle d.servo servo_pan))
      ∷ (codes "Tilt Angle:     " ++ print_u (Servo.get_angle d.servo servo_tilt))
      ∷ (codes "Tilt2 Angle:    " ++ print_u (Servo.get_angle d.servo servo_tilt2))
      ∷ (codes "Buffer Used:    "
          ++ (print_u (buffer_count k.kfifo d.buffer) ++ (codes " / " ++ print_u fifo_size)))
      ∷ (codes "Total Moves:    "
          ++ print_d (int_of (get_total_moves k.clock state_ptr (state_ops k) d)))
      ∷ (codes "Total Replays:  " ++ print_d (int_of (get_replay_count k.kfifo d.buffer)))
      ∷ (codes "IRQ Count:      " ++ print_d (int_of (get_irq_count d.joystick)))
      ∷ (codes "Open Count:     " ++ print_d (get_open_count k d))
      ∷ (codes "Sim Mode:       " ++ (if d.sim_mode then codes "yes" else codes "no"))
      ∷ (codes "Timeout:        " ++ (print_u d.timeout_ms ++ codes " ms"))
      ∷ []

  unfoldable pub echo_proc_show : Dev k → Bytes
  unfolding stats unlines
  echo_proc_show d = unlines (stats d)
