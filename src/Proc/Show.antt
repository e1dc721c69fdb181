-- ===== src/Proc/Show.antt =====
-- What the text of /proc/echo_stats tells.
use team9osdriver.Prelude.{
  ℕ, ◌^◌, ◌<◌, ◌≡◌, refl, ap, arith, Bool, true, false, List, [], ◌∷◌, ◌++◌, drop, get_or,
  if◌then◌else◌,
}
use team9osdriver.Types.{Mode, idle, teach, replay, servo_pan, servo_tilt, servo_tilt2}
use team9osdriver.Servo
use team9osdriver.Buffer.{buffer_count, get_replay_count}
use team9osdriver.State.{get_mode, get_total_moves}
use team9osdriver.Joystick.{get_irq_count}
use team9osdriver.Device.{Kernel, Dev, state_ptr, state_ops}
use team9osdriver.Chardev.{build_snapshot, mode_val}
use team9osdriver.Proc.{int_of, mode_str, unlines, stats, echo_proc_show}
use team9osdriver.Text.{Printf, Bytes, Free, Free-append, cut_at, codes, newline, space}

-- no line holds the end of a line
infixr 67 ◌▹◌
data AllFree : List Bytes → Type 0 where
  none_left : AllFree []
  ◌▹◌ : {l : Bytes} {ls : List Bytes} → Free newline l → AllFree ls → AllFree (l ∷ ls)

unlines-inj : (ls ms : List Bytes) → AllFree ls → AllFree ms → unlines ls ≡ unlines ms → ls ≡ ms
unfolding unlines
unlines-inj [] [] f g e = refl
unlines-inj [] ([] ∷ ms) f g e = absurd (ground arith)
unlines-inj [] ((x ∷ l) ∷ ms) f g e = absurd (ground arith)
unlines-inj ([] ∷ ls) [] f g e = absurd (ground arith)
unlines-inj ((x ∷ l) ∷ ls) [] f g e = absurd (ground arith)
unlines-inj (l ∷ ls) (m ∷ ms) (f ▹ fs) (g ▹ gs) e =
    let cut = cut_at newline l m (unlines ls) (unlines ms) f g e in
    cc (cut.0, unlines-inj ls ms fs gs cut.1)

int_of-inj : (m n : ℕ) → m < 2 ^ 32 → n < 2 ^ 32 → int_of m ≡ int_of n → m ≡ n
int_of-inj m n h k e = ground arith

mode_str-inj : (m n : Mode) → mode_str m ≡ mode_str n → m ≡ n
mode_str-inj m n e = ground arith

mode_str-Free : (m : Mode) → Free newline (mode_str m)
mode_str-Free idle = omega arith
mode_str-Free teach = omega arith
mode_str-Free replay = omega arith

module _ (k : Kernel) (p : Printf) where
  open p use {print_u, print_d, print_u_free, print_d_free}

  line-Free : (l v : Bytes) → Free newline l → Free newline v → Free newline (l ++ v)
  line-Free = Free-append newline

  yes_no : (b : Bool) → Free newline (if b then codes "yes" else codes "no")
  yes_no true = omega arith
  yes_no false = omega arith

  stats-AllFree : (d : Dev k) → AllFree (stats k p d)
  unfolding stats
  stats-AllFree d =
      omega arith
      ▹ line-Free (codes "Mode:           ") _ (omega arith) (mode_str-Free _)
      ▹ line-Free (codes "Pan Angle:      ") _ (omega arith) ((print_u_free _).1)
      ▹ line-Free (codes "Tilt Angle:     ") _ (omega arith) ((print_u_free _).1)
      ▹ line-Free (codes "Tilt2 Angle:    ") _ (omega arith) ((print_u_free _).1)
      ▹ line-Free (codes "Buffer Used:    ") _ (omega arith) (
          line-Free (print_u _) _ (print_u_free _).1
            (line-Free (codes " / ") _ (omega arith) (print_u_free _).1))
      ▹ line-Free (codes "Total Moves:    ") _ (omega arith) (print_d_free _)
      ▹ line-Free (codes "Total Replays:  ") _ (omega arith) (print_d_free _)
      ▹ line-Free (codes "IRQ Count:      ") _ (omega arith) (print_d_free _)
      ▹ line-Free (codes "Open Count:     ") _ (omega arith) (print_d_free _)
      ▹ line-Free (codes "Sim Mode:       ") _ (omega arith) (yes_no d.sim_mode)
      ▹ line-Free (codes "Timeout:        ") _ (omega arith)
          (line-Free (print_u _) (codes " ms") (print_u_free _).1 (omega arith))
      ▹ none_left

  -- the value on line `i`, behind the label
  value : ℕ → List Bytes → Bytes
  value i ls = drop 16 (get_or ls i [])

  module _ (d d' : Dev k) (e : stats k p d ≡ stats k p d') where
    same_mode :
        get_mode k.clock state_ptr (state_ops k) d ≡ get_mode k.clock state_ptr (state_ops k) d'
    unfolding stats value
    same_mode = mode_str-inj _ _ (ap (value 1) e)

    same_angles :
        (Servo.get_angle d.servo servo_pan ≡ Servo.get_angle d'.servo servo_pan)
        × (Servo.get_angle d.servo servo_tilt ≡ Servo.get_angle d'.servo servo_tilt)
        × (Servo.get_angle d.servo servo_tilt2 ≡ Servo.get_angle d'.servo servo_tilt2)
    unfolding stats value
    same_angles = (
      p.print_u_inj _ _ (ap (value 2) e),
      p.print_u_inj _ _ (ap (value 3) e),
      p.print_u_inj _ _ (ap (value 4) e),
    )

    same_count : buffer_count k.kfifo d.buffer ≡ buffer_count k.kfifo d'.buffer
    unfolding stats value
    same_count =
        p.print_u_inj _ _
          (cut_at space _ _ _ _ (print_u_free _).0 (print_u_free _).0 (ap (value 5) e)).0

    same_counters :
        (int_of d.state.total_moves ≡ int_of d'.state.total_moves)
        × (int_of d.buffer.replay_count ≡ int_of d'.buffer.replay_count)
        × (int_of d.joystick.irq_count ≡ int_of d'.joystick.irq_count)
    unfolding stats value get_total_moves get_replay_count get_irq_count
    same_counters = (
      p.print_d_inj _ _ (ap (value 6) e),
      p.print_d_inj _ _ (ap (value 7) e),
      p.print_d_inj _ _ (ap (value 8) e),
    )

  -- The counters of a device are 32 bits wide.
  pub record Counters (d : Dev k) : Type 0 where
    pub moves : d.state.total_moves < 2 ^ 32
    pub replays : d.buffer.replay_count < 2 ^ 32
    pub irqs : d.joystick.irq_count < 2 ^ 32

  -- The text of /proc/echo_stats tells all that a snapshot tells: devices with counters of 32 bits
  -- whose texts are the same have the same snapshot.
  pub show_tells_snapshot :
      (d d' : Dev k)
      → Counters d
      → Counters d'
      → echo_proc_show k p d ≡ echo_proc_show k p d'
      → build_snapshot k d ≡ build_snapshot k d'
  unfolding echo_proc_show build_snapshot get_total_moves get_replay_count get_irq_count
  show_tells_snapshot d d' c c' e =
      let rows = unlines-inj (stats k p d) (stats k p d') (stats-AllFree d) (stats-AllFree d') e in
      let angles = same_angles d d' rows in
      let counters = same_counters d d' rows in
      λ i. record {
        mode = mode_val (same_mode d d' rows i);
        pan_angle = angles.0 i;
        tilt_angle = angles.1 i;
        tilt2_angle = angles.2 i;
        buffer_count = same_count d d' rows i;
        total_moves = int_of-inj _ _ c.moves c'.moves counters.0 i;
        total_replays = int_of-inj _ _ c.replays c'.replays counters.1 i;
        irq_count = int_of-inj _ _ c.irqs c'.irqs counters.2 i;
      }
