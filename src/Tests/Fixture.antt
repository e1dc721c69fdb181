-- ===== src/Tests/Fixture.antt =====
-- A kernel to test with: a kfifo over lists, a clock that counts milliseconds, and a bus.
use team9osdriver.Prelude.{
  ℕ, zero, suc, ◌≤◌, ◌<◌, ◌≡◌, refl, ap, ◌∙◌, Bool, true, false, Option, none, some, List, [], ◌∷◌,
  ◌++◌, arith, pos, negsuc, length, length-append, take, drop, replicate, ◌==◌, sub_ℕ,
}
use team9osdriver.Types.{Mode, idle, teach, replay, Move}
use team9osdriver.Kernel.{Kfifo}
use team9osdriver.Servo.{I2c, Servo}
use team9osdriver.Servo.Bus.{put}
use team9osdriver.Joystick.{Joystick}
use team9osdriver.Device.{Now, Kernel, Dev}

abbrev put_last : List Move → Move → List Move
put_last f m = take 256 f ++ (m ∷ [])

abbrev take_first : List Move → Option (Move × List Move)
take_first [] = none
take_first (m ∷ f) = some (m, take 255 f)

pub length-take_le : (n : ℕ) (xs : List Move) → length (take n xs) ≤ n
length-take_le zero xs = omega arith
length-take_le (suc n) [] = omega arith
length-take_le (suc n) (x ∷ xs) = omega (arith, length-take_le n xs)

take_of_le : (n : ℕ) (xs : List Move) → length xs ≤ n → take n xs ≡ xs
take_of_le zero [] h = refl
take_of_le zero (x ∷ xs) h = absurd (omega arith)
take_of_le (suc n) [] h = refl
take_of_le (suc n) (x ∷ xs) h = ap (λ l. x ∷ l) (take_of_le n xs (omega arith))

length-drop_le : (n : ℕ) (xs : List Move) → length (drop n xs) ≤ length xs
length-drop_le zero xs = omega arith
length-drop_le (suc n) [] = omega arith
length-drop_le (suc n) (x ∷ xs) = omega (arith, length-drop_le n xs)

pub put_law :
    (f : List Move) (m : Move)
    → length (take 256 f) < 256
    → take 256 (put_last f m) ≡ take 256 f ++ (m ∷ [])
put_law f m h = take_of_le 256 (put_last f m) (omega (arith, length-append (take 256 f) (m ∷ [])))

pub get_law :
    (f : List Move) (m : Move) (ms : List Move)
    → take 256 f ≡ m ∷ ms
    → (f' : List Move) × (take_first f ≡ some (m, f')) × (take 256 f' ≡ ms)
get_law [] m ms e = cc
get_law (x ∷ f) m ms e = (
  take 255 f,
  cc,
  take_of_le 256 (take 255 f) (omega (arith, length-take_le 255 f)) ∙ ap (drop 1) e,
)

pub skip_law : (f : List Move) → take 256 (drop 1 (take 256 f)) ≡ drop 1 (take 256 f)
skip_law f =
    take_of_le 256 (drop 1 (take 256 f))
      (omega (arith, length-drop_le 1 (take 256 f), length-take_le 256 f))

abbrev pub list_kfifo : Kfifo
list_kfifo = record {
  Fifo = List Move;
  entries = take 256;
  kfifo_len = λ f. length (take 256 f);
  kfifo_is_full = λ f. length (take 256 f) == 256;
  kfifo_put = put_last;
  kfifo_get = take_first;
  kfifo_skip = λ f. drop 1 (take 256 f);
  kfifo_reset = λ f. [];
  entries_fit = length-take_le 256;
  len_lem = λ f. refl;
  is_full_lem = λ f. refl;
  put_lem = put_law;
  get_lem = get_law;
  skip_lem = skip_law;
  reset_lem = λ f. refl;
}

abbrev pub quiet_bus : I2c
quiet_bus c w = pos 0

-- A bus that has lost its chip, as the error EREMOTEIO.
abbrev pub dead_bus : I2c
dead_bus c w = negsuc 120

abbrev pub test_kernel : Kernel
test_kernel = record {
  kfifo = list_kfifo;
  clock = record { ktime_ms_delta = sub_ℕ; msecs_to_jiffies = λ ms. ms };
  i2c = quiet_bus;
}

abbrev pub sim_servo : Servo
sim_servo = record { client = []; sim_mode = true; angles = 90 ∷ 90 ∷ 90 ∷ [] }

-- the chip after the three channels were set for 90 degrees
abbrev pub powered_servo : Servo
powered_servo = record {
  client =
      put 9 1
      ∷ put 8 51
      ∷ put 7 0
      ∷ put 6 0
      ∷ put 13 1
      ∷ put 12 51
      ∷ put 11 0
      ∷ put 10 0
      ∷ put 17 1
      ∷ put 16 51
      ∷ put 15 0
      ∷ put 14 0
      ∷ [];
  sim_mode = false;
  angles = 90 ∷ 90 ∷ 90 ∷ [];
}

abbrev pub turn : ℕ → Move
turn angle = record { servo_id = 0; angle = angle; delay_ms = 20 }

abbrev free_joystick : Joystick
free_joystick = record { last_irq_jiffies = 0 ∷ 0 ∷ 0 ∷ 0 ∷ []; irq_locked = false; irq_count = 0 }

-- a device in a mode, with two movements recorded
abbrev device_in : Mode → Option ℕ → Bool → Dev test_kernel
device_in mode timer pending = record {
  servo = sim_servo;
  buffer = record {
    move_fifo = turn 95 ∷ turn 100 ∷ [];
    work_pending = pending;
    replay_speed = 1;
    replay_count = 0;
  };
  state = record {
    mode = mode;
    inactivity_timer = timer;
    timeout_ms = 5000;
    last_move_time = 100;
    total_moves = 2;
  };
  joystick = free_joystick;
  open_count = pos 1;
  new_data_avail = false;
  replay_finished = false;
  sim_mode = true;
  timeout_ms = 5000;
}

abbrev pub resting : Dev test_kernel
resting = device_in idle none false

abbrev pub teaching : Dev test_kernel
teaching = device_in teach (some 5100) false

abbrev pub replaying : Dev test_kernel
replaying = device_in replay none true

abbrev pub at_250 : Now
at_250 = record { start = 240; moved = 250; jiffies = 250 }

-- memory as `kmalloc_array` may hand it out
abbrev pub dirty : List Move
dirty = replicate 256 (record { servo_id = 7; angle = 777; delay_ms = 7 })
