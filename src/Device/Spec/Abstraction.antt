-- ===== src/Device/Spec/Abstraction.antt =====
-- What a device is as a robot of Device/Spec.
use team9osdriver.Prelude.{
  ℕ, ◌≤◌, ◌≡◌, arith, Bool, true, false, Option, none, some, List, [], ◌∷◌, length, ℤ, pos, negsuc,
}
use team9osdriver.Types.{fifo_size, servo_max}
use team9osdriver.Servo.{Servo, set_angle, get_angle}
use team9osdriver.Servo.Angles.{IsValid, get_angle-set_angle}
use team9osdriver.State.{clamp_angle}
use team9osdriver.State.Clamp.{clamp_angle_lem}
use team9osdriver.Device.{Kernel, Dev}
use team9osdriver.Device.Events.{Event, input, expire, request, move, work}
use team9osdriver.Device.Spec.{
  Arms, Robot, Happening, press, silence, ask, turn, play, angle_of, aim, clamped,
}

-- the arms of the servos
unfoldable pub arms_of : Servo → Arms
arms_of s = record { base = get_angle s 0; first = get_angle s 1; second = get_angle s 2 }

pub angle_of-arms_of : (s : Servo) (id : ℕ) → angle_of (arms_of s) id ≡ get_angle s id
unfolding arms_of get_angle
angle_of-arms_of s id = ground arith

pub clamped-eq : (cur : ℕ) (delta : ℤ) → cur ≤ servo_max → clamp_angle cur delta ≡ clamped cur delta
clamped-eq cur (pos n) h = (clamp_angle_lem cur n).1
clamped-eq cur (negsuc n) h = omega (arith, (clamp_angle_lem cur n).2)

module _ (k : Kernel) where
  pub arms_of-set_angle :
      (s : Servo) (id angle : ℕ)
      → IsValid s
      → arms_of (set_angle k.i2c s id angle).1 ≡ aim id angle (arms_of s)
  unfolding arms_of
  arms_of-set_angle s id angle v = ground (
    arith,
    get_angle-set_angle k.i2c s id angle 0 v,
    get_angle-set_angle k.i2c s id angle 1 v,
    get_angle-set_angle k.i2c s id angle 2 v,
  )

  abbrev pub is_some : Option ℕ → Bool
  is_some none = false
  is_some (some _) = true

  -- what a device is as a robot
  unfoldable pub robot_of : Dev k → Robot
  robot_of d = record {
    mode = d.state.mode;
    arms = arms_of d.servo;
    recording = k.kfifo.entries d.buffer.move_fifo;
    last_move = d.state.last_move_time;
    armed = is_some d.state.inactivity_timer;
    queued = d.buffer.work_pending;
    moves = d.state.total_moves;
    replays = d.buffer.replay_count;
  }

  abbrev pub told : Event k → Happening
  told (input now id delta) = press now id delta
  told expire = silence
  told (request now m) = ask now m
  told (move id angle) = turn id angle
  told (work _ _) = play

  -- What runs while the worker sleeps leaves the servos, the state and the recording alone.
  abbrev pub Still : (ℕ → Dev k → Dev k) → Type 0
  Still msleep =
      (n : ℕ) (d : Dev k)
      → ((msleep n d).servo ≡ d.servo)
        × ((msleep n d).state ≡ d.state)
        × ((msleep n d).buffer ≡ d.buffer)

  -- A run of the work has memory for 256 movements, and nothing disturbs it in its sleeps.
  abbrev pub Quiet : Event k → Type 0
  Quiet (work msleep none) = ⊥
  Quiet (work msleep (some moves)) = Still msleep × (length moves ≡ fifo_size)
  Quiet _ = Unit {0}

  abbrev pub AllQuiet : List (Event k) → Type 0
  AllQuiet [] = Unit {0}
  AllQuiet (e ∷ es) = Quiet e × AllQuiet es

  abbrev pub told_all : List (Event k) → List Happening
  told_all [] = []
  told_all (e ∷ es) = told e ∷ told_all es
