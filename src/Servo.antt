-- ===== src/Servo.antt =====
-- module/echo_servo.c: the angles of the three servos and the writes to the PCA9685.
pub mod Pwm
pub mod Angles
pub mod Chip
pub mod Bus
pub mod Create
pub mod Power
pub mod Ready
use team9osdriver.Prelude.{
  ℕ, ◌+◌, ◌*◌, ◌/◌, ◌%◌, Bool, List, ◌∷◌, ◌&&◌, ℤ, pos, err, is_neg, is_zero, ltb, leb, ◌==◌,
  if◌then◌else◌, set, get_or,
}
use team9osdriver.Types.{
  u8, u16, num_servos, servo_pan, servo_tilt2, servo_center, servo_max, einval,
}

-- One call of `i2c_smbus_write_byte_data`: a register and the byte that it is given.
pub record RegWrite : Type 0 where
  pub reg : ℕ  -- u8
  pub val : ℕ  -- u8

-- `struct i2c_client`, as the writes that its chip was sent, the newest first.
abbrev pub Client : Type 0
Client = List RegWrite

-- `i2c_smbus_write_byte_data`, which is not code of the driver: what the bus answers to a write,
-- given the writes before it.
abbrev pub I2c : Type 0
I2c = Client → RegWrite → ℤ

-- `struct echo_servo_ctx`. The lock is held over each operation from its first access on.
pub record Servo : Type 0 where
  pub client : Client
  pub sim_mode : Bool
  pub angles : List ℕ  -- u16 pos[ECHO_NUM_SERVOS]

abbrev reg_led0_on_l : ℕ
reg_led0_on_l = 0x06

abbrev ticks_min : ℕ
ticks_min = 205

abbrev ticks_range : ℕ
ticks_range = 205

unfoldable pub angle_to_pwm : ℕ → ℕ
angle_to_pwm angle = u16 (ticks_min + angle * ticks_range / 180)

module _ (i2c : I2c) where
  unfoldable pub pca9685_write_byte : Client → ℕ → ℕ → ℤ × Client
  pca9685_write_byte c reg val =
      let w : RegWrite = record { reg = u8 reg; val = u8 val } in (i2c c w, w ∷ c)

  unfoldable pub pca9685_set_pwm : Client → ℕ → ℕ → ℕ → ℤ × Client
  unfolding pca9685_write_byte
  pca9685_set_pwm c channel on off =
      let base = u8 (reg_led0_on_l + 4 * channel) in
      let (r0, c0) = pca9685_write_byte c base (on % 256) in
      let (r1, c1) = pca9685_write_byte c0 (base + 1) (on / 256 % 16) in
      let (r2, c2) = pca9685_write_byte c1 (base + 2) (off % 256) in
      let last = pca9685_write_byte c2 (base + 3) (off / 256 % 16) in
      if is_neg r0
      then (r0, c0)
      else if is_neg r1
      then (r1, c1)
      else if is_neg r2
      then (r2, c2)
      else last

  unfoldable pub set_angle : Servo → ℕ → ℕ → ℤ × Servo
  set_angle s servo_id angle =
      let clamped = if ltb servo_max angle then servo_max else angle in
      let own = set s.angles servo_id clamped in
      let angles' = if servo_id == servo_pan then set own servo_tilt2 clamped else own in
      let ticks = angle_to_pwm clamped in
      let (ret, c) = pca9685_set_pwm s.client servo_id 0 ticks in
      let (ret', c') =
        if servo_id == servo_pan && is_zero ret
        then pca9685_set_pwm c servo_tilt2 0 ticks
        else (ret, c) in
      if leb num_servos servo_id
      then (err einval, s)
      else if s.sim_mode
      then (pos 0, record s { angles = angles' })
      else (ret', record s { angles = angles'; client = c' })

unfoldable pub get_angle : Servo → ℕ → ℕ
get_angle s servo_id =
    if leb num_servos servo_id then servo_center else get_or s.angles servo_id servo_center
