-- ===== src/Servo/Create.antt =====
-- `pca9685_init_hw`, `echo_servo_create` and `echo_servo_destroy` of module/echo_servo.c.
use team9osdriver.Prelude.{
  Bool-cases, inl, inr, ℕ, refl, Bool, true, false, Option, none, some, [], ◌∷◌, ℤ, err, is_neg,
  if◌then◌else◌, not,
}
use team9osdriver.Types.{servo_pan, servo_tilt, servo_tilt2, servo_center, enomem, enodev}
use team9osdriver.Servo.{I2c, Client, Servo, pca9685_write_byte, pca9685_set_pwm, angle_to_pwm}
use team9osdriver.Resources.{
  Held, servo_mem, i2c_adapter, i2c_client, acquire, release, release-acquire, Created, created,
  failed, Balanced,
}

abbrev pub reg_mode1 : ℕ
reg_mode1 = 0x00

abbrev pub reg_prescale : ℕ
reg_prescale = 0xfe

abbrev pub mode1_sleep : ℕ
mode1_sleep = 0x10

abbrev pub mode1_ai : ℕ
mode1_ai = 0x20

-- MODE1_RESTART | MODE1_AI
abbrev pub mode1_restart_ai : ℕ
mode1_restart_ai = 0xa0

abbrev pub prescale_50hz : ℕ
prescale_50hz = 0x79

-- What the kernel answers to the calls of `echo_servo_create`: whether there is memory, whether
-- there is an adapter, and the error of the new client, if it has one.
pub record ServoEnv : Type 0 where
  pub memory : Bool
  pub adapter : Bool
  pub client_error : Option ℤ

module _ (i2c : I2c) where
  unfoldable pub pca9685_init_hw : Client → ℤ × Client
  unfolding pca9685_write_byte
  pca9685_init_hw c =
      let (r0, c0) = pca9685_write_byte i2c c reg_mode1 mode1_sleep in
      let (r1, c1) = pca9685_write_byte i2c c0 reg_prescale prescale_50hz in
      let (r2, c2) = pca9685_write_byte i2c c1 reg_mode1 mode1_ai in
      let last = pca9685_write_byte i2c c2 reg_mode1 mode1_restart_ai in
      if is_neg r0
      then (r0, c0)
      else if is_neg r1
      then (r1, c1)
      else if is_neg r2
      then (r2, c2)
      else last

  -- three calls of `pca9685_set_pwm`, whose results are not looked at
  unfoldable pub set_all : ℕ → Client → Client
  set_all ticks c =
      let c0 = (pca9685_set_pwm i2c c servo_pan 0 ticks).1 in
      let c1 = (pca9685_set_pwm i2c c0 servo_tilt 0 ticks).1 in
      (pca9685_set_pwm i2c c1 servo_tilt2 0 ticks).1

  unfoldable pub servo_fresh : Bool → Client → Servo
  servo_fresh sim_mode c = record {
    client = c;
    sim_mode = sim_mode;
    angles = servo_center ∷ servo_center ∷ servo_center ∷ [];
  }

  unfoldable pub servo_start : Held → Created Servo × Held
  unfolding pca9685_init_hw set_all servo_fresh
  servo_start h =
      let (ret, c) = pca9685_init_hw [] in
      if is_neg ret
      then (failed ret, release servo_mem (release i2c_adapter (release i2c_client h)))
      else (created (servo_fresh false (set_all (angle_to_pwm servo_center) c)), h)

  unfoldable pub servo_create : ServoEnv → Bool → Held → Created Servo × Held
  unfolding servo_start servo_fresh
  servo_create env sim_mode h =
      let h1 = acquire servo_mem h in
      let h2 = acquire i2c_adapter h1 in
      if not env.memory
      then (failed (err enomem), h)
      else if sim_mode
      then (created (servo_fresh true []), h1)
      else if not env.adapter
      then (failed (err enodev), release servo_mem h1)
      else elim (env.client_error) [
        | some ret ↦ (failed ret, release servo_mem (release i2c_adapter h2))
        | none ↦ servo_start (acquire i2c_client h2)
      ]

  -- The outputs are stopped before the chip is given back. A context that is not in simulation has its
  -- client and its adapter, since create returns no other, so the tests of the two pointers pass.
  unfoldable pub servo_destroy : Servo → Held → Client × Held
  unfolding set_all
  servo_destroy s h =
      if s.sim_mode
      then (s.client, release servo_mem h)
      else (set_all 0 s.client, release servo_mem (release i2c_adapter (release i2c_client h)))

  abbrev pub servo_gone : Servo → Held → Held
  servo_gone s h = (servo_destroy s h).1

  servo_start-Balanced :
      (h : Held)
      → Balanced servo_gone h
          (servo_start (acquire i2c_client (acquire i2c_adapter (acquire servo_mem h))))
  unfolding servo_start servo_destroy
  servo_start-Balanced h = elim (Bool-cases (is_neg (pca9685_init_hw []).0)) [
    | inl bad ↦
        rw (bad, servo_start)
          (rw (
            release-acquire i2c_client _,
            release-acquire i2c_adapter _,
            release-acquire servo_mem h,
          ))
    | inr good ↦
        rw (good, servo_start)
          (rw (
            release-acquire i2c_client _,
            release-acquire i2c_adapter _,
            release-acquire servo_mem h,
          ))
  ]

  servo_create_cases :
      (m a : Bool) (c : Option ℤ) (sim_mode : Bool) (h : Held)
      → Balanced servo_gone h
          (servo_create (record { memory = m; adapter = a; client_error = c }) sim_mode h)
  unfolding servo_create servo_destroy
  servo_create_cases false a c sim_mode h = refl
  servo_create_cases true a c true h = release-acquire servo_mem h
  servo_create_cases true false c false h = release-acquire servo_mem h
  servo_create_cases true true (some ret) false h =
      rw (release-acquire i2c_adapter _) (release-acquire servo_mem h)
  servo_create_cases true true none false h = servo_start-Balanced h

  -- Whatever the kernel and the bus answer, `echo_servo_create` leaves nothing behind: where it fails
  -- it has given back all that it took, and destroying what it returns gives back the rest.
  pub servo_create-Balanced :
      (env : ServoEnv) (sim_mode : Bool) (h : Held)
      → Balanced servo_gone h (servo_create env sim_mode h)
  servo_create-Balanced env sim_mode h =
      servo_create_cases env.memory env.adapter env.client_error sim_mode h
