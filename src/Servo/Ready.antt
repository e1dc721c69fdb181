-- ===== src/Servo/Ready.antt =====
-- What module/echo_servo.c leaves on the chip when it starts and when it stops.
use team9osdriver.Prelude.{ℕ, ◌≡◌, ◌<◌, ◌≢◌, arith, false, [], is_neg}
use native.Mathlib.Decide.{ℕ_discrete}
use team9osdriver.Types.{num_servos, servo_pan, servo_tilt, servo_tilt2, servo_center}
use team9osdriver.Servo.{
  I2c, Client, Servo, RegWrite, pca9685_write_byte, pca9685_set_pwm, angle_to_pwm, get_angle,
}
use team9osdriver.Servo.Chip.{Pulses, InStep, set_pwm-Pulses, Pulses-set_pwm}
use team9osdriver.Servo.Power.{Chip, chip_after, At50Hz}
use team9osdriver.Servo.Create.{pca9685_init_hw, set_all, servo_destroy}
use team9osdriver.Resources.{Held}

-- A bus that takes every write.
abbrev pub Answers : I2c → Type 0
Answers i2c = (c : Client) (w : RegWrite) → is_neg (i2c c w) ≡ false

module _ (i2c : I2c) (answers : Answers i2c) where
  set_pwm_taken : (c : Client) (ch on off : ℕ) → is_neg (pca9685_set_pwm i2c c ch on off).0 ≡ false
  unfolding pca9685_set_pwm pca9685_write_byte
  set_pwm_taken c ch on off = rw (answers _ _, answers _ _, answers _ _) (answers _ _)

  pulses :
      (ticks : ℕ) (c : Client) (ch : ℕ)
      → ch < 16
      → ticks < 4096
      → Pulses (pca9685_set_pwm i2c c ch 0 ticks).1 ch 0 ticks
  pulses ticks c ch h t =
      set_pwm-Pulses i2c c ch 0 ticks h (omega arith) t (set_pwm_taken c ch 0 ticks)

  pan_last : (ch : ℕ) → ch < num_servos → ch ≢ servo_tilt → ch ≢ servo_tilt2 → ch ≡ servo_pan
  pan_last ch h n1 n2 = omega arith

  set_all-Pulses :
      (ticks : ℕ) (c : Client) (ch : ℕ)
      → ticks < 4096
      → ch < num_servos
      → Pulses (set_all i2c ticks c) ch 0 ticks
  unfolding set_all
  set_all-Pulses ticks c ch t h =
      let c0 = (pca9685_set_pwm i2c c servo_pan 0 ticks).1 in
      let c1 = (pca9685_set_pwm i2c c0 servo_tilt 0 ticks).1 in
      elim (ℕ_discrete ch servo_tilt2) [
        | yes e ↦ rw e (pulses ticks c1 servo_tilt2 (omega arith) t)
        | no n2 ↦
            Pulses-set_pwm i2c c1 servo_tilt2 ch 0 ticks 0 ticks (omega arith) n2
              (elim (ℕ_discrete ch servo_tilt) [
                | yes e ↦ rw e (pulses ticks c0 servo_tilt (omega arith) t)
                | no n1 ↦
                    Pulses-set_pwm i2c c0 servo_tilt ch 0 ticks 0 ticks (omega arith) n1
                      (rw (pan_last ch h n1 n2) (pulses ticks c servo_pan (omega arith) t))
              ])
      ]

  -- Whatever state the chip was in, it is at 50 Hz, and each channel pulses for the angle of its
  -- servo.
  pub record Ready (s : Servo) : Type 0 where
    in_step : InStep s
    middle : (ch : ℕ) → ch < num_servos → get_angle s ch ≡ 90
    at_50_hz : (before : Chip) → At50Hz (chip_after s.client before)

  started : Client
  started = set_all i2c (angle_to_pwm servo_center) (pca9685_init_hw i2c []).1

  -- On a bus that takes every write, `echo_servo_destroy` leaves each channel of the hardware with
  -- the times that stop it: on at tick 0 and off at tick 0.
  servo_destroy-Pulses :
      (s : Servo) (h : Held) (ch : ℕ)
      → s.sim_mode ≡ false
      → ch < num_servos
      → Pulses (servo_destroy i2c s h).0 ch 0 0
  unfolding servo_destroy
  servo_destroy-Pulses s h ch hw c =
      rw (hw, servo_destroy) (set_all-Pulses 0 s.client ch (omega arith) c)
