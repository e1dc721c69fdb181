-- ===== src/Servo/Power.antt =====
-- What the PCA9685 makes of the writes that module/echo_servo.c sends to its MODE1 and PRE_SCALE
-- registers, as its data sheet has it.
use team9osdriver.Prelude.{
  ℕ, ◌+◌, ◌*◌, ◌/◌, ◌%◌, ◌≤◌, ◌<◌, ◌≡◌, [], ◌∷◌, arith, ◌==◌, ◌&&◌, if◌then◌else◌,
}
use team9osdriver.Servo.{I2c, Client, RegWrite, pca9685_set_pwm}

pub record Chip : Type 0 where
  mode1 : ℕ
  prescale : ℕ

-- bit 4 of MODE1: the oscillator is off
abbrev sleep_bit : Chip → ℕ
sleep_bit c = c.mode1 / 16 % 2

-- PRE_SCALE, register 254, is written to only while the oscillator is off.
abbrev take_write : RegWrite → Chip → Chip
take_write w c =
    if w.reg == 0
    then record c { mode1 = w.val }
    else if w.reg == 254 && sleep_bit c == 1
    then record c { prescale = w.val }
    else c

-- the chip behind the writes of a client, from the state that it was in before them
abbrev pub chip_after : Client → Chip → Chip
chip_after [] c = c
chip_after (w ∷ ws) c = take_write w (chip_after ws c)

-- The oscillator runs, on its own clock of 25 MHz, and the prescaler is the nearest one to 50
-- periods of 4096 ticks a second: 25000000 / (4096 * 50) is less than half away from `prescale +
-- 1`.
pub record At50Hz (c : Chip) : Type 0 where
  pub runs : sleep_bit c ≡ 0
  pub own_clock : c.mode1 / 64 % 2 ≡ 0
  pub not_below : 204800 * (2 * c.prescale + 1) ≤ 2 * 25000000
  pub not_above : 2 * 25000000 < 204800 * (2 * c.prescale + 3)

module _ (i2c : I2c) where
  -- The registers of a channel are others.
  pub chip_after-set_pwm :
      (c : Client) (ch on off : ℕ) (before : Chip)
      → ch < 16
      → chip_after (pca9685_set_pwm i2c c ch on off).1 before ≡ chip_after c before
  unfolding pca9685_set_pwm
  chip_after-set_pwm c ch on off before h = ground (arith, h)
