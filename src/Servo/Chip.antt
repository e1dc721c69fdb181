-- ===== src/Servo/Chip.antt =====
-- The hardware side of module/echo_servo.c: what the registers of the PCA9685 hold after
-- `pca9685_set_pwm` and `set_angle`. PCA9685 channel `ch` has its four registers from 6 + 4 * ch on.
use team9osdriver.Prelude.{
  ℕ, ◌∙◌, ◌&&◌, ◌+◌, ◌*◌, ◌/◌, ◌%◌, ◌≤◌, ◌<◌, ◌≡◌, inl, inr, ◌≢◌, ◌⊎◌, false, ℤ, pos, [], ◌∷◌,
  Option, none, some, arith, min, ◌==◌, if◌then◌else◌, is_neg, is_zero,
}
use team9osdriver.Servo.Pwm.{angle_to_pwm_range}
use team9osdriver.Servo.Angles.{IsValid, get_angle-set_angle}
use native.Mathlib.Decide.{ℕ_discrete}
use team9osdriver.Types.{num_servos, servo_pan, servo_tilt2, servo_max}
use team9osdriver.Servo.{I2c, Client, Servo, set_angle, get_angle, pca9685_set_pwm, angle_to_pwm}

-- The byte that a register was last sent. The registers of a channel take every write; for the two
-- that do not, see Servo/Power.
abbrev register : Client → ℕ → Option ℕ
register [] r = none
register (w ∷ c) r = if w.reg == r then some w.val else register c r

-- A channel is switched on at tick `on` and off at tick `off` of each period.
pub record Pulses (c : Client) (ch on off : ℕ) : Type 0 where
  pub on_low : register c (6 + 4 * ch) ≡ some (on % 256)
  pub on_high : register c (7 + 4 * ch) ≡ some (on / 256)
  pub off_low : register c (8 + 4 * ch) ≡ some (off % 256)
  pub off_high : register c (9 + 4 * ch) ≡ some (off / 256)

module _ (i2c : I2c) where
  -- If the bus took the writes, the channel pulses as asked.
  pub set_pwm-Pulses :
      (c : Client) (ch on off : ℕ)
      → ch < 16
      → on < 4096
      → off < 4096
      → is_neg (pca9685_set_pwm i2c c ch on off).0 ≡ false
      → Pulses (pca9685_set_pwm i2c c ch on off).1 ch on off
  unfolding pca9685_set_pwm
  set_pwm-Pulses c ch on off h p q ok = ground arith

  register-set_pwm :
      (c : Client) (ch on off r : ℕ)
      → ch < 16
      → (r < 6 + 4 * ch) ⊎ (9 + 4 * ch < r)
      → register (pca9685_set_pwm i2c c ch on off).1 r ≡ register c r
  unfolding pca9685_set_pwm
  register-set_pwm c ch on off r h p = ground arith

-- Each channel pulses for the angle that the driver believes its servo to have.
abbrev pub InStep : Servo → Type 0
InStep s = (ch : ℕ) → ch < num_servos → Pulses s.client ch 0 (angle_to_pwm (get_angle s ch))

module _ (i2c : I2c) where
  pwm_12_bits : (a : ℕ) → a ≤ servo_max → angle_to_pwm a < 4096
  pwm_12_bits a h = omega (arith, angle_to_pwm_range a h)

  pub Pulses-set_pwm :
      (c : Client) (ch ch' on off on' off' : ℕ)
      → ch < 16
      → ch' ≢ ch
      → Pulses c ch' on' off'
      → Pulses (pca9685_set_pwm i2c c ch on off).1 ch' on' off'
  Pulses-set_pwm c ch ch' on off on' off' h ne p = record {
    on_low = register-set_pwm i2c c ch on off (6 + 4 * ch') h (omega arith) ∙ p.on_low;
    on_high = register-set_pwm i2c c ch on off (7 + 4 * ch') h (omega arith) ∙ p.on_high;
    off_low = register-set_pwm i2c c ch on off (8 + 4 * ch') h (omega arith) ∙ p.off_low;
    off_high = register-set_pwm i2c c ch on off (9 + 4 * ch') h (omega arith) ∙ p.off_high;
  }

  -- what `set_angle` does to the client on the hardware
  pub client-set_angle :
      (s : Servo) (id angle : ℕ)
      → s.sim_mode ≡ false
      → id < num_servos
      → let ticks = angle_to_pwm (min angle servo_max) in
        let first = pca9685_set_pwm i2c s.client id 0 ticks in
        let mirrored = pca9685_set_pwm i2c first.1 servo_tilt2 0 ticks in
        ((set_angle i2c s id angle).0, (set_angle i2c s id angle).1.client)
        ≡ (if id == servo_pan && is_zero first.0 then mirrored else first)
  unfolding set_angle
  client-set_angle s id angle hw h = ground arith

  module _ (s : Servo) (id angle : ℕ) (hw : s.sim_mode ≡ false) (v : IsValid s)
      (h : id < num_servos) (st : InStep s) (ok : (set_angle i2c s id angle).0 ≡ pos 0) where
    abbrev ticks : ℕ
    ticks = angle_to_pwm (min angle servo_max)

    abbrev first : ℤ × Client
    first = pca9685_set_pwm i2c s.client id 0 ticks

    abbrev mirrored : ℤ × Client
    mirrored = pca9685_set_pwm i2c first.1 servo_tilt2 0 ticks

    angle_of_set :
        (ch : ℕ)
        → ch < num_servos
        → (ch ≡ id) ⊎ ((id ≡ servo_pan) × (ch ≡ servo_tilt2))
        → get_angle (set_angle i2c s id angle).1 ch ≡ min angle servo_max
    angle_of_set ch k o = ground (arith, get_angle-set_angle i2c s id angle ch v)

    angle_of_other :
        (ch : ℕ)
        → ch < num_servos
        → ch ≢ id
        → (id ≢ servo_pan) ⊎ (ch ≢ servo_tilt2)
        → get_angle (set_angle i2c s id angle).1 ch ≡ get_angle s ch
    angle_of_other ch k o p = ground (arith, get_angle-set_angle i2c s id angle ch v)

    -- The first channel's writes were taken, and the mirror's too if the base moved.
    first_taken : is_neg first.0 ≡ false
    first_taken = ground (arith, client-set_angle s id angle hw h)

    sent_pan :
        id ≡ servo_pan
        → ((set_angle i2c s id angle).1.client ≡ mirrored.1) × (is_neg mirrored.0 ≡ false)
    sent_pan e = ground (arith, client-set_angle s id angle hw h)

    sent_other : id ≢ servo_pan → (set_angle i2c s id angle).1.client ≡ first.1
    sent_other e = ground (arith, client-set_angle s id angle hw h)

    first-Pulses : Pulses first.1 id 0 ticks
    first-Pulses =
        set_pwm-Pulses i2c s.client id 0 ticks (omega arith) (omega arith)
          (pwm_12_bits _ (omega arith)) first_taken

    other-Pulses : id ≢ servo_pan → InStep (set_angle i2c s id angle).1
    other-Pulses np ch k = elim (ℕ_discrete ch id) [
      | yes e ↦ rw (sent_other np, angle_of_set ch k (inl e), e) first-Pulses
      | no ne ↦
          rw (sent_other np, angle_of_other ch k ne (inl np))
            (Pulses-set_pwm s.client id ch 0 ticks 0 _ (omega arith) ne (st ch k))
    ]

    pan-Pulses : id ≡ servo_pan → InStep (set_angle i2c s id angle).1
    pan-Pulses p ch k = elim (ℕ_discrete ch servo_tilt2) [
      | yes e ↦
          rw ((sent_pan p).0, angle_of_set ch k (inr (p, e)), e)
            (set_pwm-Pulses i2c first.1 servo_tilt2 0 ticks (omega arith) (omega arith)
              (pwm_12_bits _ (omega arith)) (sent_pan p).1)
      | no ne ↦ rw (sent_pan p).0 (
          Pulses-set_pwm first.1 servo_tilt2 ch 0 ticks 0 _ (omega arith) ne
            (elim (ℕ_discrete ch id) [
              | yes e ↦ rw (angle_of_set ch k (inl e), e) first-Pulses
              | no nid ↦
                  rw (angle_of_other ch k nid (inr ne))
                    (Pulses-set_pwm s.client id ch 0 ticks 0 _ (omega arith) nid (st ch k))
            ]))
    ]

  -- On the hardware, a `set_angle` that returns 0 keeps every channel pulsing for the stored angle
  -- of its servo, the mirrored one included.
  pub set_angle-InStep :
      (s : Servo) (id angle : ℕ)
      → s.sim_mode ≡ false
      → IsValid s
      → id < num_servos
      → InStep s
      → (set_angle i2c s id angle).0 ≡ pos 0
      → InStep (set_angle i2c s id angle).1
  set_angle-InStep s id angle hw v h st ok = elim (ℕ_discrete id servo_pan) [
    | yes p ↦ pan-Pulses s id angle hw v h st ok p
    | no np ↦ other-Pulses s id angle hw v h st ok np
  ]
