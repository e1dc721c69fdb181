-- ===== src/Servo/Pwm.antt =====
-- `angle_to_pwm` of module/echo_servo.c: its range and its resolution.
use team9osdriver.Prelude.{ℕ, ◌≤◌, ◌<◌, ◌≡◌, arith}
use team9osdriver.Types.{servo_max}
use team9osdriver.Servo.{angle_to_pwm}

-- For an angle of 0 to 180 the ticks lie from 205 (a pulse of 1 ms) to 410 (2 ms), and both ends are
-- reached, so neither the `u16` result nor the 12 bits of a PWM counter are exceeded.
pub angle_to_pwm_range :
    (angle : ℕ)
    → angle ≤ servo_max
    → (205 ≤ angle_to_pwm angle)
      × (angle_to_pwm angle ≤ 410)
      × (angle_to_pwm 0 ≡ 205)
      × (angle_to_pwm servo_max ≡ 410)
unfolding angle_to_pwm
angle_to_pwm_range angle h = omega arith

-- Of two angles up to 180 the larger has more ticks: integer arithmetic merges no two angles.
angle_to_pwm_strict : (a b : ℕ) → a < b → b ≤ servo_max → angle_to_pwm a < angle_to_pwm b
unfolding angle_to_pwm
angle_to_pwm_strict a b h k = omega arith
