-- ===== src/Tests/Servos.antt =====
-- module/echo_servo.c and the arithmetic of module/echo_state.c at concrete inputs.
use team9osdriver.Prelude.{zero, suc, ◌≡◌, refl, [], ◌∷◌, arith, negsuc}
use team9osdriver.Servo.{set_angle, get_angle, angle_to_pwm, pca9685_set_pwm}
use team9osdriver.Servo.Angles.{IsValid}
use team9osdriver.Servo.Chip.{InStep, set_angle-InStep}
use team9osdriver.Servo.Bus.{Stops, set_angle-Stops}
use team9osdriver.Tests.Fixture.{quiet_bus, dead_bus, sim_servo, powered_servo}

sim_servo-IsValid : IsValid sim_servo
sim_servo-IsValid = omega arith

powered_servo-IsValid : IsValid powered_servo
powered_servo-IsValid = omega arith

powered_servo-InStep : InStep powered_servo
unfolding get_angle angle_to_pwm
powered_servo-InStep zero h = record {
  on_low = refl;
  on_high = refl;
  off_low = refl;
  off_high = refl;
}
powered_servo-InStep (suc zero) h = record {
  on_low = refl;
  on_high = refl;
  off_low = refl;
  off_high = refl;
}
powered_servo-InStep (suc (suc zero)) h = record {
  on_low = refl;
  on_high = refl;
  off_low = refl;
  off_high = refl;
}
powered_servo-InStep (suc (suc (suc n))) h = absurd (omega arith)

-- 200 degrees are cut to 180, and the second arm follows the base.
turn_base : (set_angle quiet_bus powered_servo 0 200).1.angles ≡ 180 ∷ 90 ∷ 180 ∷ []
unfolding set_angle
turn_base = refl

-- The base and the second arm differ after a move of that arm alone.
arm_alone : (set_angle quiet_bus sim_servo 2 30).1.angles ≡ 90 ∷ 90 ∷ 30 ∷ []
unfolding set_angle
arm_alone = refl

set_angle-InStep_example : InStep (set_angle quiet_bus powered_servo 0 45).1
unfolding set_angle pca9685_set_pwm angle_to_pwm
set_angle-InStep_example =
    set_angle-InStep quiet_bus powered_servo 0 45 refl powered_servo-IsValid (omega arith)
      powered_servo-InStep refl

-- With the chip gone, one write is tried.
stops_on_error :
    ((set_angle dead_bus powered_servo 0 45).0 ≡ negsuc 120)
    × ((set_angle dead_bus powered_servo 0 45).1.angles ≡ 45 ∷ 90 ∷ 45 ∷ [])
unfolding set_angle pca9685_set_pwm angle_to_pwm
stops_on_error = (refl, refl)

set_angle-Stops_example :
    Stops dead_bus powered_servo.client
      (set_angle dead_bus powered_servo 0 45).0
      (set_angle dead_bus powered_servo 0 45).1.client
set_angle-Stops_example = set_angle-Stops dead_bus powered_servo 0 45 refl (omega arith)
