-- ===== src/State/Clamp.antt =====
-- The arithmetic of `echo_state_handle_input` in module/echo_state.c.
use team9osdriver.Prelude.{ℕ, suc, ◌+◌, ◌-◌, ◌≤◌, ◌≡◌, arith, ℤ, pos, negsuc, min}
use team9osdriver.Types.{servo_max}
use team9osdriver.State.{clamp_angle}

-- The new angle is at most 180 whatever the old one and the change; a rise stops at 180 and a fall
-- at 0, and neither the `int` sum nor the cast to `u16` loses anything.
pub clamp_angle_lem :
    (cur n : ℕ)
    → ((delta : ℤ) → clamp_angle cur delta ≤ servo_max)
      × (clamp_angle cur (pos n) ≡ min (cur + n) servo_max)
      × (clamp_angle cur (negsuc n) ≡ min (cur - suc n) servo_max)
unfolding clamp_angle
clamp_angle_lem cur n = (λ delta. ground arith, ground arith, ground arith)
