-- ===== src/Controller/Keys.antt =====
-- What the keys of app/echo_controller.c do to the robot of Device/Spec.
use team9osdriver.Prelude.{ℕ, Bool, ◌||◌, ◌==◌, if◌then◌else◌}
use team9osdriver.Types.{idle, teach}
use team9osdriver.Device.{Kernel, Now}
use team9osdriver.Device.Spec.{Robot, ask, tell}
use team9osdriver.Chardev.Orders.{centred}

abbrev either_of : ℕ → ℕ → ℕ → ℕ → Bool
either_of a b c ch = ch == a || ch == b || ch == c

module _ (k : Kernel) where
  -- 1, t and T teach; 3, s and S stop; 6 resets. All other keys ask nothing at once: that of a
  -- replay starts a thread.
  abbrev pub obey_key : Now → ℕ → Robot → Robot
  obey_key now ch r =
      if either_of 49 116 84 ch
      then tell k.clock r (ask now teach)
      else if either_of 51 115 83 ch
      then tell k.clock r (ask now idle)
      else if ch == 54
      then centred k now r
      else r
