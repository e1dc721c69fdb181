-- ===== src/Joystick.antt =====
-- module/echo_joystick.c: the interrupt thread of a direction pin, as it is written.
pub mod Lock
pub mod Create
use team9osdriver.Prelude.{
  ℕ, ◌+◌, ◌-◌, ◌^◌, Bool, true, false, Option, none, some, List, ℤ, pos, negsuc, ltb, ◌==◌,
  if◌then◌else◌, get_or,
}
use team9osdriver.Types.{servo_pan, servo_tilt, angle_step, debounce_ms}
use team9osdriver.Kernel.{Clock, Ptr, ulong}

-- `struct echo_joystick_ctx`, as far as the thread uses it
pub record Joystick : Type 0 where
  pub last_irq_jiffies : List ℕ  -- unsigned long
  pub irq_locked : Bool  -- whether `irq_lock` is held
  pub irq_count : ℕ  -- atomic_t

-- `struct echo_joystick_ops`
pub record JoystickOps (W : Type 0) : Type 0 where
  pub on_direction : ℕ → ℤ → W → W

-- The `switch` on the pin: what it asks of the others.
unfoldable pub press : {W : Type 0} → JoystickOps W → ℕ → W → W
press ops pin_idx w =
    if pin_idx == 0
    then ops.on_direction servo_tilt (pos angle_step) w
    else if pin_idx == 1
    then ops.on_direction servo_tilt (negsuc (angle_step - 1)) w
    else if pin_idx == 2
    then ops.on_direction servo_pan (negsuc (angle_step - 1)) w
    else if pin_idx == 3
    then ops.on_direction servo_pan (pos angle_step) w
    else w

-- `joystick_thread_fn`. The `if` of the debounce has no braces, so the `return` behind it is always
-- taken: the statements after it, with `press`, are never reached. `none`: it spins for ever on a
-- lock that is held.
unfoldable pub joystick_thread_fn : {W : Type 0} → Clock → Ptr W Joystick → ℕ → ℕ → W → Option W
joystick_thread_fn clock ctx jiffies pin_idx w =
    let j = ctx.load w in
    let locked = ctx.store (record j { irq_locked = true }) w in
    let since = ulong (jiffies + 2 ^ 64 - get_or j.last_irq_jiffies pin_idx 0) in
    if j.irq_locked
    then none
    else if ltb since (clock.msecs_to_jiffies debounce_ms)
    then some (ctx.store (record (ctx.load locked) { irq_locked = false }) locked)
    else some locked

unfoldable pub get_irq_count : Joystick → ℕ
get_irq_count j = j.irq_count
