-- ===== src/Types.antt =====
-- module/echo_types.h: the constants, the modes and a recorded movement; with the C casts and the
-- error numbers that the driver uses.
use team9osdriver.Prelude.{ℕ, ◌%◌, ◌^◌}

-- A value of an unsigned type is a number below the modulus; a cast to the type wraps.
abbrev pub u8 : ℕ → ℕ
u8 n = n % 2 ^ 8

abbrev pub u16 : ℕ → ℕ
u16 n = n % 2 ^ 16

abbrev pub u32 : ℕ → ℕ
u32 n = n % 2 ^ 32

abbrev pub fifo_size : ℕ
fifo_size = 256

abbrev pub num_servos : ℕ
num_servos = 3

abbrev pub servo_pan : ℕ
servo_pan = 0

abbrev pub servo_tilt : ℕ
servo_tilt = 1

abbrev pub servo_tilt2 : ℕ
servo_tilt2 = 2

abbrev pub servo_center : ℕ
servo_center = 90

abbrev pub servo_min : ℕ
servo_min = 0

abbrev pub servo_max : ℕ
servo_max = 180

abbrev pub num_gpio : ℕ
num_gpio = 4

abbrev pub debounce_ms : ℕ
debounce_ms = 50

abbrev pub angle_step : ℕ
angle_step = 5

-- `enum echo_mode`
pub data Mode : Type 0 where
  idle teach replay : Mode

-- `struct echo_move`
pub record Move : Type 0 where
  pub servo_id : ℕ  -- u8
  pub angle : ℕ  -- u16
  pub delay_ms : ℕ  -- u32

-- The error numbers of the kernel that the driver names.
abbrev pub eagain : ℕ
eagain = 11

abbrev pub enomem : ℕ
enomem = 12

abbrev pub efault : ℕ
efault = 14

abbrev pub ebusy : ℕ
ebusy = 16

abbrev pub enodev : ℕ
enodev = 19

abbrev pub einval : ℕ
einval = 22

abbrev pub enotty : ℕ
enotty = 25

abbrev pub erestartsys : ℕ
erestartsys = 512
