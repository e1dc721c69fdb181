-- ===== src/Threads/Alone.antt =====
-- A thread that no other meets does what its function does.
use team9osdriver.Prelude.{ℕ, zero, suc, ◌≡◌, arith, ℤ}
use team9osdriver.Types.{u8, u16}
use team9osdriver.State.{handle_input, state_start_replay, state_stop, set_teach}
use team9osdriver.Device.{Kernel, Dev, Now, state_ptr, state_ops}
use team9osdriver.Chardev.{Cmd, ioctl_reset, write_move}
use team9osdriver.Device.Events.{step}
use team9osdriver.Threads.{
  Pc, ended, input_lock, start_lock, stop_lock, teach_lock, reset_lock, direct_move, advance,
}

module _ (k : Kernel) where
  -- `n` sections of one call
  unfoldable alone : ℕ → Pc → Dev k → Pc × Dev k
  unfolding advance
  alone zero p d = (p, d)
  alone (suc n) p d = let (p', d') = advance k p d in alone n p' d'

  -- The sections of a call, with no other thread between them, change the device as the whole
  -- operation does: a press, a request to replay, a stop, a RESET, a request to teach and a move,
  -- which end after at most 8, 4, 5, 10, 6 and 2 sections.
  alone_lem :
      (d : Dev k) (now : Now) (id : ℕ) (delta : ℤ) (count : ℕ) (cmd : Cmd)
      → (alone 8 (input_lock now id delta) d ≡ (
        ended,
        handle_input k.clock state_ptr (state_ops k) now.start now.moved now.jiffies id delta d,
      ))
        × (alone 4 start_lock d ≡ (ended, (state_start_replay k.clock state_ptr (state_ops k) d).1))
        × (alone 5 stop_lock d ≡ (ended, state_stop k.clock state_ptr (state_ops k) d))
        × (alone 10 reset_lock d ≡ (ended, (ioctl_reset k d).2))
        × (alone 6 (teach_lock now) d
            ≡ (ended, set_teach k.clock state_ptr (state_ops k) now.start now.jiffies d))
        × (alone 2 (direct_move (u8 cmd.servo_id) (u16 cmd.angle)) d
            ≡ (ended, (write_move k count cmd d).1))
  unfolding alone step ioctl_reset write_move
  alone_lem d now id delta count cmd =
      (ground arith, ground arith, ground arith, ground arith, ground arith, ground arith)
