-- ===== src/Threads/News/Silent.antt =====
-- A move that the chip refuses, which no reader hears of.
use team9osdriver.Prelude.{
  ℕ, ◌≡◌, refl, arith, true, false, ltb, if◌then◌else◌, is_neg, is_zero, min,
}
use team9osdriver.Types.{servo_tilt, servo_max}
use team9osdriver.Servo.{
  Client, RegWrite, Servo, angle_to_pwm, set_angle, get_angle, pca9685_set_pwm, pca9685_write_byte,
}
use team9osdriver.Servo.Angles.{IsValid, get_angle-set_angle}
use team9osdriver.Device.{Kernel, Dev, op_move_servo}
use team9osdriver.Chardev.{Snapshot, build_snapshot}
use team9osdriver.Threads.{ended, direct_move, worker_rests, timer_rests, advance}
use team9osdriver.Threads.System.{call, go, entry, update, thread_step}
use team9osdriver.Threads.News.Single.{read_fields, whole_read}
use team9osdriver.Threads.News.{
  no_reads, read_done, Reading, wait_over, read_field, Reads, further, other,
}

module _ (k : Kernel) where
  -- one whole read, and then a move of tilt in thread 0
  unfoldable pub moved_behind : Dev k → (ℕ → Snapshot) → ℕ → Reading k
  unfolding read_field wait_over thread_step advance
  moved_behind d snaps angle =
      let w = read_fields k 0 (wait_over k 0 (no_reads k d snaps)) in
      record w {
        sys =
            thread_step k 0
              (record (w.sys) { threads = update w.sys.threads 0 (direct_move servo_tilt angle) });
      }

  moved_reached :
      (d : Dev k) (snaps : ℕ → Snapshot) (angle : ℕ)
      → d.new_data_avail ≡ true
      → Reads k entry (no_reads k d snaps) (moved_behind d snaps angle)
  unfolding moved_behind
  moved_reached d snaps angle f =
      further
        (further (whole_read k 0 (no_reads k d snaps) refl f).0
          (other (call 0 (direct_move servo_tilt angle) refl refl)))
        (other (go 0 refl))

  set_pwm_refused :
      ((c : Client) (r : RegWrite) → is_neg (k.i2c c r) ≡ true)
      → (c : Client) (channel on off : ℕ) → is_neg (pca9685_set_pwm k.i2c c channel on off).0 ≡ true
  unfolding pca9685_set_pwm pca9685_write_byte
  set_pwm_refused x c channel on off = simp x

  set_angle_refused :
      ((c : Client) (r : RegWrite) → is_neg (k.i2c c r) ≡ true)
      → (s : Servo) (angle : ℕ) → s.sim_mode ≡ false
      → is_zero (set_angle k.i2c s servo_tilt angle).0 ≡ false
  unfolding set_angle
  set_angle_refused x s angle sim =
      let ticks = angle_to_pwm (if ltb servo_max angle then servo_max else angle) in
      ground (arith, sim, set_pwm_refused x s.client servo_tilt 0 ticks)

  -- A change can reach no reader: if the chip refuses every write and the device has hardware, then
  -- after a whole read a thread that moves tilt ends with the flag down and nobody on the way to
  -- raise it; the device tells the new angle, and the snapshot that was read the old one.
  pub refused_move_is_silent :
      (d : Dev k) (snaps : ℕ → Snapshot) (angle : ℕ)
      → ((c : Client) (r : RegWrite) → is_neg (k.i2c c r) ≡ true)
      → IsValid d.servo
      → d.servo.sim_mode ≡ false
      → d.new_data_avail ≡ true
      → let w = moved_behind d snaps angle in
        Reads k entry (no_reads k d snaps) w
        × (w.readers 0 ≡ read_done)
        × (w.sys.dev.new_data_avail ≡ false)
        × (w.sys.timer ≡ timer_rests)
        × (w.sys.worker ≡ worker_rests)
        × ((i : ℕ) → w.sys.threads i ≡ ended)
        × ((w.snaps 0).tilt_angle ≡ get_angle d.servo servo_tilt)
        × ((build_snapshot k w.sys.dev).tilt_angle ≡ min angle servo_max)
  unfolding moved_behind build_snapshot op_move_servo
  refused_move_is_silent d snaps angle x v sim f = (
    moved_reached d snaps angle f,
    refl,
    refl,
    refl,
    refl,
    λ i. ground (arith, set_angle_refused x d.servo angle sim),
    refl,
    get_angle-set_angle k.i2c d.servo servo_tilt angle servo_tilt v,
  )
