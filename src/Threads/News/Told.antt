-- ===== src/Threads/News/Told.antt =====
-- Who changes what a reader sees notifies the readers.
use team9osdriver.Prelude.{
  ℕ, ◌≡◌, refl, ap, arith, true, false, ◌⊎◌, inl, inr, pos, is_zero, ltb, if◌then◌else◌,
}
use team9osdriver.Types.{servo_max, servo_tilt2}
use team9osdriver.Servo.{
  I2c, Client, RegWrite, Servo, angle_to_pwm, set_angle, pca9685_set_pwm, pca9685_write_byte,
}
use team9osdriver.State.{enter_teach}
use team9osdriver.Device.{
  Kernel, Dev, op_move_servo, state_op_record_move, state_op_clear_buffer, state_op_start_replay,
  notify_readers, signal_replay_done,
}
use team9osdriver.Chardev.{build_snapshot}
use team9osdriver.Threads.{
  Pc, ended, input_lock, start_lock, direct_move, TimerPc, WorkerPc, advance, timer_advance,
  worker_advance,
}
use team9osdriver.Threads.System.{System, worker_at_rest}
use team9osdriver.Threads.News.{thread_owes, timer_owes}

module _ (k : Kernel) where
  pub advance-flag :
      (p : Pc) (d : Dev k) → d.new_data_avail ≡ true → (advance k p d).1.new_data_avail ≡ true
  unfolding advance enter_teach op_move_servo state_op_record_move state_op_clear_buffer
      state_op_start_replay notify_readers signal_replay_done
  advance-flag p d f = ground (arith, f)

  pub timer_advance-flag :
      (p : TimerPc) (d : Dev k)
      → d.new_data_avail ≡ true
      → (timer_advance k p d).1.new_data_avail ≡ true
  unfolding timer_advance state_op_start_replay notify_readers
  timer_advance-flag p d f = ground (arith, f)

  pub advance-owes :
      (p : Pc) (d : Dev k)
      → thread_owes p ≡ true
      → let (p', d') = advance k p d in (thread_owes p' ≡ true) ⊎ (d'.new_data_avail ≡ true)
  unfolding advance notify_readers signal_replay_done
  advance-owes p d o = ground (arith, o)

  pub timer_advance-owes :
      (p : TimerPc) (d : Dev k)
      → timer_owes p ≡ true
      → let (p', d') = timer_advance k p d in (timer_owes p' ≡ true) ⊎ (d'.new_data_avail ≡ true)
  unfolding timer_advance notify_readers
  timer_advance-owes p d o = ground (arith, o)

  pub worker_advance-owes :
      (p : WorkerPc) (d : Dev k)
      → worker_at_rest p ≡ false
      → let (p', d') = worker_advance k p d in
        (worker_at_rest p' ≡ false) ⊎ (d'.new_data_avail ≡ true)
  unfolding worker_advance notify_readers signal_replay_done
  worker_advance-owes p d o = ground (arith, o)

  -- The flag is up, or somebody is sure to raise it.
  abbrev pub Told : System k → Type 0
  Told s =
      (s.dev.new_data_avail ≡ true)
      ⊎ ((timer_owes s.timer ≡ true)
          ⊎ ((worker_at_rest s.worker ≡ false) ⊎ ((i : ℕ) × (thread_owes (s.threads i) ≡ true))))

  -- what the chip answers when it takes a write
  abbrev pub Takes : I2c → Type 0
  Takes i2c = (c : Client) (w : RegWrite) → i2c c w ≡ pos 0

  set_pwm_taken :
      Takes k.i2c
      → (c : Client) (channel on off : ℕ) → (pca9685_set_pwm k.i2c c channel on off).0 ≡ pos 0
  unfolding pca9685_set_pwm pca9685_write_byte
  set_pwm_taken t c channel on off = simp t

  set_angle_taken :
      Takes k.i2c
      → (s : Servo) (id angle : ℕ)
      → let (ret, s') = set_angle k.i2c s id angle in (is_zero ret ≡ true) ⊎ (s' ≡ s)
  unfolding set_angle
  set_angle_taken t s id angle =
      let ticks = angle_to_pwm (if ltb servo_max angle then servo_max else angle) in
      let one = set_pwm_taken t s.client id 0 ticks in
      let two =
        set_pwm_taken t ((pca9685_set_pwm k.i2c s.client id 0 ticks).1) servo_tilt2 0 ticks in
      ground (arith, one, two)

  same_seen :
      (d : Dev k) (servo : Servo)
      → servo ≡ d.servo
      → build_snapshot k (record d { servo = servo }) ≡ build_snapshot k d
  same_seen d servo e = ap (λ s. build_snapshot k (record d { servo = s })) e

  -- What a thread does before it is sure to notify changes nothing that a reader sees.
  pub advance-seen :
      Takes k.i2c
      → (p : Pc) (d : Dev k) → thread_owes p ≡ false
      → let (p', d') = advance k p d in
        (thread_owes p' ≡ true) ⊎ (build_snapshot k d' ≡ build_snapshot k d)
  unfolding advance op_move_servo
  advance-seen t ended d o = inr refl
  advance-seen t (input_lock now id delta) d o = ground arith
  advance-seen t start_lock d o = ground arith
  advance-seen t (direct_move id angle) d o = elim (set_angle_taken t d.servo id angle) [
    | inl z ↦ inl (rw z refl)
    | inr e ↦ inr (same_seen d _ e)
  ]
  advance-seen t p d o = absurd (ground (arith, o))

  pub timer_advance-seen :
      (p : TimerPc) (d : Dev k)
      → let (p', d') = timer_advance k p d in
        (timer_owes p' ≡ true)
        ⊎ ((d'.new_data_avail ≡ true) ⊎ (build_snapshot k d' ≡ build_snapshot k d))
  unfolding timer_advance notify_readers
  timer_advance-seen p d = ground arith
