-- ===== src/Servo/Bus.antt =====
-- The error path of module/echo_servo.c: which writes reach the bus when one of them fails.
use team9osdriver.Prelude.{
  ℕ, ◌+◌, ◌*◌, ◌/◌, ◌%◌, ◌<◌, ◌≡◌, false, ℤ, refl, ap, min, ◌==◌, ◌&&◌, is_zero, List, [], ◌∷◌,
  arith, if◌then◌else◌, is_neg, Bool-cases, inl, inr,
}
use team9osdriver.Types.{u8}
use team9osdriver.Types.{servo_pan, servo_tilt2, servo_max, num_servos}
use team9osdriver.Servo.Chip.{client-set_angle}
use team9osdriver.Servo.{Servo, set_angle, angle_to_pwm, I2c, Client, RegWrite, pca9685_set_pwm}

abbrev pub put : ℕ → ℕ → RegWrite
put reg val = record { reg = reg; val = val }

module _ (i2c : I2c) where
  -- Send writes in order and stop behind the first that the bus refuses.
  pub send : Client → RegWrite → List RegWrite → ℤ × Client
  send c w [] = (i2c c w, w ∷ c)
  send c w (w' ∷ ws) =
      let rest = send (w ∷ c) w' ws in if is_neg (i2c c w) then (i2c c w, w ∷ c) else rest

  -- `c'` adds to `c` writes that the bus took.
  pub data Took (c : Client) : Client → Type 0 where
    none_sent : Took c c
    took : {c' : Client} (w : RegWrite) → Took c c' → is_neg (i2c c' w) ≡ false → Took c (w ∷ c')

  -- The last write of `c'` was answered `ret`, and the bus took all writes between `c` and it.
  pub data Stops (c : Client) (ret : ℤ) (c' : Client) : Type 0 where
    stops : {c0 : Client} (w : RegWrite) → Took c c0 → ret ≡ i2c c0 w → c' ≡ w ∷ c0 → Stops c ret c'

  send-Stops :
      (c0 c : Client) (w : RegWrite) (ws : List RegWrite)
      → Took c0 c
      → Stops c0 (send c w ws).0 (send c w ws).1
  unfolding send
  send-Stops c0 c w [] t = stops w t refl refl
  send-Stops c0 c w (w' ∷ ws) t = elim (Bool-cases (is_neg (i2c c w))) [
    | inl bad ↦ rw bad (stops w t refl refl)
    | inr good ↦ rw good (send-Stops c0 (w ∷ c) w' ws (took w t good))
  ]

  -- `pca9685_set_pwm` sends the four bytes of a channel in the order of their registers.
  set_pwm-eq-send :
      (c : Client) (ch on off : ℕ)
      → ch < 16
      → pca9685_set_pwm i2c c ch on off
        ≡ send c (put (6 + 4 * ch) (on % 256)) (
            put (7 + 4 * ch) (on / 256 % 16)
            ∷ put (8 + 4 * ch) (off % 256)
            ∷ put (9 + 4 * ch) (off / 256 % 16)
            ∷ [])
  unfolding send pca9685_set_pwm
  set_pwm-eq-send c ch on off h =
      let e0 : u8 (u8 (6 + 4 * ch)) ≡ 6 + 4 * ch = omega arith in
      let e1 : u8 (u8 (6 + 4 * ch) + 1) ≡ 7 + 4 * ch = omega arith in
      let e2 : u8 (u8 (6 + 4 * ch) + 2) ≡ 8 + 4 * ch = omega arith in
      let e3 : u8 (u8 (6 + 4 * ch) + 3) ≡ 9 + 4 * ch = omega arith in
      let v0 : u8 (on % 256) ≡ on % 256 = omega arith in
      let v1 : u8 (on / 256 % 16) ≡ on / 256 % 16 = omega arith in
      let v2 : u8 (off % 256) ≡ off % 256 = omega arith in
      let v3 : u8 (off / 256 % 16) ≡ off / 256 % 16 = omega arith in
      simp (e0, e1, e2, e3, v0, v1, v2, v3)

  send-Took :
      (c0 c : Client) (w : RegWrite) (ws : List RegWrite)
      → Took c0 c
      → is_neg (send c w ws).0 ≡ false
      → Took c0 (send c w ws).1
  unfolding send
  send-Took c0 c w [] t ok = took w t ok
  send-Took c0 c w (w' ∷ ws) t ok = elim (Bool-cases (is_neg (i2c c w))) [
    | inl bad ↦ (let taken = rw bad at ok in cc)
    | inr good ↦ rw good (send-Took c0 (w ∷ c) w' ws (took w t good) (rw good at ok))
  ]

  set_pwm-Stops :
      (c0 c : Client) (ch on off : ℕ)
      → ch < 16
      → Took c0 c
      → Stops c0 (pca9685_set_pwm i2c c ch on off).0 (pca9685_set_pwm i2c c ch on off).1
  set_pwm-Stops c0 c ch on off h t = rw (set_pwm-eq-send c ch on off h) (send-Stops c0 c _ _ t)

  set_pwm-Took :
      (c0 c : Client) (ch on off : ℕ)
      → ch < 16
      → Took c0 c
      → is_neg (pca9685_set_pwm i2c c ch on off).0 ≡ false
      → Took c0 (pca9685_set_pwm i2c c ch on off).1
  set_pwm-Took c0 c ch on off h t =
      rw (set_pwm-eq-send c ch on off h) (λ ok. send-Took c0 c _ _ t ok)

  -- On the hardware, for a servo that there is, `set_angle` returns what the bus answered to the
  -- last write that it sent, and the bus took every write before that one: nothing is sent behind a
  -- write that fails.
  pub set_angle-Stops :
      (s : Servo) (id angle : ℕ)
      → s.sim_mode ≡ false
      → id < num_servos
      → Stops s.client (set_angle i2c s id angle).0 (set_angle i2c s id angle).1.client
  set_angle-Stops s id angle hw h =
      let ticks = angle_to_pwm (min angle servo_max) in
      let first = pca9685_set_pwm i2c s.client id 0 ticks in
      let sent = client-set_angle i2c s id angle hw h in
      let ret = ap (λ (p : ℤ × Client). p.0) sent in
      let client = ap (λ (p : ℤ × Client). p.1) sent in
      elim (Bool-cases (id == servo_pan && is_zero first.0)) [
        | inl both ↦
            rw (ret, client, both)
              (set_pwm-Stops s.client first.1 servo_tilt2 0 ticks (omega arith)
                (set_pwm-Took s.client s.client id 0 ticks (omega arith) none_sent (ground arith)))
        | inr one ↦
            rw (ret, client, one)
              (set_pwm-Stops s.client s.client id 0 ticks (omega arith) none_sent)
      ]
