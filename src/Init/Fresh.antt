-- ===== src/Init/Fresh.antt =====
-- The device that echo_init of module/echo_main.c makes.
use team9osdriver.Prelude.{
  if◌then◌else◌, ℕ, ◌≡◌, refl, sym, ap, ◌∙◌, subst, arith, Bool, true, false, not, Option, none,
  some, List, [], ◌∷◌, err, ℤ, length, is_neg, Bool-cases, inl, inr,
}
use team9osdriver.Types.{idle, servo_center, servo_max, enomem}
use team9osdriver.Kernel.{Kfifo}
use team9osdriver.Resources.{
  Made, Made-created, Held, device_mem, acquire, Created, created, failed,
}
use team9osdriver.Servo.Angles.{Below}
use team9osdriver.Servo.{I2c, Servo}
use team9osdriver.Servo.Create.{ServoEnv, servo_start, servo_create, servo_fresh, pca9685_init_hw}
use team9osdriver.Buffer.{Buffer}
use team9osdriver.Buffer.Create.{buffer_create, buffer_new}
use team9osdriver.State.{State, state_new}
use team9osdriver.State.Create.{state_create}
use team9osdriver.Joystick.{Joystick}
use team9osdriver.Proc.Create.{proc_create}
use team9osdriver.Device.{Kernel, Dev}
use team9osdriver.Device.Invariant.{Inv}
use team9osdriver.Init.{
  InitEnv, new_device, after_proc, after_chardev, after_joystick, after_state, after_buffer,
  after_servo, echo_init,
}

abbrev centred : List ℕ
centred = servo_center ∷ servo_center ∷ servo_center ∷ []

abbrev FreshServo : Bool → Servo → Type 0
FreshServo sim_mode s = (s.angles ≡ centred) × (s.sim_mode ≡ sim_mode)

module _ (i2c : I2c) where
  servo_start-Fresh : (h : Held) → Made (FreshServo false) (servo_start i2c h)
  unfolding servo_start servo_fresh
  servo_start-Fresh h = elim (Bool-cases (is_neg (pca9685_init_hw i2c []).0)) [
    | inl bad ↦ rw (bad, servo_start) tt
    | inr good ↦ rw (good, servo_start) (refl, refl)
  ]

  servo_create_fresh :
      (m a : Bool) (c : Option ℤ) (sim_mode : Bool) (h : Held)
      → Made
          (FreshServo sim_mode)
          (servo_create i2c (record { memory = m; adapter = a; client_error = c }) sim_mode h)
  unfolding servo_create servo_fresh
  servo_create_fresh false a c sim_mode h = tt
  servo_create_fresh true a c true h = (refl, refl)
  servo_create_fresh true false c false h = tt
  servo_create_fresh true true (some ret) false h = tt
  servo_create_fresh true true none false h = servo_start-Fresh _

  servo_create-Fresh :
      (env : ServoEnv) (sim_mode : Bool) (h : Held)
      → Made (FreshServo sim_mode) (servo_create i2c env sim_mode h)
  servo_create-Fresh env sim_mode h =
      servo_create_fresh env.memory env.adapter env.client_error sim_mode h

module _ (q : Kfifo) where
  buffer_create_fresh :
      (m w : Bool) (zeroed : q.Fifo) (h : Held)
      → Made
          (λ b. b ≡ buffer_new q zeroed)
          (buffer_create q (record { memory = m; workqueue_made = w }) zeroed h)
  unfolding buffer_create
  buffer_create_fresh false w zeroed h = tt
  buffer_create_fresh true false zeroed h = tt
  buffer_create_fresh true true zeroed h = refl

state_create_fresh :
    (m : Bool) (timeout_ms : ℕ) (h : Held)
    → Made (λ st. st ≡ state_new timeout_ms) (state_create m timeout_ms h)
unfolding state_create
state_create_fresh false timeout_ms h = tt
state_create_fresh true timeout_ms h = refl

module _ (k : Kernel) (env : InitEnv k.kfifo.Fifo) where
  open k use {kfifo, i2c}

  -- A device that waits for its first input: nothing is recorded, queued or counted, the servos are
  -- in the middle, and the parts agree on whether there is hardware.
  pub record FreshDevice (d : Dev k) : Type 0 where
    pub servo : FreshServo env.sim_mode d.servo
    pub buffer : d.buffer ≡ buffer_new kfifo env.zeroed
    pub state : d.state ≡ state_new env.timeout_ms
    pub sim_mode : d.sim_mode ≡ env.sim_mode

  after_chardev-Fresh :
      (s : Servo) (b : Buffer kfifo.Fifo) (st : State) (j : Joystick)
      → FreshServo env.sim_mode s
      → b ≡ buffer_new kfifo env.zeroed
      → st ≡ state_new env.timeout_ms
      → (r : Created (Unit {0}) × Held) → Made FreshDevice (after_chardev k env s b st j r)
  unfolding after_chardev after_proc new_device
  after_chardev-Fresh s b st j fs fb fst (failed _, h) = tt
  after_chardev-Fresh s b st j fs fb fst (created _, h) = after (proc_create env.proc h)
    where
      after : (r : Created (Unit {0}) × Held) → Made FreshDevice (after_proc k env s b st j r)
      after (failed _, h) = tt
      after (created _, h) = record { servo = fs; buffer = fb; state = fst; sim_mode = refl }

  after_joystick-Fresh :
      (s : Servo) (b : Buffer kfifo.Fifo) (st : State)
      → FreshServo env.sim_mode s
      → b ≡ buffer_new kfifo env.zeroed
      → st ≡ state_new env.timeout_ms
      → (r : Created Joystick × Held) → Made FreshDevice (after_joystick k env s b st r)
  unfolding after_joystick
  after_joystick-Fresh s b st fs fb fst (failed _, h) = tt
  after_joystick-Fresh s b st fs fb fst (created j, h) = after_chardev-Fresh s b st j fs fb fst _

  after_state-Fresh :
      (s : Servo) (b : Buffer kfifo.Fifo)
      → FreshServo env.sim_mode s
      → b ≡ buffer_new kfifo env.zeroed
      → (r : Created State × Held) → Made (λ st. st ≡ state_new env.timeout_ms) r
      → Made FreshDevice (after_state k env s b r)
  unfolding after_state
  after_state-Fresh s b fs fb (failed _, h) m = tt
  after_state-Fresh s b fs fb (created st, h) m = after_joystick-Fresh s b st fs fb m _

  after_buffer-Fresh :
      (s : Servo)
      → FreshServo env.sim_mode s
      → (r : Created (Buffer kfifo.Fifo) × Held) → Made (λ b. b ≡ buffer_new kfifo env.zeroed) r
      → Made FreshDevice (after_buffer k env s r)
  unfolding after_buffer
  after_buffer-Fresh s fs (failed _, h) m = tt
  after_buffer-Fresh s fs (created b, h) m =
      after_state-Fresh s b fs m _ (state_create_fresh env.state_memory env.timeout_ms h)

  after_servo-Fresh :
      (r : Created Servo × Held)
      → Made (FreshServo env.sim_mode) r
      → Made FreshDevice (after_servo k env r)
  unfolding after_servo
  after_servo-Fresh (failed _, h) m = tt
  after_servo-Fresh (created s, h) m =
      after_buffer-Fresh s m _
        (buffer_create_fresh kfifo env.buffer.memory env.buffer.workqueue_made env.zeroed h)

  init-Made :
      (h : Held) (m : Bool)
      → Made FreshDevice (
          if not m
          then (failed (err enomem), h)
          else after_servo k env (servo_create i2c env.servo env.sim_mode (acquire device_mem h)))
  init-Made h false = tt
  init-Made h true =
      after_servo-Fresh _ (servo_create-Fresh i2c env.servo env.sim_mode (acquire device_mem h))

  module _ (h h' : Held) (d : Dev k) (loaded : echo_init k env h ≡ (created d, h')) where
    echo_init-Fresh : FreshDevice d
    unfolding echo_init
    echo_init-Fresh =
        Made-created FreshDevice (echo_init k env h) d h' loaded (init-Made h env.memory)

    -- A load of the module that succeeds makes a device in order: its mode is IDLE, nothing is
    -- recorded and no replay is queued.
    pub echo_init-Inv :
        Inv k d
        × (d.state.mode ≡ idle)
        × (kfifo.entries (d.buffer.move_fifo) ≡ [])
        × (d.buffer.work_pending ≡ false)
    unfolding state_new buffer_new
    echo_init-Inv =
        let f = echo_init-Fresh in
        let at_rest : d.state.mode ≡ idle = ap (λ st. st.mode) f.state in
        (
          record {
            servos = record {
              size = ap length f.servo.0;
              in_range =
                  subst (Below servo_max) (sym f.servo.0)
                    (omega arith, (omega arith, (omega arith, tt)));
            };
            armed = λ taught. ground arith;
            queued = λ replaying. ground arith;
          },
          at_rest,
          ap (λ b. kfifo.entries b.move_fifo) f.buffer ∙ kfifo.reset_lem env.zeroed,
          ap (λ b. b.work_pending) f.buffer,
        )
