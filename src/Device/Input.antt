-- ===== src/Device/Input.antt =====
-- One press of the joystick, from `joy_op_direction` of module/echo_main.c through
-- `echo_state_handle_input` to the servo and the recording.
use team9osdriver.Prelude.{ℕ, ◌+◌, ◌≡◌, ◌≢◌, true, some, [], ◌∷◌, ◌++◌, arith, ℤ, u32_of}
use team9osdriver.Types.{Mode, idle, teach, replay, Move, fifo_size, u32}
use team9osdriver.Servo
use team9osdriver.Servo.{Servo, set_angle}
use team9osdriver.Kernel.{ulong}
use team9osdriver.State.{clamp_angle}
use team9osdriver.Buffer.Recording.{newest, entries-record}
use team9osdriver.Device.{Kernel, Dev, Now}
use team9osdriver.Device.Events.{step, input}

-- the time from which the pause before a movement counts
abbrev pub pause_from : Mode → Now → ℕ → ℕ
pause_from idle now last = now.start
pause_from _ now last = last

module _ (k : Kernel) (d : Dev k) (now : Now) (id : ℕ) (delta : ℤ) where
  abbrev pub pressed : Move
  pressed = record {
    servo_id = id;
    angle = clamp_angle (Servo.get_angle d.servo id) delta;
    delay_ms =
        u32_of
          (k.clock.ktime_ms_delta now.moved (pause_from d.state.mode now d.state.last_move_time));
  }

  -- Unless a replay is on, a press moves its servo by the clamped change, appends that movement with
  -- the pause since the last one to the recording (the newest 256 movements are kept), counts it,
  -- leaves the device teaching with its timer started anew, and tells the readers.
  pub input_records :
      d.state.mode ≢ replay
      → let d' = step k d (input now id delta) in
        (d'.servo ≡ (set_angle k.i2c d.servo id pressed.angle).1)
        × (k.kfifo.entries d'.buffer.move_fifo
            ≡ newest fifo_size (k.kfifo.entries d.buffer.move_fifo ++ (pressed ∷ [])))
        × (d'.state.total_moves ≡ u32 (d.state.total_moves + 1))
        × (d'.state.mode ≡ teach)
        × (d'.state.inactivity_timer
            ≡ some (ulong (now.jiffies + k.clock.msecs_to_jiffies d.state.timeout_ms)))
        × (d'.state.last_move_time ≡ now.moved)
        × (d'.new_data_avail ≡ true)
  unfolding step
  input_records h = ground (arith, entries-record k.kfifo d.buffer pressed)

  -- During a replay a press changes nothing at all.
  pub input_ignored : d.state.mode ≡ replay → step k d (input now id delta) ≡ d
  unfolding step
  input_ignored h = ground arith
