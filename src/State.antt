-- ===== src/State.antt =====
-- module/echo_state.c: the modes, the inactivity timer and the handling of input. `mode_lock` is held
-- over each read and change of the mode, and `time_lock` over the update of the last time. What the
-- module asks of the others goes through `StateOps`.
pub mod Clamp
pub mod Create
use team9osdriver.Prelude.{
  ℕ, ◌+◌, Bool, Option, none, some, ℤ, pos, err, pos_part, ◌+ℤ◌, ltb_ℤ, u32_of, if◌then◌else◌,
}
use team9osdriver.Types.{Mode, idle, teach, replay, Move, u16, u32, servo_min, servo_max, ebusy}
use team9osdriver.Kernel.{Clock, Ptr, ulong}

-- `struct echo_state_ctx`. The timer is the time in jiffies at which it expires, while it is armed.
pub record State : Type 0 where
  pub mode : Mode
  pub inactivity_timer : Option ℕ
  pub timeout_ms : ℕ  -- unsigned long
  pub last_move_time : ℕ  -- ktime_t
  pub total_moves : ℕ  -- atomic_t

-- `struct echo_state_ops`
pub record StateOps (W : Type 0) : Type 0 where
  pub move_servo : ℕ → ℕ → W → ℤ × W
  pub get_servo : ℕ → W → ℕ
  pub record_move : Move → W → W
  pub clear_buffer : W → W
  pub start_replay : W → W
  pub cancel_replay : W → W
  pub notify : W → W

unfoldable pub state_new : ℕ → State
state_new timeout_ms = record {
  mode = idle;
  inactivity_timer = none;
  timeout_ms = timeout_ms;
  last_move_time = 0;
  total_moves = 0;
}

-- the new angle of a servo: `delta` is added in `int`, and the sum is clamped
unfoldable pub clamp_angle : ℕ → ℤ → ℕ
clamp_angle cur_angle delta =
    let tmp = pos cur_angle +ℤ delta in
    let low = if ltb_ℤ tmp (pos servo_min) then pos servo_min else tmp in
    let both = if ltb_ℤ (pos servo_max) low then pos servo_max else low in u16 (pos_part both)

module _ {W : Type 0} (clock : Clock) (ctx : Ptr W State) (ops : StateOps W) where
  open clock use {ktime_ms_delta, msecs_to_jiffies}
  open ctx use {load, store}
  open ops use {
    move_servo, get_servo, record_move, clear_buffer, start_replay, cancel_replay, notify,
  }

  abbrev pub set_mode_to : Mode → W → W
  set_mode_to m w = store (record (load w) { mode = m }) w

  -- `mod_timer` and `timer_delete_sync` of the inactivity timer
  abbrev pub arm_timer : ℕ → W → W
  arm_timer jiffies w =
      let s = load w in
      store (record s { inactivity_timer = some (ulong (jiffies + msecs_to_jiffies s.timeout_ms)) })
        w

  abbrev pub delete_timer : W → W
  delete_timer w = store (record (load w) { inactivity_timer = none }) w

  -- The kernel disarms a timer that expires and then calls its function.
  unfoldable pub inactivity_timer_fn : W → W
  inactivity_timer_fn w = elim ((load w).mode) [
    | teach ↦ notify (start_replay (set_mode_to replay w))
    | _ ↦ w
  ]

  -- The first section under `mode_lock` of `echo_state_handle_input`; `t0` is the time.
  unfoldable pub enter_teach : ℕ → W → W
  enter_teach t0 w = elim ((load w).mode) [
    | idle ↦ store (record (load w) { mode = teach; last_move_time = t0 }) w
    | _ ↦ w
  ]

  -- The rest of it. `t1` is the time of the move, and `jiffies` what the timer counts from.
  unfoldable pub do_move : ℕ → ℕ → ℕ → ℤ → W → W
  do_move t1 jiffies servo_id delta w =
      let new_angle = clamp_angle (get_servo servo_id w) delta in
      let w1 = (move_servo servo_id new_angle w).1 in
      let delay = u32_of (ktime_ms_delta t1 (load w1).last_move_time) in
      let w2 = store (record (load w1) { last_move_time = t1 }) w1 in
      let m : Move = record { servo_id = servo_id; angle = new_angle; delay_ms = delay } in
      let w3 = record_move m w2 in
      let w4 = store (record (load w3) { total_moves = u32 ((load w3).total_moves + 1) }) w3 in
      notify (arm_timer jiffies w4)

  unfoldable pub handle_input : ℕ → ℕ → ℕ → ℕ → ℤ → W → W
  handle_input t0 t1 jiffies servo_id delta w = elim ((load w).mode) [
    | replay ↦ w
    | _ ↦ do_move t1 jiffies servo_id delta (enter_teach t0 w)
  ]

  unfoldable pub state_start_replay : W → ℤ × W
  state_start_replay w = elim ((load w).mode) [
    | replay ↦ (err ebusy, w)
    | _ ↦ (pos 0, notify (start_replay (delete_timer (set_mode_to replay w))))
  ]

  -- `echo_state_stop`: its section under the lock, and the rest.
  unfoldable pub stop_mode : W → W
  stop_mode w = set_mode_to idle w

  unfoldable pub stop_rest : W → W
  stop_rest w = notify (cancel_replay (delete_timer w))

  unfoldable pub state_stop : W → W
  state_stop w = stop_rest (stop_mode w)

  -- `echo_state_set_mode`. In the source the reset of `total_moves` stands inside the argument list of
  -- `mod_timer`, where no statement can stand; it is read as the statement before that call.
  unfoldable pub set_teach : ℕ → ℕ → W → W
  set_teach t jiffies w =
      let w1 = set_mode_to teach w in
      let w2 = clear_buffer (store (record (load w1) { last_move_time = t }) w1) in
      let w3 = store (record (load w2) { total_moves = 0 }) w2 in notify (arm_timer jiffies w3)

  unfoldable pub set_mode : ℕ → ℕ → Mode → W → ℤ × W
  set_mode t jiffies replay w = state_start_replay w
  set_mode t jiffies idle w = (pos 0, state_stop w)
  set_mode t jiffies teach w = (pos 0, set_teach t jiffies w)

  unfoldable pub get_mode : W → Mode
  get_mode w = (load w).mode

  unfoldable pub replay_complete : W → W
  replay_complete w = set_mode_to idle w

  unfoldable pub get_total_moves : W → ℕ
  get_total_moves w = (load w).total_moves
