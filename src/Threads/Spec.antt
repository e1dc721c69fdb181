-- ===== src/Threads/Spec.antt =====
-- The robot of Device/Spec with calls under way: what each section of module/echo_state.c, of the
-- timer's function and of the worker of module/echo_buffer.c does to it. There is no kfifo, no copy
-- of one in an array, no chip, and no table of callbacks.
pub mod Copies
pub mod Sections
pub mod Refinement
pub mod Story
pub mod Sound
pub mod Playable
use team9osdriver.Prelude.{
  ℕ, ◌≡◌, ◌⊎◌, Bool, true, false, List, [], ◌∷◌, ◌++◌, ℤ, u32_of, ◌+◌, if◌then◌else◌,
}
use team9osdriver.Types.{
  Mode, idle, teach, replay, Move, fifo_size, servo_pan, servo_tilt, servo_tilt2, servo_center, u32,
}
use team9osdriver.Kernel.{Clock}
use team9osdriver.Buffer.Recording.{newest}
use team9osdriver.Device.{Now, is_replay}
use team9osdriver.Device.Spec.{Robot, angle_of, aim, clamped}
use team9osdriver.Threads.{
  Pc, ended, input_lock, input_get, input_move, input_time, input_record, input_count, input_timer,
  start_lock, start_timer, start_queue, stop_lock, stop_timer, stop_cancel, stop_signal, teach_lock,
  teach_time, teach_clear, teach_count, teach_timer, direct_move, reset_lock, reset_timer,
  reset_cancel, reset_signal, reset_notify, reset_clear, reset_pan, reset_tilt, reset_tilt2,
  notifying, TimerPc, timer_rests, timer_locks, timer_queues, timer_notifies,
}
use team9osdriver.Threads.System.{update, timer_at_rest}

-- Who plays a recording, with the movements that are still to play.
pub data Player : Type 0 where
  rests starts fails : Player
  counts tests notifies : List Move → Player
  sleeps aims : Move → List Move → Player
  completes signals : Player

abbrev pub resting : Player → Bool
resting rests = true
resting _ = false

-- One section of the player. It takes the whole recording at once, and asks before each movement
-- whether the mode is still REPLAY.
abbrev pub play_on : Player → Robot → Player × Robot
play_on rests r = (rests, r)
play_on fails r = (completes, r)
play_on starts r = (counts r.recording, r)
play_on (counts ms) r = (tests ms, record r { replays = u32 (r.replays + 1) })
play_on (tests []) r = (completes, r)
play_on (tests (m ∷ ms)) r = (if is_replay r.mode then sleeps m ms else completes, r)
play_on (sleeps m ms) r = (aims m ms, r)
play_on (aims m ms) r = (notifies ms, record r { arms = aim m.servo_id m.angle r.arms })
play_on (notifies ms) r = (tests ms, r)
play_on completes r = (signals, record r { mode = idle })
play_on signals r = (rests, r)

abbrev pub expire_on : TimerPc → Robot → TimerPc × Robot
expire_on timer_locks r = elim (r.mode) [
  | teach ↦ (timer_queues, record r { mode = replay })
  | _ ↦ (timer_rests, r)
]
expire_on timer_queues r = (timer_notifies, record r { queued = true })
expire_on _ r = (timer_rests, r)

-- What a press finds out at first: the robot is taught from now on, if it was idle.
abbrev listen : Now → Robot → Robot
listen now r = elim (r.mode) [ idle ↦ record r { mode = teach; last_move = now.start } | _ ↦ r ]

-- One section of a call. The counts are as in the code: a request to teach starts that of the moves
-- anew, and RESET leaves both. A movement that user space asks for ends the call if it is refused.
abbrev pub go_on : Clock → Bool → Pc → Robot → Pc × Robot
go_on clock refused ended r = (ended, r)
go_on clock refused (input_lock now id delta) r =
    if is_replay r.mode then (ended, r) else (input_get now id delta, listen now r)
go_on clock refused (input_get now id delta) r =
    (input_move now id (clamped (angle_of r.arms id) delta), r)
go_on clock refused (input_move now id angle) r =
    (input_time now id angle, record r { arms = aim id angle r.arms })
go_on clock refused (input_time now id angle) r =
    let delay = u32_of (clock.ktime_ms_delta now.moved r.last_move) in
    (
      input_record now (record { servo_id = id; angle = angle; delay_ms = delay }),
      record r { last_move = now.moved },
    )
go_on clock refused (input_record now m) r =
    (input_count now, record r { recording = newest fifo_size (r.recording ++ (m ∷ [])) })
go_on clock refused (input_count now) r = (input_timer now, record r { moves = u32 (r.moves + 1) })
go_on clock refused (input_timer now) r = (notifying, record r { armed = true })
go_on clock refused start_lock r =
    if is_replay r.mode then (ended, r) else (start_timer, record r { mode = replay })
go_on clock refused start_timer r = (start_queue, record r { armed = false })
go_on clock refused start_queue r = (notifying, record r { queued = true })
go_on clock refused stop_lock r = (stop_timer, record r { mode = idle })
go_on clock refused stop_timer r = (stop_cancel, record r { armed = false })
go_on clock refused stop_cancel r = (stop_signal, record r { queued = false })
go_on clock refused stop_signal r = (notifying, r)
go_on clock refused (teach_lock now) r = (teach_time now, record r { mode = teach })
go_on clock refused (teach_time now) r = (teach_clear now, record r { last_move = now.start })
go_on clock refused (teach_clear now) r = (teach_count now, record r { recording = [] })
go_on clock refused (teach_count now) r = (teach_timer now, record r { moves = 0 })
go_on clock refused (teach_timer now) r = (notifying, record r { armed = true })
go_on clock refused (direct_move id angle) r =
    (if refused then ended else notifying, record r { arms = aim id angle r.arms })
go_on clock refused reset_lock r = (reset_timer, record r { mode = idle })
go_on clock refused reset_timer r = (reset_cancel, record r { armed = false })
go_on clock refused reset_cancel r = (reset_signal, record r { queued = false })
go_on clock refused reset_signal r = (reset_notify, r)
go_on clock refused reset_notify r = (reset_clear, r)
go_on clock refused reset_clear r = (reset_pan, record r { recording = [] })
go_on clock refused reset_pan r =
    (reset_tilt, record r { arms = aim servo_pan servo_center r.arms })
go_on clock refused reset_tilt r =
    (reset_tilt2, record r { arms = aim servo_tilt servo_center r.arms })
go_on clock refused reset_tilt2 r =
    (notifying, record r { arms = aim servo_tilt2 servo_center r.arms })
go_on clock refused notifying r = (ended, r)

-- the robot, and who does something to it
pub record Stage : Type 0 where
  pub robot : Robot
  pub threads : ℕ → Pc
  pub timer : TimerPc
  pub player : Player

-- A call that disarms the timer waits for its function, and one that takes the replay off the queue
-- for the player.
abbrev pub may_go : Pc → TimerPc → Player → Bool
may_go ended t p = false
may_go start_timer t p = timer_at_rest t
may_go stop_timer t p = timer_at_rest t
may_go reset_timer t p = timer_at_rest t
may_go stop_cancel t p = resting p
may_go reset_cancel t p = resting p
may_go _ t p = true

module _ (clock : Clock) where
  abbrev went_on : ℕ → Bool → Stage → Stage
  went_on i refused a =
      let (p, r) = go_on clock refused (a.threads i) a.robot in
      record a { robot = r; threads = update a.threads i p }

  abbrev expired : Stage → Stage
  expired a = let (t, r) = expire_on a.timer a.robot in record a { robot = r; timer = t }

  abbrev played_on : Stage → Stage
  played_on a = let (p, r) = play_on a.player a.robot in record a { robot = r; player = p }

  -- One section, of whoever it is.
  pub data Act (calls : Pc → Bool) (a : Stage) : Stage → Type 0 where
    calls_up :
        (i : ℕ) (p : Pc)
        → a.threads i ≡ ended
        → calls p ≡ true
        → Act calls a (record a { threads = update a.threads i p })
    goes :
        {b : Stage} (i : ℕ) (refused : Bool)
        → may_go (a.threads i) a.timer a.player ≡ true
        → b ≡ went_on i refused a
        → Act calls a b
    fires :
        timer_at_rest a.timer ≡ true
        → a.robot.armed ≡ true
        → Act calls a (record a { robot = record (a.robot) { armed = false }; timer = timer_locks })
    ticks : {b : Stage} → timer_at_rest a.timer ≡ false → b ≡ expired a → Act calls a b
    begins :
        (p : Player)
        → ((p ≡ starts) ⊎ (p ≡ fails))
        → resting a.player ≡ true
        → a.robot.queued ≡ true
        → Act calls a (record a { robot = record (a.robot) { queued = false }; player = p })
    plays : {b : Stage} → resting a.player ≡ false → b ≡ played_on a → Act calls a b

  pub data Acts (calls : Pc → Bool) (a : Stage) : Stage → Type 0 where
    stays : Acts calls a a
    acts : {b c : Stage} → Acts calls a b → Act calls b c → Acts calls a c
