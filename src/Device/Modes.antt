-- ===== src/Device/Modes.antt =====
-- The modes as a state machine, and that the device follows it.
use team9osdriver.Prelude.{ℕ, ◌≡◌, Bool, true, false, some, Option, arith}
use team9osdriver.Types.{Mode, idle, teach, replay}
use team9osdriver.Device.{Kernel, Dev}
use team9osdriver.Device.Events.{Event, input, expire, request, move, work, step}

-- The mode after an event, from the mode before it, whether the timer was armed and whether the
-- replay work was queued.
abbrev pub next : {k : Kernel} → Mode → Option ℕ → Bool → Event k → Mode
next replay t p (input now id delta) = replay
next m t p (input now id delta) = teach
next teach (some t) p expire = replay
next m t p expire = m
next m t p (request now m') = m'
next m t p (move id angle) = m
next m t true (work msleep moves) = idle
next m t false (work msleep moves) = m

module _ (k : Kernel) where
  -- Each event takes the mode where the state machine `next` says: input teaches unless the mode
  -- is replay, an armed timer turns teaching into replay, a request sets the mode that it names, a
  -- queued work ends in idle, and all else leaves the mode alone.
  mode-step :
      (d : Dev k) (e : Event k)
      → (step k d e).state.mode ≡ next d.state.mode d.state.inactivity_timer d.buffer.work_pending e
  unfolding step
  mode-step d (input now id delta) = ground arith
  mode-step d expire = ground arith
  mode-step d (request now m) = ground arith
  mode-step d (move id angle) = ground arith
  mode-step d (work msleep moves) = ground arith
