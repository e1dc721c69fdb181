-- ===== src/Threads/Budget.antt =====
-- How many sections are left, at most, when no new call comes.
use team9osdriver.Prelude.{ℕ, suc, ◌+◌, ◌*◌, ◌≤◌, ◌<◌, ◌≡◌, ap, arith, Bool, true, if◌then◌else◌}
use native.Mathlib.Decide.{dec_lt}
use team9osdriver.Buffer.{buffer_start_replay}
use team9osdriver.Device.{Kernel, Dev, notify_readers, state_op_start_replay}
use team9osdriver.Threads.{Pc, ended, TimerPc, WorkerPc, advance, timer_advance}
use team9osdriver.Threads.System.{
  System, at_start, can_go, entry, none_new, Step, call, go, fire, tick, begin, work, Steps, stay,
  more, thread_step, timer_step, worker_step, timer_fires, worker_begins,
}
use team9osdriver.Threads.Counting.{sum_below, sum_below-update, sum_below_at_most}
use team9osdriver.Threads.Progress.{
  rank, timer_rank, worker_advance-falls, timer_advance-falls, worker_advance-keeps,
}
use team9osdriver.Threads.Calls.{left, advance-falls}
use team9osdriver.Threads.Teaching.{armed, worker_advance-armed}

left_at_most : (p : Pc) → left p ≤ 10
unfolding left
left_at_most p = ground arith

abbrev bit : Bool → ℕ
bit b = if b then 1 else 0

bit_at_most : (b : Bool) → bit b ≤ 1
bit_at_most b = ground arith

going_left : (p : Pc) (t : TimerPc) (w : WorkerPc) → can_go p t w ≡ true → 0 < left p
unfolding left
going_left p t w h = ground (arith, h)

module _ (k : Kernel) where
  -- Only the threads below `n` are in a call.
  abbrev pub OnlyBelow : ℕ → System k → Type 0
  OnlyBelow n s = (i : ℕ) → n ≤ i → s.threads i ≡ ended

  -- A section of a call weighs more than what it can start: the timer, whose function can queue the
  -- work, and the work itself.
  unfoldable pub budget : ℕ → System k → ℕ
  budget n s =
      4125 * sum_below left n s.threads
      + 3094 * bit (armed k s.dev)
      + 1031 * timer_rank s.timer
      + 1030 * bit s.dev.buffer.work_pending
      + rank s.worker

  pub going_below :
      (n : ℕ) (s : System k) (i : ℕ)
      → OnlyBelow n s
      → can_go (s.threads i) s.timer s.worker ≡ true
      → i < n
  unfolding left
  going_below n s i below c = elim (dec_lt i n) [
    | yes l ↦ l
    | no g ↦ absurd (ground (arith, below i (omega arith)))
  ]

  timer_advance-armed : (t : TimerPc) (d : Dev k) → armed k (timer_advance k t d).1 ≡ armed k d
  unfolding timer_advance notify_readers state_op_start_replay buffer_start_replay
  timer_advance-armed t d = ground arith

  -- Each section that is not a new call takes from the budget.
  pub Step-budget :
      (n : ℕ) {s t : System k} → Step k none_new s t → OnlyBelow n s → budget n t < budget n s
  unfolding budget thread_step timer_step worker_step timer_fires worker_begins timer_rank rank
  Step-budget n (call i p e c) below = absurd (ground (arith, c))
  Step-budget n {s} (go i c) below =
      let (p', d') = advance k (s.threads i) s.dev in
      omega (
        arith,
        sum_below-update left n s.threads i p' (going_below n s i below c),
        advance-falls k (s.threads i) s.dev (going_left (s.threads i) s.timer s.worker c),
        bit_at_most (armed k d'),
        bit_at_most d'.buffer.work_pending,
      )
  Step-budget n {s} (fire t r e) below = rw e (omega arith)
  Step-budget n {s} (tick r) below = omega (
    arith,
    timer_advance-falls k s.timer s.dev r,
    ap bit (timer_advance-armed s.timer s.dev),
    bit_at_most (timer_advance k s.timer s.dev).1.buffer.work_pending,
  )
  Step-budget n {s} (begin room r e z) below = rw e (omega arith)
  Step-budget n {s} (work r) below = omega (
    arith,
    worker_advance-falls k s.worker s.dev r,
    ap bit (worker_advance-armed k s.worker s.dev),
    ap bit (worker_advance-keeps k s.worker s.dev).1,
  )

  pub Step-OnlyBelow :
      (n : ℕ) {s t : System k} → Step k none_new s t → OnlyBelow n s → OnlyBelow n t
  unfolding thread_step timer_step worker_step timer_fires worker_begins
  Step-OnlyBelow n (call i p e c) below = absurd (ground (arith, c))
  Step-OnlyBelow n {s} (go i c) below = λ j h. ground (arith, going_below n s i below c, below j h)
  Step-OnlyBelow n (fire t r e) below = below
  Step-OnlyBelow n (tick r) below = below
  Step-OnlyBelow n (begin room r e z) below = below
  Step-OnlyBelow n (work r) below = below

  pub Steps-OnlyBelow :
      (n : ℕ) {s t : System k} → Steps k none_new s t → OnlyBelow n s → OnlyBelow n t
  Steps-OnlyBelow n stay below = below
  Steps-OnlyBelow n (more r st) below = Step-OnlyBelow n st (Steps-OnlyBelow n r below)

  -- the number of sections in an order of sections
  unfoldable pub sections_in : {calls : Pc → Bool} {s t : System k} → Steps k calls s t → ℕ
  sections_in stay = 0
  sections_in (more r st) = suc (sections_in r)

  sections_in-budget :
      (n : ℕ) {s t : System k} (r : Steps k none_new s t)
      → OnlyBelow n s
      → sections_in r + budget n t ≤ budget n s
  unfolding sections_in
  sections_in-budget n stay below = omega arith
  sections_in-budget n (more r st) below =
      omega (arith, sections_in-budget n r below, Step-budget n st (Steps-OnlyBelow n r below))

  -- A worker that runs has copied 256 movements at most.
  pub Step-rank :
      {calls : Pc → Bool} {s t : System k}
      → Step k calls s t
      → rank s.worker ≤ 1029
      → rank t.worker ≤ 1029
  unfolding thread_step timer_step worker_step timer_fires worker_begins rank
  Step-rank (call i p e c) h = h
  Step-rank (go i c) h = h
  Step-rank (fire t r e) h = h
  Step-rank (tick r) h = h
  Step-rank (begin room r e z) h = omega arith
  Step-rank {s = s} (work r) h = omega (arith, worker_advance-falls k s.worker s.dev r, h)

  Steps-rank :
      {calls : Pc → Bool} {s t : System k}
      → Steps k calls s t
      → rank s.worker ≤ 1029
      → rank t.worker ≤ 1029
  Steps-rank stay h = h
  Steps-rank (more r st) h = Step-rank st (Steps-rank r h)

  pub start_rank : (d : Dev k) → rank (at_start k d).worker ≤ 1029
  unfolding rank
  start_rank d = omega arith

  timer_rank_at_most : (t : TimerPc) → timer_rank t ≤ 3
  unfolding timer_rank
  timer_rank_at_most t = ground arith

  pub budget_at_most : (n : ℕ) (s : System k) → rank s.worker ≤ 1029 → budget n s ≤ 41250 * n + 8246
  unfolding budget
  budget_at_most n s h = omega (
    arith,
    h,
    sum_below_at_most left 10 left_at_most n s.threads,
    bit_at_most (armed k s.dev),
    timer_rank_at_most s.timer,
    bit_at_most s.dev.buffer.work_pending,
  )

  -- On a device with nothing under way at first: whatever threads have called the driver, in
  -- whatever order of their sections, stops and RESETs included: if threads below `n` only are in a
  -- call then, no order of sections without a new call goes on for ever, for it has at most 41250 n
  -- + 8246 sections.
  pub orders_end :
      (d : Dev k) (n : ℕ) {s t : System k}
      → Steps k entry (at_start k d) s
      → OnlyBelow n s
      → (r : Steps k none_new s t) → sections_in r ≤ 41250 * n + 8246
  orders_end d n {s = s} before below r =
      omega
        (arith, sections_in-budget n r below, budget_at_most n s (Steps-rank before (start_rank d)))
