-- ===== src/Threads/Waiting/Budget.antt =====
-- How many turns of writers of REPLAY are left, at most, when nothing new comes.
use team9osdriver.Prelude.{ℕ, suc, ◌+◌, ◌*◌, ◌≤◌, ◌<◌, ◌≡◌, arith, Bool, false}
use native.Mathlib.Decide.{dec_lt}
use team9osdriver.Types.{Mode}
use team9osdriver.Device.{Kernel, Dev}
use team9osdriver.Threads.{Pc}
use team9osdriver.Threads.System.{
  none_new, go, fire, tick, begin, work, timer_fires, timer_step, worker_begins, worker_step,
}
use team9osdriver.Threads.Counting.{sum_below, sum_below-update, sum_below_at_most}
use team9osdriver.Threads.Progress.{rank}
use team9osdriver.Threads.Budget.{
  OnlyBelow, going_below, budget, Step-budget, Step-OnlyBelow, Step-rank, start_rank,
  budget_at_most,
}
use team9osdriver.Threads.Waiting.{
  Write, no_write, starts_replay, waits_replay, next_write, Writers, at_rest, write_begins, section,
  wait_ends, Turn, Turns, write, wake, interrupt, none_yet, further,
}
use team9osdriver.Threads.Waiting

-- a write that is to end
abbrev weight : Write → ℕ
weight no_write = 0
weight _ = 1

next_weight : (v : Write) (p : Pc) (m : Mode) → weight (next_write v p m) ≤ weight v
next_weight v p m = ground arith

weight_at_most : (v : Write) → weight v ≤ 1
weight_at_most v = ground arith

module _ (k : Kernel) where
  -- Only the threads below `n` are in a call or in a write.
  pub record BusyBelow (n : ℕ) (w : Writers k) : Type 0 where
    pub calls : OnlyBelow k n w.sys
    pub writes : (i : ℕ) → n ≤ i → w.writes i ≡ no_write

  unfoldable left_to_do : ℕ → Writers k → ℕ
  left_to_do n w = budget k n w.sys + sum_below weight n w.writes

  waiting_below :
      (n : ℕ) (w : Writers k) (i : ℕ) → BusyBelow n w → w.writes i ≡ waits_replay → i < n
  waiting_below n w i b e = elim (dec_lt i n) [
    | yes l ↦ l
    | no g ↦ absurd (ground (arith, b.writes i (omega arith), e))
  ]

  Turn-left_to_do :
      (n : ℕ) {w v : Writers k}
      → Turn k none_new false w v
      → BusyBelow n w
      → left_to_do n v < left_to_do n w
  unfolding left_to_do section wait_ends
  Turn-left_to_do n (Waiting.call i p e q c) b = absurd (ground (arith, c))
  Turn-left_to_do n (write i e q c) b = absurd (ground (arith, c))
  Turn-left_to_do n {w} (Waiting.go i c) b =
      let v' = next_write (w.writes i) (w.sys.threads i) w.sys.dev.state.mode in
      omega (
        arith,
        Step-budget k n {s = w.sys} (go i c) b.calls,
        sum_below-update weight n w.writes i v' (going_below k n w.sys i b.calls c),
        next_weight (w.writes i) (w.sys.threads i) w.sys.dev.state.mode,
      )
  Turn-left_to_do n {w} (wake i e f) b =
      ground (arith, sum_below-update weight n w.writes i no_write (waiting_below n w i b e), e)
  Turn-left_to_do n (interrupt i e c) b = absurd (ground (arith, c))
  Turn-left_to_do n {w} (Waiting.fire t r e) b =
      omega (arith, Step-budget k n {s = w.sys} (fire t r e) b.calls)
  Turn-left_to_do n {w} (Waiting.tick r) b =
      omega (arith, Step-budget k n {s = w.sys} (tick r) b.calls)
  Turn-left_to_do n {w} (Waiting.begin room r e z) b =
      omega (arith, Step-budget k n {s = w.sys} (begin room r e z) b.calls)
  Turn-left_to_do n {w} (Waiting.work r) b =
      omega (arith, Step-budget k n {s = w.sys} (work r) b.calls)

  Turn-BusyBelow :
      (n : ℕ) {w v : Writers k} → Turn k none_new false w v → BusyBelow n w → BusyBelow n v
  unfolding section wait_ends timer_fires timer_step worker_begins worker_step
  Turn-BusyBelow n (Waiting.call i p e q c) b = absurd (ground (arith, c))
  Turn-BusyBelow n (write i e q c) b = absurd (ground (arith, c))
  Turn-BusyBelow n {w} (Waiting.go i c) b = record {
    calls = Step-OnlyBelow k n {s = w.sys} (go i c) b.calls;
    writes = λ j h. ground (arith, going_below k n w.sys i b.calls c, b.writes j h);
  }
  Turn-BusyBelow n {w} (wake i e f) b = record {
    calls = b.calls;
    writes = λ j h. ground (arith, b.writes j h);
  }
  Turn-BusyBelow n (interrupt i e c) b = absurd (ground (arith, c))
  Turn-BusyBelow n {w} (Waiting.fire t r e) b = record { calls = b.calls; writes = b.writes }
  Turn-BusyBelow n {w} (Waiting.tick r) b = record { calls = b.calls; writes = b.writes }
  Turn-BusyBelow n {w} (Waiting.begin room r e z) b = record { calls = b.calls; writes = b.writes }
  Turn-BusyBelow n {w} (Waiting.work r) b = record { calls = b.calls; writes = b.writes }

  pub Turns-BusyBelow :
      (n : ℕ) {w v : Writers k} → Turns k none_new false w v → BusyBelow n w → BusyBelow n v
  Turns-BusyBelow n none_yet b = b
  Turns-BusyBelow n (further r t) b = Turn-BusyBelow n t (Turns-BusyBelow n r b)

  -- the number of turns in an order of them
  unfoldable pub turns_in :
      {calls : Pc → Bool} {new : Bool} {w v : Writers k} → Turns k calls new w v → ℕ
  turns_in none_yet = 0
  turns_in (further r t) = suc (turns_in r)

  turns_in-left_to_do :
      (n : ℕ) {w v : Writers k} (r : Turns k none_new false w v)
      → BusyBelow n w
      → turns_in r + left_to_do n v ≤ left_to_do n w
  unfolding turns_in
  turns_in-left_to_do n none_yet b = omega arith
  turns_in-left_to_do n (further r t) b =
      omega (arith, turns_in-left_to_do n r b, Turn-left_to_do n t (Turns-BusyBelow n r b))

  Turn-rank :
      {calls : Pc → Bool} {new : Bool} {w v : Writers k}
      → Turn k calls new w v
      → rank w.sys.worker ≤ 1029
      → rank v.sys.worker ≤ 1029
  unfolding write_begins section wait_ends timer_fires timer_step
  Turn-rank (Waiting.call i p e q c) h = h
  Turn-rank (write i e q c) h = h
  Turn-rank {calls = calls} {w = w} (Waiting.go i c) h =
      Step-rank k {calls = calls} {s = w.sys} (go i c) h
  Turn-rank (wake i e f) h = h
  Turn-rank (interrupt i e c) h = h
  Turn-rank (Waiting.fire t r e) h = h
  Turn-rank (Waiting.tick r) h = h
  Turn-rank {calls = calls} {w = w} (Waiting.begin room r e z) h =
      Step-rank k {calls = calls} {s = w.sys} (begin room r e z) h
  Turn-rank {calls = calls} {w = w} (Waiting.work r) h =
      Step-rank k {calls = calls} {s = w.sys} (work r) h

  Turns-rank :
      {calls : Pc → Bool} {new : Bool} {w v : Writers k}
      → Turns k calls new w v
      → rank w.sys.worker ≤ 1029
      → rank v.sys.worker ≤ 1029
  Turns-rank none_yet h = h
  Turns-rank (further r t) h = Turn-rank t (Turns-rank r h)

  -- Whatever threads have called the driver and written REPLAY: with threads below `n` only in a
  -- call or in a write, and nothing new, there are few turns.
  pub turns_end :
      (d : Dev k) (n : ℕ) {calls : Pc → Bool} {new : Bool} {w v : Writers k}
      → Turns k calls new (at_rest k d) w
      → BusyBelow n w
      → (r : Turns k none_new false w v) → turns_in r ≤ 41251 * n + 8246
  unfolding left_to_do
  turns_end d n {w = w} before b r = omega (
    arith,
    turns_in-left_to_do n r b,
    sum_below_at_most weight 1 weight_at_most n w.writes,
    budget_at_most k n w.sys (Turns-rank before (start_rank k d)),
  )
