-- ===== src/Threads/Waiting/Ending.antt =====
-- Where writers of REPLAY get to when nothing new comes.
use team9osdriver.Prelude.{
  ℕ, zero, suc, ◌+◌, ◌*◌, ◌≤◌, ◌<◌, ◌≡◌, ◌≢◌, ◌⊎◌, inl, inr, refl, arith, true, false,
}
use native.Mathlib.Decide.{ℕ_discrete, dec_lt}
use team9osdriver.Types.{replay}
use team9osdriver.Device.{Kernel, Dev}
use team9osdriver.Threads.System.{
  System, entry_but_stop, none_new, Step, call, go, fire, tick, begin, work,
}
use team9osdriver.Threads.Rest.{AtRest, progress}
use team9osdriver.Threads.Waiting.{
  Write, no_write, starts_replay, waits_replay, next_write, Writers, at_rest, write_begins, section,
  wait_ends, Turn, Turns, write, wake, interrupt, none_yet, further,
}
use team9osdriver.Threads.Waiting
use team9osdriver.Threads.Waiting.Budget.{BusyBelow, Turns-BusyBelow, turns_in, turns_end}
use team9osdriver.Threads.Waiting.Owed.{IsPromised}
use team9osdriver.Threads.Waiting.Kept.{Kept, Turns-Kept}

sleeps_or_not : (v : Write) → (v ≡ waits_replay) ⊎ (v ≢ waits_replay)
sleeps_or_not waits_replay = inl refl
sleeps_or_not v = inr (λ e. ground (arith, e))

-- Of the threads below `n`, either one sleeps or none does.
sleepers :
    (n : ℕ) (f : ℕ → Write)
    → ((i : ℕ) × (f i ≡ waits_replay)) ⊎ ((i : ℕ) → i < n → f i ≢ waits_replay)
sleepers zero f = inr (λ i h. absurd (omega arith))
sleepers (suc n) f = elim (sleeps_or_not (f n)) [
  | inl e ↦ inl (n, e)
  | inr z ↦ elim (sleepers n f) [
    | inl c ↦ inl c
    | inr all ↦ inr (λ i h. elim (ℕ_discrete i n) [ yes e ↦ rw e z | no ne ↦ all i (omega arith) ])
  ]
]

module _ (k : Kernel) where
  -- There is a turn to come that is nothing new.
  abbrev pub CanGoOn : Writers k → Type 0
  CanGoOn w = (v : Writers k) × Turn k none_new false w v

  turn_of : (w : Writers k) {t : System k} → Step k none_new w.sys t → CanGoOn w
  turn_of w (call i p e c) = absurd (ground (arith, c))
  turn_of w (go i c) = (_, Waiting.go i c)
  turn_of w (fire t r e) = (_, Waiting.fire t r e)
  turn_of w (tick r) = (_, Waiting.tick r)
  turn_of w (begin room r e z) = (_, Waiting.begin room r e z)
  turn_of w (work r) = (_, Waiting.work r)

  quiet_turns : {w v : Writers k} → Turns k none_new false w v → Turns k entry_but_stop false w v
  quiet_turns none_yet = none_yet
  quiet_turns (further r (Waiting.call i p e q c)) = absurd (ground (arith, c))
  quiet_turns (further r (write i e q c)) = further (quiet_turns r) (write i e q c)
  quiet_turns (further r (Waiting.go i c)) = further (quiet_turns r) (Waiting.go i c)
  quiet_turns (further r (wake i e f)) = further (quiet_turns r) (wake i e f)
  quiet_turns (further r (interrupt i e c)) = further (quiet_turns r) (interrupt i e c)
  quiet_turns (further r (Waiting.fire t b e)) = further (quiet_turns r) (Waiting.fire t b e)
  quiet_turns (further r (Waiting.tick b)) = further (quiet_turns r) (Waiting.tick b)
  quiet_turns (further r (Waiting.begin room b e z)) =
      further (quiet_turns r) (Waiting.begin room b e z)
  quiet_turns (further r (Waiting.work b)) = further (quiet_turns r) (Waiting.work b)

  -- With nothing under way a promise has been kept.
  rest-IsPromised : (s : System k) → AtRest k s → IsPromised k s → s.dev.replay_finished ≡ true
  rest-IsPromised s r (inl set) = set
  rest-IsPromised s r (inr (inl p)) = absurd (ground (arith, r.nothing_queued))
  rest-IsPromised s r (inr (inr (inl b))) = absurd (ground (arith, r.worker))
  rest-IsPromised s r (inr (inr (inr (inl q)))) = absurd (ground (arith, r.timer))
  rest-IsPromised s r (inr (inr (inr (inr (i, y))))) = absurd (ground (arith, r.threads i))

  none_sleeps :
      (n : ℕ) (w : Writers k)
      → BusyBelow k n w
      → ((i : ℕ) → i < n → w.writes i ≢ waits_replay)
      → (i : ℕ) → w.writes i ≢ waits_replay
  none_sleeps n w b all i = elim (dec_lt i n) [
    | yes l ↦ all i l
    | no g ↦ λ e. ground (arith, b.writes i (omega arith), e)
  ]

  -- On a device that is not in REPLAY at first, with nothing under way: whatever threads call the
  -- driver and write REPLAY, in whatever order of their sections, with signals or not, if none of
  -- them has called for a stop or a RESET and threads below `n` only are in a call or in a write:
  -- when no new call, no new write and no signal comes, each order of what is left has at most
  -- 41251 n + 8246 sections and wakings, and it can go on until nothing of the driver is under way
  -- and no writer sleeps.
  pub every_write_ends :
      (d : Dev k) (n : ℕ) {w v : Writers k}
      → d.state.mode ≢ replay
      → Turns k entry_but_stop true (at_rest k d) w
      → BusyBelow k n w
      → (r : Turns k none_new false w v)
      → (turns_in k r ≤ 41251 * n + 8246)
        × (CanGoOn v ⊎ (AtRest k v.sys × ((i : ℕ) → v.writes i ≢ waits_replay)))
  every_write_ends d n {w = w} {v = v} m before b r =
      let first : Kept k (at_rest k d) = record {
        live = record { no_stop = λ j. refl; goes_on = λ n. absurd (m n) };
        promised = λ j b. absurd (b refl);
      } in
      let kept = Turns-Kept k (quiet_turns r) (Turns-Kept k before first) in
      let below = Turns-BusyBelow k n r b in
      (
        turns_end k d n before b r,
        elim (progress k n v.sys below.calls) [
          | inl (t, st) ↦ inl (turn_of v st)
          | inr rest ↦ elim (sleepers n v.writes) [
            | inl (i, e) ↦ inl (
              _,
              wake i e (rest-IsPromised v.sys rest (kept.promised i (λ a. ground (arith, a, e)))),
            )
            | inr all ↦ inr (rest, none_sleeps n v below all)
          ]
        ],
      )
