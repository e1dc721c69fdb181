-- ===== src/Threads/Rest.antt =====
-- Where the threads of the driver get to when no new call comes.
use team9osdriver.Prelude.{
  ℕ, zero, suc, ◌≤◌, ◌<◌, ◌+◌, ◌*◌, ◌≡◌, refl, arith, true, false, Bool-cases, Option, none, some,
  ◌⊎◌, inl, inr, replicate,
}
use native.Mathlib.Decide.{ℕ_discrete, dec_lt}
use team9osdriver.Types.{Mode, idle, teach, replay, fifo_size}
use team9osdriver.Buffer.{no_move}
use team9osdriver.Device.{Kernel, Dev}
use team9osdriver.Threads.{Pc, ended}
use team9osdriver.Threads.System.{
  System, at_start, timer_at_rest, worker_at_rest, entry, entry_but_stop, none_new, Step, go, fire,
  tick, begin, work, Steps, Steps-weaken,
}
use team9osdriver.Threads.Calls.{left, left_zero, go_at_rest}
use team9osdriver.Threads.Replay.{GoesOn}
use team9osdriver.Threads.Teaching.{WillEnd, BothEnd, Steps-BothEnd}
use team9osdriver.Threads.Budget.{sections_in, orders_end, OnlyBelow, Steps-OnlyBelow}

mode_cases : (m : Mode) → (m ≡ idle) ⊎ ((m ≡ teach) ⊎ (m ≡ replay))
mode_cases m = ground arith

option_cases : (o : Option ℕ) → (o ≡ none) ⊎ ((t : ℕ) × (o ≡ some t))
option_cases none = inl refl
option_cases (some t) = inr (t, refl)

-- Of the threads below `n`, either one is in a call or none is.
callers : (n : ℕ) (f : ℕ → Pc) → ((i : ℕ) × (0 < left (f i))) ⊎ ((i : ℕ) → i < n → f i ≡ ended)
callers zero f = inr (λ i h. absurd (omega arith))
callers (suc n) f = elim (dec_lt 0 (left (f n))) [
  | yes l ↦ inl (n, l)
  | no z ↦ elim (callers n f) [
    | inl c ↦ inl c
    | inr all ↦ inr (λ i h. elim (ℕ_discrete i n) [
      | yes e ↦ rw e (left_zero (f n) (omega arith))
      | no ne ↦ all i (omega arith)
    ])
  ]
]

but_stop_is_entry : (p : Pc) → entry_but_stop p ≡ true → entry p ≡ true
but_stop_is_entry p e = ground (arith, e)

module _ (k : Kernel) where
  -- Nothing is under way, armed or queued.
  pub record AtRest (s : System k) : Type 0 where
    pub threads : (i : ℕ) → s.threads i ≡ ended
    pub timer : timer_at_rest s.timer ≡ true
    pub worker : worker_at_rest s.worker ≡ true
    pub disarmed : s.dev.state.inactivity_timer ≡ none
    pub nothing_queued : s.dev.buffer.work_pending ≡ false

  -- There is a section to come that is no new call.
  abbrev pub CanGoOn : System k → Type 0
  CanGoOn s = (t : System k) × Step k none_new s t

  all_ended :
      (n : ℕ) (s : System k)
      → OnlyBelow k n s
      → ((i : ℕ) → i < n → s.threads i ≡ ended)
      → (i : ℕ) → s.threads i ≡ ended
  all_ended n s below all i = elim (dec_lt i n) [ yes l ↦ all i l | no g ↦ below i (omega arith) ]

  -- With the timer's function and the worker at rest, a thread can go on, or nothing is under way.
  threads_go_on :
      (n : ℕ) (s : System k)
      → OnlyBelow k n s
      → timer_at_rest s.timer ≡ true
      → worker_at_rest s.worker ≡ true
      → CanGoOn s ⊎ AtRest s
  threads_go_on n s below t w = elim (callers n s.threads) [
    | inl (i, l) ↦ inl (_, go i (go_at_rest (s.threads i) s.timer s.worker l t w))
    | inr all ↦ elim (option_cases s.dev.state.inactivity_timer) [
      | inr (at, e) ↦ inl (_, fire at t e)
      | inl e ↦ elim (Bool-cases s.dev.buffer.work_pending) [
        | inl p ↦ inl (_, begin (some (replicate fifo_size no_move)) w p refl)
        | inr p ↦ inr (record {
          threads = all_ended n s below all;
          timer = t;
          worker = w;
          disarmed = e;
          nothing_queued = p;
        })
      ]
    ]
  ]

  pub progress : (n : ℕ) (s : System k) → OnlyBelow k n s → CanGoOn s ⊎ AtRest s
  progress n s below = elim (Bool-cases (timer_at_rest s.timer)) [
    | inr t ↦ inl (_, tick t)
    | inl t ↦ elim (Bool-cases (worker_at_rest s.worker)) [
      | inr w ↦ inl (_, work w)
      | inl w ↦ threads_go_on n s below t w
    ]
  ]

  rest-GoesOn : (s : System k) → AtRest s → ¬ GoesOn k s
  rest-GoesOn s r (inl p) = ground (arith, r.nothing_queued)
  rest-GoesOn s r (inr (inl a)) = ground (arith, r.worker)
  rest-GoesOn s r (inr (inr (inl q))) = ground (arith, r.timer)
  rest-GoesOn s r (inr (inr (inr (i, y)))) = ground (arith, r.threads i)

  rest-WillEnd : (s : System k) → AtRest s → ¬ WillEnd k s
  rest-WillEnd s r (inl a) = ground (arith, r.disarmed)
  rest-WillEnd s r (inr (inl x)) = ground (arith, r.timer)
  rest-WillEnd s r (inr (inr (inl (i, y)))) = ground (arith, r.threads i)
  rest-WillEnd s r (inr (inr (inr g))) = rest-GoesOn s r g

  rest_is_idle : (s : System k) → BothEnd k s → AtRest s → s.dev.state.mode ≡ idle
  rest_is_idle s b r = elim (mode_cases s.dev.state.mode) [
    | inl m ↦ m
    | inr (inl m) ↦ absurd (rest-WillEnd s r (b.teaches m))
    | inr (inr m) ↦ absurd (rest-GoesOn s r (b.replays.goes_on m))
  ]

  start-BothEnd : (d : Dev k) → d.state.mode ≡ idle → BothEnd k (at_start k d)
  start-BothEnd d i = record {
    replays = record { no_stop = λ j. refl; goes_on = λ m. ground arith };
    teaches = λ m. ground arith;
  }

  -- On a device that is in IDLE at first, with nothing under way: whatever threads have called the
  -- driver, in whatever order of their sections, if none of them has called for a stop or a RESET
  -- and threads below `n` only are in a call: when no new call comes, each order of the sections
  -- that are left has at most 41250 n + 8246 of them, and it can go on until every call has ended,
  -- the timer is not armed, nothing is queued, nothing runs, and the mode is IDLE.
  pub every_order_rests :
      (d : Dev k) (n : ℕ) {s t : System k}
      → d.state.mode ≡ idle
      → Steps k entry_but_stop (at_start k d) s
      → OnlyBelow k n s
      → (r : Steps k none_new s t)
      → (sections_in k r ≤ 41250 * n + 8246) × (CanGoOn t ⊎ (AtRest t × (t.dev.state.mode ≡ idle)))
  every_order_rests d n {t = t} i before below r =
      let quiet = Steps-weaken k (λ p e. absurd (ground arith)) r in
      let b = Steps-BothEnd k quiet (Steps-BothEnd k before (start-BothEnd d i)) in
      let all = Steps-weaken k (λ p e. but_stop_is_entry p e) before in
      (
        orders_end k d n all below r,
        elim (progress n t (Steps-OnlyBelow k n r below)) [
          | inl on ↦ inl on
          | inr rest ↦ inr (rest, rest_is_idle t b rest)
        ],
      )
