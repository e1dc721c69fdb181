-- ===== src/Threads/System.antt =====
-- Threads of the driver in any number over one device, with the timer and the work queue of the
-- kernel.
use team9osdriver.Prelude.{
  ℕ, ◌≡◌, Bool, true, false, Option, none, some, List, length, if◌then◌else◌, ◌==◌,
}
use team9osdriver.Types.{Move, fifo_size}
use team9osdriver.Device.{Kernel, Dev}
use team9osdriver.Threads.{
  Pc, ended, input_lock, start_lock, stop_lock, teach_lock, direct_move, start_timer, stop_timer,
  stop_cancel, reset_lock, reset_timer, reset_cancel, TimerPc, timer_rests, timer_locks, WorkerPc,
  worker_rests, worker_starts, advance, timer_advance, worker_advance,
}

-- a family with one value changed
abbrev pub update {ℓ} : {A : Type ℓ} → (ℕ → A) → ℕ → A → ℕ → A
update f i p j = if i == j then p else f j

-- the first sections of the calls
abbrev pub entry : Pc → Bool
entry (input_lock _ _ _) = true
entry start_lock = true
entry stop_lock = true
entry reset_lock = true
entry (teach_lock _) = true
entry (direct_move _ _) = true
entry _ = false

-- the same, but for a stop and a RESET
abbrev pub entry_but_stop : Pc → Bool
entry_but_stop stop_lock = false
entry_but_stop reset_lock = false
entry_but_stop p = entry p

-- no new call
abbrev pub none_new : Pc → Bool
none_new p = false

abbrev pub timer_at_rest : TimerPc → Bool
timer_at_rest timer_rests = true
timer_at_rest _ = false

abbrev pub worker_at_rest : WorkerPc → Bool
worker_at_rest worker_rests = true
worker_at_rest _ = false

-- `timer_delete_sync` waits for a timer function that runs, and `cancel_work_sync` for a worker.
abbrev pub can_go : Pc → TimerPc → WorkerPc → Bool
can_go ended t w = false
can_go start_timer t w = timer_at_rest t
can_go stop_timer t w = timer_at_rest t
can_go stop_cancel t w = worker_at_rest w
can_go reset_timer t w = timer_at_rest t
can_go reset_cancel t w = worker_at_rest w
can_go _ t w = true

-- What `kmalloc_array` gives: nothing, or room for 256 movements with any contents.
abbrev pub IsMemory : Option (List Move) → Type 0
IsMemory none = Unit {0}
IsMemory (some moves) = length moves ≡ fifo_size

module _ (k : Kernel) where
  pub record System : Type 0 where
    pub dev : Dev k
    pub threads : ℕ → Pc
    pub timer : TimerPc
    pub worker : WorkerPc

  abbrev pub at_start : Dev k → System
  at_start d = record { dev = d; threads = λ _. ended; timer = timer_rests; worker = worker_rests }

  unfoldable pub thread_step : ℕ → System → System
  thread_step i s =
      let (p, d) = advance k (s.threads i) s.dev in
      record s { dev = d; threads = update s.threads i p }

  unfoldable pub timer_step : System → System
  timer_step s = let (t, d) = timer_advance k s.timer s.dev in record s { dev = d; timer = t }

  unfoldable pub worker_step : System → System
  worker_step s = let (w, d) = worker_advance k s.worker s.dev in record s { dev = d; worker = w }

  -- The kernel disarms a timer that expires and starts its function.
  unfoldable pub timer_fires : System → System
  timer_fires s = record s {
    dev = record (s.dev) { state = record (s.dev.state) { inactivity_timer = none } };
    timer = timer_locks;
  }

  -- The kernel takes a work off the queue and starts it; `moves` is what its kmalloc_array gives.
  unfoldable pub worker_begins : Option (List Move) → System → System
  worker_begins moves s = record s {
    dev = record (s.dev) { buffer = record (s.dev.buffer) { work_pending = false } };
    worker = worker_starts moves;
  }

  -- One section of one thread. `calls` are the calls that may be made.
  pub data Step (calls : Pc → Bool) (s : System) : System → Type 0 where
    call :
        (i : ℕ) (p : Pc)
        → s.threads i ≡ ended
        → calls p ≡ true
        → Step calls s (record s { threads = update s.threads i p })
    go : (i : ℕ) → can_go (s.threads i) s.timer s.worker ≡ true → Step calls s (thread_step i s)
    fire :
        (t : ℕ)
        → timer_at_rest s.timer ≡ true
        → s.dev.state.inactivity_timer ≡ some t
        → Step calls s (timer_fires s)
    tick : timer_at_rest s.timer ≡ false → Step calls s (timer_step s)
    begin :
        (moves : Option (List Move))
        → worker_at_rest s.worker ≡ true
        → s.dev.buffer.work_pending ≡ true
        → IsMemory moves
        → Step calls s (worker_begins moves s)
    work : worker_at_rest s.worker ≡ false → Step calls s (worker_step s)

  -- Any steps, one after the other.
  pub data Steps (calls : Pc → Bool) (s : System) : System → Type 0 where
    stay : Steps calls s s
    more : {t u : System} → Steps calls s t → Step calls t u → Steps calls s u

  pub Steps-trans :
      {calls : Pc → Bool} {s t u : System} → Steps calls s t → Steps calls t u → Steps calls s u
  Steps-trans a stay = a
  Steps-trans a (more b st) = more (Steps-trans a b) st

  pub Steps-weaken :
      {few many : Pc → Bool} {s t : System}
      → ((p : Pc) → few p ≡ true → many p ≡ true)
      → Steps few s t
      → Steps many s t
  Steps-weaken w stay = stay
  Steps-weaken w (more r (call i p e c)) = more (Steps-weaken w r) (call i p e (w p c))
  Steps-weaken w (more r (go i c)) = more (Steps-weaken w r) (go i c)
  Steps-weaken w (more r (fire t b e)) = more (Steps-weaken w r) (fire t b e)
  Steps-weaken w (more r (tick b)) = more (Steps-weaken w r) (tick b)
  Steps-weaken w (more r (begin moves b e z)) = more (Steps-weaken w r) (begin moves b e z)
  Steps-weaken w (more r (work b)) = more (Steps-weaken w r) (work b)
