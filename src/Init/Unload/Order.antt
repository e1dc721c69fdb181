-- ===== src/Init/Unload/Order.antt =====
-- What `echo_exit` of module/echo_main.c has stopped at each of its parts, and so what may still
-- run.
use team9osdriver.Prelude.{ℕ, ◌≡◌, refl, ◌∙◌, arith, Bool, true, false, none}
use team9osdriver.State.{replay_complete}
use team9osdriver.Device.{Kernel, Dev, op_move_servo, notify_readers, signal_replay_done}
use team9osdriver.Threads.{Pc, ended, TimerPc, WorkerPc, worker_advance}
use team9osdriver.Threads.System.{
  System, Step, call, go, fire, tick, begin, work, can_go, timer_at_rest, worker_at_rest,
  thread_step, timer_step, worker_step, timer_fires, worker_begins,
}
use team9osdriver.Init.Unload.{
  Part, state_part, ExitPc, exit_begins, exit_irqs, exit_timer, exit_state, exit_work, exit_buffer,
  exit_servo, exit_device, unloaded, is_freed, worker_uses, timer_uses, thread_uses, calls_at,
  Unload, CanLeave, exit_advance, run, leave, Exits, here, next,
}

module _ (k : Kernel) where
  abbrev NoThreads : System k → Type 0
  NoThreads s = (i : ℕ) → s.threads i ≡ ended

  abbrev NoTimer : System k → Type 0
  NoTimer s = (timer_at_rest s.timer ≡ true) × (s.dev.state.inactivity_timer ≡ none)

  abbrev NoWork : System k → Type 0
  NoWork s = (worker_at_rest s.worker ≡ true) × (s.dev.buffer.work_pending ≡ false)

  -- what runs no longer at each part of `echo_exit`
  abbrev Stopped : ExitPc → System k → Type 0
  Stopped exit_begins s = Unit {0}
  Stopped exit_irqs s = Unit {0}
  Stopped exit_timer s = NoThreads s
  Stopped exit_state s = NoThreads s × NoTimer s
  Stopped exit_work s = NoThreads s × NoTimer s
  Stopped _ s = NoThreads s × NoTimer s × NoWork s

  worker_advance-timer :
      (w : WorkerPc) (d : Dev k)
      → (worker_advance k w d).1.state.inactivity_timer ≡ d.state.inactivity_timer
  unfolding worker_advance op_move_servo notify_readers signal_replay_done replay_complete
  worker_advance-timer w d = ground arith

  -- no section of a thread that is in no call
  ended_stays : (p : Pc) (t : TimerPc) (w : WorkerPc) → p ≡ ended → can_go p t w ≡ true → ⊥
  ended_stays p t w e c = ground arith

  Step-NoThreads :
      {calls : Pc → Bool} {s t : System k}
      → ((p : Pc) → calls p ≡ false)
      → Step k calls s t
      → NoThreads s
      → NoThreads t
  unfolding thread_step timer_step worker_step timer_fires worker_begins
  Step-NoThreads nocall (call i p e c) n = absurd (ground (arith, nocall p, c))
  Step-NoThreads {s = s} nocall (go i c) n =
      absurd (ended_stays (s.threads i) s.timer s.worker (n i) c)
  Step-NoThreads nocall (fire t r e) n = n
  Step-NoThreads nocall (tick r) n = n
  Step-NoThreads nocall (begin moves r e z) n = n
  Step-NoThreads nocall (work r) n = n

  Step-NoTimer :
      {calls : Pc → Bool} {s t : System k} → Step k calls s t → NoThreads s → NoTimer s → NoTimer t
  unfolding thread_step timer_step worker_step timer_fires worker_begins
  Step-NoTimer (call i p e c) n q = q
  Step-NoTimer {s = s} (go i c) n q = absurd (ended_stays (s.threads i) s.timer s.worker (n i) c)
  Step-NoTimer (fire t r e) n (_, q) = absurd (ground (arith, e, q))
  Step-NoTimer (tick r) n (q, _) = absurd (ground (arith, r, q))
  Step-NoTimer (begin moves r e z) n q = q
  Step-NoTimer {s = s} (work r) n (q, e) = (q, worker_advance-timer s.worker s.dev ∙ e)

  Step-NoWork :
      {calls : Pc → Bool} {s t : System k}
      → Step k calls s t
      → NoThreads s
      → NoTimer s
      → NoWork s
      → NoWork t
  unfolding thread_step timer_step worker_step timer_fires worker_begins
  Step-NoWork (call i p e c) n q w = w
  Step-NoWork {s = s} (go i c) n q w = absurd (ended_stays (s.threads i) s.timer s.worker (n i) c)
  Step-NoWork (fire t r e) n (_, q) w = absurd (ground (arith, e, q))
  Step-NoWork (tick r) n (q, _) w = absurd (ground (arith, r, q))
  Step-NoWork (begin moves r e z) n q (_, w) = absurd (ground (arith, e, w))
  Step-NoWork (work r) n q (w, _) = absurd (ground (arith, r, w))

  Step-Stopped : (e : ExitPc) {s t : System k} → Step k (calls_at e) s t → Stopped e s → Stopped e t
  Step-Stopped exit_begins st q = tt
  Step-Stopped exit_irqs st q = tt
  Step-Stopped exit_timer st n = Step-NoThreads (λ p. refl) st n
  Step-Stopped exit_state st (n, q) = (Step-NoThreads (λ p. refl) st n, Step-NoTimer st n q)
  Step-Stopped exit_work st (n, q) = (Step-NoThreads (λ p. refl) st n, Step-NoTimer st n q)
  Step-Stopped exit_buffer st (n, q, w) =
      (Step-NoThreads (λ p. refl) st n, Step-NoTimer st n q, Step-NoWork st n q w)
  Step-Stopped exit_servo st (n, q, w) =
      (Step-NoThreads (λ p. refl) st n, Step-NoTimer st n q, Step-NoWork st n q w)
  Step-Stopped exit_device st (n, q, w) =
      (Step-NoThreads (λ p. refl) st n, Step-NoTimer st n q, Step-NoWork st n q w)
  Step-Stopped unloaded st (n, q, w) =
      (Step-NoThreads (λ p. refl) st n, Step-NoTimer st n q, Step-NoWork st n q w)

  leave-Stopped :
      (e : ExitPc) (s : System k)
      → CanLeave k e s
      → Stopped e s
      → let v = exit_advance k e s in Stopped v.exit v.sys
  unfolding exit_advance
  leave-Stopped exit_begins s c q = tt
  leave-Stopped exit_irqs s c q = c
  leave-Stopped exit_timer s c n = (n, (c, refl))
  leave-Stopped exit_state s c q = q
  leave-Stopped exit_work s c (n, q) = (n, q, (c, refl))
  leave-Stopped exit_buffer s c q = q
  leave-Stopped exit_servo s c q = q
  leave-Stopped exit_device s c q = q
  leave-Stopped unloaded s c q = absurd c

  Exits-Stopped : {u v : Unload k} → Exits k u v → Stopped u.exit u.sys → Stopped v.exit v.sys
  Exits-Stopped here q = q
  Exits-Stopped (next {v = v} r (run st)) q = Step-Stopped v.exit st (Exits-Stopped r q)
  Exits-Stopped (next {v = v} r (leave c)) q = leave-Stopped v.exit v.sys c (Exits-Stopped r q)

  freed_threads :
      (e : ExitPc) (s : System k) (x : Part) → is_freed x e ≡ true → Stopped e s → NoThreads s
  freed_threads e s x f q = ground (arith, f, q)

  freed_timer :
      (e : ExitPc) (s : System k) (x : Part)
      → is_freed x e ≡ true
      → Stopped e s
      → timer_uses s.timer x ≡ false
  freed_timer e s x f q = ground (arith, f, q)

  freed_worker :
      (e : ExitPc) (s : System k) (x : Part)
      → is_freed x e ≡ true
      → Stopped e s
      → worker_uses s.worker x ≡ true
      → x ≡ state_part
  freed_worker e s x f q u = ground (arith, f, q, u)

  thread_uses-none : (p : Pc) → p ≡ ended → thread_uses p ≡ false
  thread_uses-none p e = ground (arith, e)

  -- While `echo_exit` runs, in any order of its parts and of the sections of the threads, the timer
  -- and the worker that were there when it began, and of any presses up to the end of `free_irq`:
  -- of the contexts that it has freed, no thread and no timer uses any, and the worker uses at most
  -- that of the state machine.
  pub freed_uses :
      (s : System k) {v : Unload k} (x : Part)
      → Exits k (record { sys = s; exit = exit_begins }) v
      → is_freed x v.exit ≡ true
      → ((i : ℕ) → thread_uses (v.sys.threads i) ≡ false)
        × (timer_uses v.sys.timer x ≡ false)
        × (worker_uses v.sys.worker x ≡ true → x ≡ state_part)
  freed_uses s {v} x r f =
      let q = Exits-Stopped r tt in
      (
        λ i. thread_uses-none (v.sys.threads i) (freed_threads v.exit v.sys x f q i),
        freed_timer v.exit v.sys x f q,
        freed_worker v.exit v.sys x f q,
      )
