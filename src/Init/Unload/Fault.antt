-- ===== src/Init/Unload/Fault.antt =====
-- `echo_exit` of module/echo_main.c while a replay runs.
use team9osdriver.Prelude.{
  ℕ, zero, suc, ◌≤◌, ◌≡◌, refl, arith, Bool, true, false, ap, ◌∙◌, ◌⊎◌, none, some, inl, inr,
}
use team9osdriver.Device.{Kernel, Dev}
use team9osdriver.Threads.{
  Pc, ended, WorkerPc, worker_starts, worker_counts, worker_tests, worker_sleeps, worker_moves,
  worker_notifies, worker_completes, worker_advance,
}
use team9osdriver.Threads.System.{
  System, Steps, Steps-trans, stay, more, work, worker_step, worker_at_rest,
}
use team9osdriver.Threads.Progress.{rank, alive, worker_advance-falls, timer_runs}
use team9osdriver.Init.Unload.{
  state_part, exit_begins, exit_timer, exit_work, is_freed, worker_uses, calls_at, Unload,
  exit_advance, leave, Exits, here, next,
}
use team9osdriver.Init.Unload.Ending.{at, Exits-Steps}

module _ (k : Kernel) where
  alive_busy : (w : WorkerPc) → alive w ≡ true → worker_at_rest w ≡ false
  alive_busy w a = ground (arith, a)

  -- A worker that will set the mode is about to, or goes on to.
  alive_goes_on :
      (w : WorkerPc) (d : Dev k)
      → alive w ≡ true
      → (w ≡ worker_completes) ⊎ (alive (worker_advance k w d).0 ≡ true)
  unfolding worker_advance
  alive_goes_on worker_completes d a = inl refl
  alive_goes_on (worker_starts none) d a = inr refl
  alive_goes_on (worker_starts (some moves)) d a = inr refl
  alive_goes_on (worker_counts n moves) d a = inr refl
  alive_goes_on (worker_tests zero i moves) d a = inr refl
  alive_goes_on (worker_tests (suc n) i moves) d a = inr (ground arith)
  alive_goes_on (worker_sleeps n i moves) d a = inr refl
  alive_goes_on (worker_moves n i moves) d a = inr refl
  alive_goes_on (worker_notifies n i moves) d a = inr refl
  alive_goes_on w d a = absurd (ground (arith, a))

  alive_ranks : (w : WorkerPc) → alive w ≡ true → rank w ≤ 0 → ⊥
  unfolding rank
  alive_ranks w a h = ground (arith, a, h)

  -- The worker alone has come to the point where it sets the mode.
  abbrev Completes : (calls : Pc → Bool) → System k → Type 0
  Completes calls s = (t : System k) × Steps k calls s t × (t.worker ≡ worker_completes)

  worker-Completes :
      (calls : Pc → Bool) (n : ℕ) (s : System k)
      → alive s.worker ≡ true
      → rank s.worker ≤ n
      → Completes calls s
  unfolding worker_step
  worker-Completes calls zero s a h = absurd (alive_ranks s.worker a h)
  worker-Completes calls (suc n) s a h = elim (alive_goes_on s.worker s.dev a) [
    | inl e ↦ (s, stay, e)
    | inr on ↦
        let busy = alive_busy s.worker a in
        let (t, r, e) =
          worker-Completes calls n (worker_step k s) on
            (omega (arith, worker_advance-falls k s.worker s.dev busy)) in
        (t, Steps-trans k (more stay (work busy)) r, e)
  ]

  abbrev UsesFreed : Unload k → Type 0
  UsesFreed u =
      (v : Unload k) × Exits k u v
      × (is_freed state_part v.exit ≡ true)
      × (v.sys.worker ≡ worker_completes)
      × (worker_uses v.sys.worker state_part ≡ true)

  uses_from_work :
      {u : Unload k} (s : System k)
      → Exits k u (at k exit_work s)
      → alive s.worker ≡ true
      → UsesFreed u
  uses_from_work s r a =
      let (t, q, e) = worker-Completes (calls_at exit_work) (rank s.worker) s a (omega arith) in
      (at k exit_work t, Exits-Steps k exit_work r q, refl, e, ap (λ w. worker_uses w state_part) e)

  -- Whenever `echo_exit` begins while a replay runs, and no call does, there is an order in which
  -- it frees the context of the state machine and the worker then uses it: it has left
  -- `echo_state_destroy`, waits in `cancel_work_sync`, and the worker is at `replay_done`.
  pub exit_uses_freed :
      (s : System k)
      → ((i : ℕ) → s.threads i ≡ ended)
      → alive s.worker ≡ true
      → (v : Unload k) × Exits k (record { sys = s; exit = exit_begins }) v
        × (is_freed state_part v.exit ≡ true)
        × (v.sys.worker ≡ worker_completes)
        × (worker_uses v.sys.worker state_part ≡ true)
  unfolding exit_advance
  exit_uses_freed s n a =
      let t = timer_runs k (calls_at exit_timer) s in
      let r = Exits-Steps k exit_timer (next (next here (leave tt)) (leave n)) t.steps in
      uses_from_work _ (next (next r (leave t.rests)) (leave tt)) (ap alive t.worker ∙ a)
