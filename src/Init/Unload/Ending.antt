-- ===== src/Init/Unload/Ending.antt =====
-- `echo_exit` of module/echo_main.c to its end.
use team9osdriver.Prelude.{ℕ, ◌≡◌, refl}
use team9osdriver.Device.{Kernel}
use team9osdriver.Threads.{ended}
use team9osdriver.Threads.System.{System, Steps, stay, more}
use team9osdriver.Threads.Progress.{timer_runs, worker_runs}
use team9osdriver.Init.Unload.{
  ExitPc, exit_begins, exit_irqs, exit_timer, exit_state, exit_work, exit_buffer, exit_servo,
  exit_device, unloaded, calls_at, Unload, exit_advance, run, leave, Exits, here, next,
}

module _ (k : Kernel) where
  abbrev pub at : ExitPc → System k → Unload k
  at e s = record { sys = s; exit = e }

  pub Exits-Steps :
      {u : Unload k} (e : ExitPc) {s t : System k}
      → Exits k u (at e s)
      → Steps k (calls_at e) s t
      → Exits k u (at e t)
  Exits-Steps e r stay = r
  Exits-Steps e r (more q st) = next (Exits-Steps e r q) (run st)

  -- the parts behind the buffer, which wait for nothing
  ends_from_buffer :
      {u : Unload k} (s : System k) → Exits k u (at exit_buffer s) → Exits k u (at unloaded s)
  unfolding exit_advance
  ends_from_buffer s r = next (next (next r (leave tt)) (leave tt)) (leave tt)

  abbrev CanEnd : Unload k → Type 0
  CanEnd u = (v : Unload k) × Exits k u v × (v.exit ≡ unloaded)

  ends_from_work : {u : Unload k} (s : System k) → Exits k u (at exit_work s) → CanEnd u
  unfolding exit_advance
  ends_from_work s r =
      let w = worker_runs k (calls_at exit_work) s in
      (_, ends_from_buffer _ (next (Exits-Steps exit_work r w.steps) (leave w.rests)), refl)

  ends_from_timer : {u : Unload k} (s : System k) → Exits k u (at exit_timer s) → CanEnd u
  unfolding exit_advance
  ends_from_timer s r =
      let t = timer_runs k (calls_at exit_timer) s in
      ends_from_work _ (next (next (Exits-Steps exit_timer r t.steps) (leave t.rests)) (leave tt))

  ends_from : (e : ExitPc) (s : System k) → ((i : ℕ) → s.threads i ≡ ended) → CanEnd (at e s)
  unfolding exit_advance
  ends_from exit_begins s n = ends_from_timer s (next (next here (leave tt)) (leave n))
  ends_from exit_irqs s n = ends_from_timer s (next here (leave n))
  ends_from exit_timer s n = ends_from_timer s here
  ends_from exit_state s n = ends_from_work s (next here (leave tt))
  ends_from exit_work s n = ends_from_work s here
  ends_from exit_buffer s n = (_, ends_from_buffer s here, refl)
  ends_from exit_servo s n = (_, next (next here (leave tt)) (leave tt), refl)
  ends_from exit_device s n = (_, next here (leave tt), refl)
  ends_from unloaded s n = (_, here, refl)

  -- From each of its parts `echo_exit` can come to its end, if no call is in progress: whatever
  -- the timer and the worker do then, there is an order in which they come to rest and it returns.
  exit_can_end :
      (u : Unload k)
      → ((i : ℕ) → u.sys.threads i ≡ ended)
      → (v : Unload k) × Exits k u v × (v.exit ≡ unloaded)
  exit_can_end u n = ends_from u.exit u.sys n
