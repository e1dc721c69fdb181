-- ===== src/Threads/Stuck.antt =====
-- Devices that stay as they are, whatever some calls do.
use team9osdriver.Prelude.{ℕ, ◌≡◌, ◌∙◌, arith, Bool, true, false, none}
use team9osdriver.Types.{Mode}
use team9osdriver.Device.{Kernel, Dev}
use team9osdriver.Threads.{Pc, timer_rests, worker_rests, advance}
use team9osdriver.Threads.System.{
  System, update, Step, call, go, fire, tick, begin, work, Steps, stay, more, thread_step,
}

module _ (k : Kernel) where
  pub record Still (d d' : Dev k) : Type 0 where
    pub mode : d'.state.mode ≡ d.state.mode
    pub inactivity_timer : d'.state.inactivity_timer ≡ d.state.inactivity_timer
    pub work_pending : d'.buffer.work_pending ≡ d.buffer.work_pending

  -- The mode is `m`, nothing is armed or queued, nothing runs, and the threads are where `harmless`
  -- says.
  pub record Stuck (m : Mode) (harmless : Pc → Bool) (s : System k) : Type 0 where
    pub mode : s.dev.state.mode ≡ m
    pub disarmed : s.dev.state.inactivity_timer ≡ none
    pub nothing_queued : s.dev.buffer.work_pending ≡ false
    pub timer : s.timer ≡ timer_rests
    pub worker : s.worker ≡ worker_rests
    pub threads : (i : ℕ) → harmless (s.threads i) ≡ true

  -- The sections of harmless threads change nothing of that in the mode `m`, and leave them
  -- harmless.
  abbrev pub StaysHarmless : Mode → (Pc → Bool) → Type 0
  StaysHarmless m harmless =
      (p : Pc) (d : Dev k)
      → d.state.mode ≡ m
      → harmless p ≡ true
      → Still d (advance k p d).1 × (harmless (advance k p d).0 ≡ true)

  update-harmless :
      (harmless : Pc → Bool) (f : ℕ → Pc) (i : ℕ) (p : Pc)
      → ((j : ℕ) → harmless (f j) ≡ true)
      → harmless p ≡ true
      → (j : ℕ) → harmless (update f i p j) ≡ true
  update-harmless harmless f i p l h j = ground (arith, l j)

  module _ (m : Mode) (harmless calls : Pc → Bool) (kept : StaysHarmless m harmless)
      (enters : (p : Pc) → calls p ≡ true → harmless p ≡ true) where
    Step-Stuck : {s t : System k} → Step k calls s t → Stuck m harmless s → Stuck m harmless t
    unfolding thread_step
    Step-Stuck {s} (call i p e c) h = record {
      mode = h.mode;
      disarmed = h.disarmed;
      nothing_queued = h.nothing_queued;
      timer = h.timer;
      worker = h.worker;
      threads = update-harmless harmless s.threads i p h.threads (enters p c);
    }
    Step-Stuck {s} (go i c) h =
        let (same, p) = kept (s.threads i) s.dev h.mode (h.threads i) in
        record {
          mode = same.mode ∙ h.mode;
          disarmed = same.inactivity_timer ∙ h.disarmed;
          nothing_queued = same.work_pending ∙ h.nothing_queued;
          timer = h.timer;
          worker = h.worker;
          threads = update-harmless harmless s.threads i _ h.threads p;
        }
    Step-Stuck (fire t r e) h = absurd (ground (arith, h.disarmed))
    Step-Stuck (tick r) h = absurd (ground (arith, h.timer))
    Step-Stuck (begin moves r e z) h = absurd (ground (arith, h.nothing_queued))
    Step-Stuck (work r) h = absurd (ground (arith, h.worker))

    pub Steps-Stuck : {s t : System k} → Steps k calls s t → Stuck m harmless s → Stuck m harmless t
    Steps-Stuck stay h = h
    Steps-Stuck (more r st) h = Step-Stuck st (Steps-Stuck r h)
