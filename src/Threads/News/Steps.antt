-- ===== src/Threads/News/Steps.antt =====
-- What each section of the threads does to the news.
use team9osdriver.Prelude.{
  ℕ, ◌≡◌, ◌≢◌, refl, ap, ◌∙◌, arith, Bool, true, false, Bool-cases, ◌⊎◌, inl, inr,
}
use native.Mathlib.Decide.{ℕ_discrete}
use team9osdriver.Buffer.{buffer_count, get_replay_count}
use team9osdriver.Device.{Kernel}
use team9osdriver.Chardev.{build_snapshot}
use team9osdriver.Threads.{Pc, advance}
use team9osdriver.Threads.System.{
  System, Step, call, go, fire, tick, begin, work, update, thread_step, timer_step, worker_step,
  timer_fires, worker_begins,
}
use team9osdriver.Threads.Calls.{update_self}
use team9osdriver.Threads.News.{thread_owes}
use team9osdriver.Threads.News.Told.{
  advance-flag, timer_advance-flag, advance-owes, timer_advance-owes, worker_advance-owes, Told,
  Takes, advance-seen, timer_advance-seen,
}

still_owing :
    (f : ℕ → Pc) (i j : ℕ) (p : Pc)
    → thread_owes (f i) ≡ false
    → thread_owes (f j) ≡ true
    → thread_owes (update f i p j) ≡ true
still_owing f i j p n y = elim (ℕ_discrete i j) [
  | yes e ↦ absurd (ground (arith, ap (λ (i : ℕ). thread_owes (f i)) e))
  | no ne ↦ ground arith
]

other_owing :
    (f : ℕ → Pc) (i j : ℕ) (p : Pc)
    → i ≢ j
    → thread_owes (f j) ≡ true
    → thread_owes (update f i p j) ≡ true
other_owing f i j p ne y = ground (arith, ne)

module _ (k : Kernel) where
  thread_step-Told : (s : System k) (i : ℕ) → Told k s → Told k (thread_step k i s)
  unfolding thread_step
  thread_step-Told s i (inl f) = inl (advance-flag k (s.threads i) s.dev f)
  thread_step-Told s i (inr (inl t)) = inr (inl t)
  thread_step-Told s i (inr (inr (inl w))) = inr (inr (inl w))
  thread_step-Told s i (inr (inr (inr (j, y)))) = elim (ℕ_discrete i j) [
    | no n ↦ inr (inr (inr (j, other_owing s.threads i j _ n y)))
    | yes e ↦
        let here : thread_owes (s.threads i) ≡ true =
          ap (λ (i : ℕ). thread_owes (s.threads i)) e ∙ y in
        elim (advance-owes k (s.threads i) s.dev here) [
          | inl on ↦
              inr (inr (inr (i, rw (update_self s.threads i (advance k (s.threads i) s.dev).0) on)))
          | inr f ↦ inl f
        ]
  ]

  pub Step-Told : {calls : Pc → Bool} {s t : System k} → Step k calls s t → Told k s → Told k t
  unfolding timer_step worker_step timer_fires worker_begins
  Step-Told {s = s} (call i p e c) (inr (inr (inr (j, y)))) =
      inr (inr (inr (j, still_owing s.threads i j p (ap thread_owes e) y)))
  Step-Told (call i p e c) (inl f) = inl f
  Step-Told (call i p e c) (inr (inl t)) = inr (inl t)
  Step-Told (call i p e c) (inr (inr (inl w))) = inr (inr (inl w))
  Step-Told {s = s} (go i c) h = thread_step-Told s i h
  Step-Told (fire t r e) (inr (inl y)) = absurd (ground (arith, r, y))
  Step-Told (fire t r e) (inl f) = inl f
  Step-Told (fire t r e) (inr (inr h)) = inr (inr h)
  Step-Told {s = s} (tick r) (inl f) = inl (timer_advance-flag k s.timer s.dev f)
  Step-Told {s = s} (tick r) (inr (inl y)) = elim (timer_advance-owes k s.timer s.dev y) [
    | inl on ↦ inr (inl on)
    | inr f ↦ inl f
  ]
  Step-Told (tick r) (inr (inr h)) = inr (inr h)
  Step-Told (begin moves r e z) h = inr (inr (inl refl))
  Step-Told {s = s} (work r) h = elim (worker_advance-owes k s.worker s.dev r) [
    | inl on ↦ inr (inr (inl on))
    | inr f ↦ inl f
  ]

  -- A section tells the readers, or changes nothing that they see.
  pub Step-seen :
      Takes k k.i2c
      → {calls : Pc → Bool} {s t : System k} → Step k calls s t
      → Told k s ⊎ (Told k t ⊎ (build_snapshot k t.dev ≡ build_snapshot k s.dev))
  unfolding thread_step timer_step worker_step timer_fires worker_begins build_snapshot buffer_count
      get_replay_count
  Step-seen x (call i p e c) = inr (inr refl)
  Step-seen x {s = s} (go i c) = elim (Bool-cases (thread_owes (s.threads i))) [
    | inl y ↦ inl (inr (inr (inr (i, y))))
    | inr n ↦ elim (advance-seen k x (s.threads i) s.dev n) [
      | inl on ↦ inr (
          inl (
            inr (inr (inr (i, rw (update_self s.threads i (advance k (s.threads i) s.dev).0) on)))))
      | inr e ↦ inr (inr e)
    ]
  ]
  Step-seen x (fire t r e) = inr (inr refl)
  Step-seen x {s = s} (tick r) = elim (timer_advance-seen k s.timer s.dev) [
    | inl on ↦ inr (inl (inr (inl on)))
    | inr (inl f) ↦ inr (inl (inl f))
    | inr (inr e) ↦ inr (inr e)
  ]
  Step-seen x (begin moves r e z) = inr (inr refl)
  Step-seen x (work r) = inl (inr (inr (inl r)))
