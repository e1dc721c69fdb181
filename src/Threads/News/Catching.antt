-- ===== src/Threads/News/Catching.antt =====
-- A reader that is behind the device can catch up with it.
use team9osdriver.Prelude.{
  ℕ, zero, suc, ◌≤◌, ◌<◌, ◌≡◌, ◌⊎◌, ap, arith, Bool, true, false, inl, inr, pos,
}
use team9osdriver.Servo.{Client, RegWrite}
use team9osdriver.Device.{Kernel, Dev, notify_readers}
use team9osdriver.Chardev.{Snapshot, build_snapshot}
use team9osdriver.Threads.{Pc, TimerPc, timer_queues, timer_notifies, advance, timer_advance}
use team9osdriver.Threads.System.{
  System, none_new, timer_at_rest, worker_at_rest, Step, go, tick, work, Steps, stay, more,
  Steps-trans, thread_step, timer_step, worker_step,
}
use team9osdriver.Threads.Progress.{rank, worker_advance-falls}
use team9osdriver.Threads.Calls.{left, go_at_rest, quiet, step_left, update_self}
use team9osdriver.Threads.News.{
  no_reads, read_done, waiting, thread_owes, timer_owes, Reading, wait_over, other, Reads, none_yet,
  further,
}
use team9osdriver.Threads.News.Told.{Told, advance-owes, worker_advance-owes}
use team9osdriver.Threads.News.Current.{Told-or_current}
use team9osdriver.Threads.News.Single.{read_fields, whole_read}

owing_left : (p : Pc) → thread_owes p ≡ true → 0 < left p
unfolding left
owing_left p o = ground (arith, o)

timer_owing : (t : TimerPc) → timer_owes t ≡ true → (t ≡ timer_queues) ⊎ (t ≡ timer_notifies)
timer_owing t o = ground (arith, o)

module _ (k : Kernel) where
  -- the flag goes up with no new call
  abbrev Raised : System k → Type 0
  Raised s = (t : System k) × Steps k none_new s t × (t.dev.new_data_avail ≡ true)

  worker_raises :
      (n : ℕ) (s : System k) → worker_at_rest s.worker ≡ false → rank s.worker ≤ n → Raised s
  unfolding worker_step
  worker_raises zero s b h = absurd (omega (arith, worker_advance-falls k s.worker s.dev b))
  worker_raises (suc n) s b h = elim (worker_advance-owes k s.worker s.dev b) [
    | inr f ↦ (worker_step k s, more stay (work b), f)
    | inl on ↦
        let (t, r, f) =
          worker_raises n (worker_step k s) on
            (omega (arith, h, worker_advance-falls k s.worker s.dev b)) in
        (t, Steps-trans k (more stay (work b)) r, f)
  ]

  notifier_raises : (s : System k) → s.timer ≡ timer_notifies → Raised s
  unfolding timer_step timer_advance notify_readers
  notifier_raises s e = (timer_step k s, more stay (tick (ground (arith, e))), ground (arith, e))

  timer_raises : (s : System k) → timer_owes s.timer ≡ true → Raised s
  unfolding timer_step timer_advance
  timer_raises s o = elim (timer_owing s.timer o) [
    | inr e ↦ notifier_raises s e
    | inl e ↦
        let busy : timer_at_rest s.timer ≡ false = ground (arith, e) in
        let (t, r, f) = notifier_raises (timer_step k s) (ground (arith, e)) in
        (t, Steps-trans k (more stay (tick busy)) r, f)
  ]

  thread_raises :
      (i n : ℕ) (s : System k)
      → thread_owes (s.threads i) ≡ true
      → left (s.threads i) ≤ n
      → Raised s
  unfolding thread_step
  thread_raises i zero s o h = absurd (omega (arith, owing_left (s.threads i) o))
  thread_raises i (suc n) s o h =
      let q = quiet k s in
      let same : q.last.threads i ≡ s.threads i = ap (λ (f : ℕ → Pc). f i) q.threads in
      let o' : thread_owes (q.last.threads i) ≡ true = rw same o in
      let l = owing_left (q.last.threads i) o' in
      let now : Step k none_new q.last (thread_step k i q.last) =
        go i (go_at_rest (q.last.threads i) q.last.timer q.last.worker l q.timer q.worker) in
      elim (advance-owes k (q.last.threads i) q.last.dev o') [
        | inr f ↦ (thread_step k i q.last, more q.steps now, f)
        | inl on ↦
            let (t, rest, f) =
              thread_raises i n (thread_step k i q.last)
                (rw (update_self q.last.threads i (advance k (q.last.threads i) q.last.dev).0) on)
                (omega (arith, step_left k q.last i l, ap left same)) in
            (t, Steps-trans k (more q.steps now) rest, f)
      ]

  Told-Raised : (s : System k) → Told k s → Raised s
  Told-Raised s (inl f) = (s, stay, f)
  Told-Raised s (inr (inl o)) = timer_raises s o
  Told-Raised s (inr (inr (inl b))) = worker_raises (rank s.worker) s b (omega arith)
  Told-Raised s (inr (inr (inr (i, o)))) = thread_raises i (left (s.threads i)) s o (omega arith)

  Reads-Steps :
      {calls : Pc → Bool} {w : Reading k} {t : System k}
      → Steps k calls w.sys t
      → Reads k calls w (record w { sys = t })
  Reads-Steps stay = none_yet
  Reads-Steps (more r st) = further (Reads-Steps r) (other st)

  pub Reads-trans :
      {calls : Pc → Bool} {u v w : Reading k}
      → Reads k calls u v
      → Reads k calls v w
      → Reads k calls u w
  Reads-trans a none_yet = a
  Reads-trans a (further b r) = further (Reads-trans a b) r

  -- The reader that cleared the flag last can always catch up with the device, if the chip takes
  -- every write: whatever threads have called the driver and whatever readers have read, in any
  -- order of their sections and steps, once that reader waits behind its read there is an order of
  -- what is under way and of its steps, with no new call in it, after which it waits behind a read
  -- and has a snapshot that tells every field as it is in the device then.
  pub reader_catches_up :
      (d : Dev k) (snaps : ℕ → Snapshot) {calls : Pc → Bool} {w : Reading k}
      → ((c : Client) (r : RegWrite) → k.i2c c r ≡ pos 0)
      → Reads k calls (no_reads k d snaps) w
      → w.readers w.last ≡ read_done
      → (v : Reading k) × Reads k none_new w v
        × (v.readers w.last ≡ read_done)
        × (v.snaps w.last ≡ build_snapshot k v.sys.dev)
  reader_catches_up d snaps {w = w} x r done = elim (Told-or_current k d snaps x r done) [
    | inr same ↦ (w, none_yet, done, same)
    | inl told ↦
        let (t, steps, f) = Told-Raised w.sys told in
        let u = record w { sys = t } in
        let (reads, done', seen) = whole_read k w.last u (ap waiting done) f in
        (
          read_fields k w.last (wait_over k w.last u),
          Reads-trans (Reads-Steps steps) reads,
          done',
          seen,
        )
  ]
