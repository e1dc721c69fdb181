-- ===== src/Threads/News/Current.antt =====
-- A read tells how the device is, once everybody has notified the readers.
use team9osdriver.Prelude.{
  ℕ, ◌≡◌, ◌≢◌, refl, sym, ap, subst, ◌∙◌, arith, Bool, true, false, ◌⊎◌, inl, inr, pos,
}
use native.Mathlib.Decide.{ℕ_discrete}
use team9osdriver.Servo.{Client, RegWrite}
use team9osdriver.Device.{Kernel, Dev}
use team9osdriver.Chardev.{Snapshot, build_snapshot}
use team9osdriver.Threads.{Pc}
use team9osdriver.Threads.System.{update, worker_at_rest}
use team9osdriver.Threads.Calls.{update_self}
use team9osdriver.Threads.News.{
  ReadPc, no_read, reads_mode, reads_pan, reads_tilt, reads_tilt2, reads_count, reads_moves,
  reads_replays, reads_irqs, read_done, waiting, read_next, fill, thread_owes, timer_owes, no_reads,
  Reading, wait_over, read_field, Read, other, wakes, field, Reads, none_yet, further,
}
use team9osdriver.Threads.News.Steps.{Step-Told, Step-seen}
use team9osdriver.Threads.News.Told.{Told, Takes}

update_other {ℓ} : {A : Type ℓ} → (f : ℕ → A) (i j : ℕ) (v : A) → i ≢ j → update f i v j ≡ f j
update_other f i j v n = ground (arith, n)

-- The fields that the reader has read, as they are in `now`; the others as they are in `snap`.
abbrev overlay : ReadPc → Snapshot → Snapshot → Snapshot
overlay no_read now snap = snap
overlay reads_mode now snap = snap
overlay reads_pan now snap = record snap { mode = now.mode }
overlay reads_tilt now snap = record snap { mode = now.mode; pan_angle = now.pan_angle }
overlay reads_tilt2 now snap = record snap {
  mode = now.mode;
  pan_angle = now.pan_angle;
  tilt_angle = now.tilt_angle;
}
overlay reads_count now snap = record snap {
  mode = now.mode;
  pan_angle = now.pan_angle;
  tilt_angle = now.tilt_angle;
  tilt2_angle = now.tilt2_angle;
}
overlay reads_moves now snap = record now {
  total_moves = snap.total_moves;
  total_replays = snap.total_replays;
  irq_count = snap.irq_count;
}
overlay reads_replays now snap = record now {
  total_replays = snap.total_replays;
  irq_count = snap.irq_count;
}
overlay reads_irqs now snap = record now { irq_count = snap.irq_count }
overlay read_done now snap = now

overlay-fill :
    (p : ReadPc) (now snap : Snapshot)
    → waiting p ≡ false
    → overlay p now snap ≡ snap
    → overlay (read_next p) now (fill p now snap) ≡ fill p now snap
overlay-fill no_read now snap w e = absurd (ground (arith, w))
overlay-fill reads_mode now snap w e = refl
overlay-fill reads_pan now snap w e = ap (fill reads_pan now) e
overlay-fill reads_tilt now snap w e = ap (fill reads_tilt now) e
overlay-fill reads_tilt2 now snap w e = ap (fill reads_tilt2 now) e
overlay-fill reads_count now snap w e = ap (fill reads_count now) e
overlay-fill reads_moves now snap w e = ap (fill reads_moves now) e
overlay-fill reads_replays now snap w e = ap (fill reads_replays now) e
overlay-fill reads_irqs now snap w e = ap (fill reads_irqs now) e
overlay-fill read_done now snap w e = absurd (ground (arith, w))

module _ (k : Kernel) where
  -- What the reader that cleared the flag last has read is as it is now, or news is to come.
  abbrev Kept : Reading k → Type 0
  Kept w =
      Told k w.sys
      ⊎ (overlay (w.readers w.last) (build_snapshot k w.sys.dev) (w.snaps w.last) ≡ w.snaps w.last)

  -- the field that the last reader reads
  last_field-Kept :
      (w : Reading k)
      → waiting (w.readers w.last) ≡ false
      → overlay (w.readers w.last) (build_snapshot k w.sys.dev) (w.snaps w.last) ≡ w.snaps w.last
      → Kept (read_field k w.last w)
  unfolding read_field
  last_field-Kept w r same =
      let now = build_snapshot k w.sys.dev in
      let p = w.readers w.last in
      inr (
        rw
          (
            update_self w.readers w.last (read_next p),
            update_self w.snaps w.last (fill p now (w.snaps w.last)),
          )
          (overlay-fill p now (w.snaps w.last) r same))

  other_field-Kept :
      (w : Reading k) (i : ℕ)
      → i ≢ w.last
      → overlay (w.readers w.last) (build_snapshot k w.sys.dev) (w.snaps w.last) ≡ w.snaps w.last
      → Kept (read_field k i w)
  unfolding read_field
  other_field-Kept w i n same =
      inr (rw (update_other w.readers i w.last _ n, update_other w.snaps i w.last _ n) same)

  Read-Kept :
      Takes k k.i2c → {calls : Pc → Bool} {w v : Reading k} → Read k calls w v → Kept w → Kept v
  unfolding wait_over read_field
  Read-Kept x (other st) (inl told) = inl (Step-Told k st told)
  Read-Kept x {w = w} (other st) (inr same) = elim (Step-seen k x st) [
    | inl told ↦ inl (Step-Told k st told)
    | inr (inl told) ↦ inl told
    | inr (inr e) ↦ inr (ap (λ now. overlay (w.readers w.last) now (w.snaps w.last)) e ∙ same)
  ]
  Read-Kept x {w = w} (wakes i r f) h = inr (rw (update_self w.readers i reads_mode) refl)
  Read-Kept x (field i r) (inl told) = inl told
  Read-Kept x {w = w} (field i r) (inr same) = elim (ℕ_discrete i w.last) [
    | no n ↦ other_field-Kept w i n same
    | yes e ↦
        subst (λ j. Kept (read_field k j w)) (sym e)
          (last_field-Kept w (subst (λ j. waiting (w.readers j) ≡ false) e r) same)
  ]

  Reads-Kept :
      Takes k k.i2c → {calls : Pc → Bool} {w v : Reading k} → Reads k calls w v → Kept w → Kept v
  Reads-Kept x none_yet h = h
  Reads-Kept x (further r q) h = Read-Kept x q (Reads-Kept x r h)

  pub Told-or_current :
      (d : Dev k) (snaps : ℕ → Snapshot) {calls : Pc → Bool} {w : Reading k}
      → Takes k k.i2c
      → Reads k calls (no_reads k d snaps) w
      → w.readers w.last ≡ read_done
      → Told k w.sys ⊎ (w.snaps w.last ≡ build_snapshot k w.sys.dev)
  Told-or_current d snaps {w = w} x r done = elim (Reads-Kept x r (inr refl)) [
    | inl told ↦ inl told
    | inr same ↦
        let now = build_snapshot k w.sys.dev in
        inr (sym (subst (λ p. overlay p now (w.snaps w.last) ≡ w.snaps w.last) done same))
  ]

  -- No news is lost: whatever threads call the driver and whatever readers read, in any order of
  -- their sections and of the fields that a reader reads, if the chip takes every write: when the
  -- reader that cleared the flag last waits again behind a read, the flag is down, and no thread,
  -- timer function or worker is on its way to raise it, the snapshot that it read last tells every
  -- field as it is in the device now.
  pub last_read_is_current :
      (d : Dev k) (snaps : ℕ → Snapshot) {calls : Pc → Bool} {w : Reading k}
      → ((c : Client) (r : RegWrite) → k.i2c c r ≡ pos 0)
      → Reads k calls (no_reads k d snaps) w
      → w.readers w.last ≡ read_done
      → w.sys.dev.new_data_avail ≡ false
      → timer_owes w.sys.timer ≡ false
      → worker_at_rest w.sys.worker ≡ true
      → ((i : ℕ) → thread_owes (w.sys.threads i) ≡ false)
      → w.snaps w.last ≡ build_snapshot k w.sys.dev
  last_read_is_current d snaps {w = w} x r done f t b n = elim (Told-or_current d snaps x r done) [
    | inl (inl f') ↦ absurd (ground (arith, f, f'))
    | inl (inr (inl t')) ↦ absurd (ground (arith, t, t'))
    | inl (inr (inr (inl b'))) ↦ absurd (ground (arith, b, b'))
    | inl (inr (inr (inr (i, y)))) ↦ absurd (ground (arith, n i, y))
    | inr same ↦ same
  ]
