-- ===== src/Threads/News/Single.antt =====
-- A reader that no other thread meets does what `echo_read` does.
use team9osdriver.Prelude.{ℕ, ◌≡◌, refl, ap, ◌∙◌, arith, Bool, true, false, pos, min, take}
use team9osdriver.Device.{Kernel, Dev}
use team9osdriver.Chardev.{Snapshot, build_snapshot, snapshot_bytes, snapshot_size, echo_read}
use team9osdriver.Threads.{Pc}
use team9osdriver.Threads.Calls.{update_self}
use team9osdriver.Threads.News.{
  ReadPc, reads_mode, reads_pan, reads_tilt, reads_tilt2, reads_count, reads_moves, reads_replays,
  reads_irqs, read_done, waiting, read_next, fill, Reading, wait_over, read_field, Reads, none_yet,
  further, wakes, field,
}

module _ (k : Kernel) where
  -- the eight fields of a snapshot
  abbrev pub read_fields : ℕ → Reading k → Reading k
  read_fields i w =
      let half = read_field k i (read_field k i (read_field k i (read_field k i w))) in
      read_field k i (read_field k i (read_field k i (read_field k i half)))

  -- The reader `i` has come from `u` to the field `p` with so much of a snapshot.
  abbrev Comes : (Pc → Bool) → ℕ → Reading k → Reading k → ReadPc → Snapshot → Type 0
  Comes calls i u w p snap = Reads k calls u w × (w.readers i ≡ p) × (w.snaps i ≡ snap)

  wait_over-Comes :
      {calls : Pc → Bool} (i : ℕ) (w : Reading k)
      → waiting (w.readers i) ≡ true
      → w.sys.dev.new_data_avail ≡ true
      → Comes calls i w (wait_over k i w) reads_mode (w.snaps i)
  unfolding wait_over
  wait_over-Comes i w r f =
      (further none_yet (wakes i r f), update_self w.readers i reads_mode, refl)

  field-Comes :
      {calls : Pc → Bool} {u : Reading k} (i : ℕ) (w : Reading k) (p : ReadPc) (snap : Snapshot)
      → waiting p ≡ false
      → Comes calls i u w p snap
      → Comes calls i u (read_field k i w) (read_next p) (fill p (build_snapshot k w.sys.dev) snap)
  unfolding read_field
  field-Comes i w p snap q (r, e, h) = (
    further r (field i (ap waiting e ∙ q)),
    rw (update_self w.readers i (read_next (w.readers i)), e) refl,
    rw (update_self w.snaps i (fill (w.readers i) (build_snapshot k w.sys.dev) (w.snaps i)), e, h)
        refl,
  )

  pub whole_read :
      {calls : Pc → Bool} (i : ℕ) (w : Reading k)
      → waiting (w.readers i) ≡ true
      → w.sys.dev.new_data_avail ≡ true
      → let v = read_fields i (wait_over k i w) in
        Reads k calls w v × (v.readers i ≡ read_done) × (v.snaps i ≡ build_snapshot k v.sys.dev)
  unfolding wait_over read_field
  whole_read i w r f =
      let a0 = wait_over-Comes i w r f in
      let a1 = field-Comes i _ reads_mode _ refl a0 in
      let a2 = field-Comes i _ reads_pan _ refl a1 in
      let a3 = field-Comes i _ reads_tilt _ refl a2 in
      let a4 = field-Comes i _ reads_tilt2 _ refl a3 in
      let a5 = field-Comes i _ reads_count _ refl a4 in
      let a6 = field-Comes i _ reads_moves _ refl a5 in
      let a7 = field-Comes i _ reads_replays _ refl a6 in field-Comes i _ reads_irqs _ refl a7

  -- A read of a device that has news, with nothing between its steps, ends behind the last field,
  -- and is what `echo_read` does at once: the number of bytes, the bytes of the snapshot that was
  -- filled, and the device that the steps leave.
  read_alone_lem :
      (nonblock : Bool) (sleep : Dev k → Bool × Dev k) (pad : ℕ × ℕ) (count i : ℕ) (w : Reading k)
      → waiting (w.readers i) ≡ true
      → w.sys.dev.new_data_avail ≡ true
      → let v = read_fields i (wait_over k i w) in
        let n = min count snapshot_size in
        (v.readers i ≡ read_done)
        × (echo_read k nonblock sleep pad true count w.sys.dev
            ≡ (pos n, take n (snapshot_bytes pad (v.snaps i)), v.sys.dev))
  unfolding wait_over read_field echo_read
  read_alone_lem nonblock sleep pad count i w r f =
      let (_, done, seen) = whole_read {calls = λ _. false} i w r f in
      (done, rw seen (ground (arith, f)))
