-- ===== src/Threads/News/Stolen.antt =====
-- Two readers of the device, of which one takes the news of both.
use team9osdriver.Prelude.{ℕ, ◌≡◌, refl, arith, true, false}
use team9osdriver.Types.{idle}
use team9osdriver.Device.{Kernel, Dev, notify_readers, signal_replay_done}
use team9osdriver.Chardev.{Snapshot, build_snapshot, mode_val}
use team9osdriver.Threads.{ended, stop_lock, worker_rests, timer_rests, advance}
use team9osdriver.Threads.System.{call, go, entry, update, thread_step}
use team9osdriver.Threads.News.{
  no_reads, read_done, Reading, wait_over, read_field, Reads, further, other,
}
use team9osdriver.Threads.News.Single.{read_fields, whole_read}
use team9osdriver.Threads.News.Catching.{Reads-trans}

module _ (k : Kernel) where
  abbrev read_by : ℕ → Reading k → Reading k
  read_by i w = read_fields k i (wait_over k i w)

  abbrev section : Reading k → Reading k
  section w = record w { sys = thread_step k 0 w.sys }

  -- a stop in thread 0, all of it
  abbrev stopped : Reading k → Reading k
  stopped w =
      let called = record w {
        sys = record (w.sys) { threads = update w.sys.threads 0 stop_lock };
      } in
      section (section (section (section (section called))))

  -- Reader 1 reads, the device is stopped, and reader 0 reads.
  unfoldable pub read_by_both : Dev k → (ℕ → Snapshot) → Reading k
  unfolding read_field wait_over thread_step advance notify_readers signal_replay_done
  read_by_both d snaps = read_by 0 (stopped (read_by 1 (no_reads k d snaps)))

  both_reached :
      (d : Dev k) (snaps : ℕ → Snapshot)
      → d.new_data_avail ≡ true
      → Reads k entry (no_reads k d snaps) (read_by_both d snaps)
  unfolding read_by_both
  both_reached d snaps f =
      let r0 = (whole_read k {calls = entry} 1 (no_reads k d snaps) refl f).0 in
      let r1 = further r0 (other (call 0 stop_lock refl refl)) in
      let r2 =
        further (further (further r1 (other (go 0 refl))) (other (go 0 refl)))
          (other (go 0 refl)) in
      let r3 = further (further r2 (other (go 0 refl))) (other (go 0 refl)) in
      Reads-trans k r3 (whole_read k 0 (stopped (read_by 1 (no_reads k d snaps))) refl refl).0

  -- With two readers one can miss a change: from any device with news there is an order in which
  -- both have read and wait, the flag is down, and no thread, timer function or worker is under
  -- way; the mode is IDLE, and the snapshot of reader 1 still tells the mode that the device had at
  -- first, which is another one unless that was IDLE.
  pub news_is_stolen :
      (d : Dev k) (snaps : ℕ → Snapshot)
      → d.new_data_avail ≡ true
      → let w = read_by_both d snaps in
        Reads k entry (no_reads k d snaps) w
        × (w.readers 0 ≡ read_done)
        × (w.readers 1 ≡ read_done)
        × (w.sys.dev.new_data_avail ≡ false)
        × (w.sys.timer ≡ timer_rests)
        × (w.sys.worker ≡ worker_rests)
        × ((i : ℕ) → w.sys.threads i ≡ ended)
        × (w.sys.dev.state.mode ≡ idle)
        × ((w.snaps 1).mode ≡ mode_val d.state.mode)
  unfolding read_by_both build_snapshot
  news_is_stolen d snaps f =
      (both_reached d snaps f, refl, refl, refl, refl, refl, λ i. ground arith, refl, refl)
