-- ===== src/Threads/Waiting/Early.antt =====
-- A write of REPLAY that a stop lets return before its replay has begun.
use team9osdriver.Prelude.{◌≡◌, refl, true}
use team9osdriver.Types.{replay}
use team9osdriver.Buffer.{buffer_start_replay, buffer_cancel_replay}
use team9osdriver.Device.{Kernel, Dev, notify_readers, signal_replay_done, state_op_start_replay}
use team9osdriver.Threads.{stop_lock, worker_rests, advance}
use team9osdriver.Threads.System.{update, entry, thread_step}
use team9osdriver.Threads.Waiting.{
  Writers, waits_replay, at_rest, write_begins, section, Turns, call, write, go, none_yet, further,
}

module _ (k : Kernel) where
  stop_called : Dev k → Writers k
  stop_called d =
      let w = at_rest k d in
      record w { sys = record (w.sys) { threads = update w.sys.threads 0 stop_lock } }

  -- Thread 0 is in a stop and has cancelled the work when thread 1 begins to write REPLAY and falls
  -- asleep; then the stop sets the flag.
  unfoldable pub woken_early : Dev k → Writers k
  unfolding stop_called section thread_step advance write_begins notify_readers signal_replay_done
      state_op_start_replay buffer_start_replay buffer_cancel_replay
  woken_early d =
      let cancelled = section k 0 (section k 0 (section k 0 (stop_called d))) in
      let asleep =
        section k 1 (section k 1 (section k 1 (section k 1 (write_begins k 1 cancelled)))) in
      section k 0 asleep

  early_reached : (d : Dev k) → Turns k entry true (at_rest k d) (woken_early d)
  unfolding woken_early
  early_reached d =
      further
        (further
          (further
            (further
              (further
                (further
                  (further
                    (further
                      (further (further none_yet (call 0 stop_lock refl refl refl)) (go 0 refl))
                      (go 0 refl))
                    (go 0 refl))
                  (write 1 refl refl refl))
                (go 1 refl))
              (go 1 refl))
            (go 1 refl))
          (go 1 refl))
        (go 0 refl)

  -- A write of REPLAY can return its count before its replay has begun: from any device at rest
  -- there is an order of the sections of a stop and of the write after which the write may end, for
  -- the flag is set, but the mode is REPLAY, the work of the replay is still queued, no worker runs
  -- and no replay has been counted.
  pub write_returns_early :
      (d : Dev k)
      → let w = woken_early d in
        Turns k entry true (at_rest k d) w
        × (w.writes 1 ≡ waits_replay)
        × (w.sys.dev.replay_finished ≡ true)
        × (w.sys.dev.state.mode ≡ replay)
        × (w.sys.dev.buffer.work_pending ≡ true)
        × (w.sys.worker ≡ worker_rests)
        × (w.sys.dev.buffer.replay_count ≡ d.buffer.replay_count)
  unfolding woken_early
  write_returns_early d = (early_reached d, refl, refl, refl, refl, refl, refl)
