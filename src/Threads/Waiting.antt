-- ===== src/Threads/Waiting.antt =====
-- Writers of REPLAY that wait, `echo_write` of module/echo_chardev.c over the threads of the
-- driver: the flag is cleared, the replay is started, and the thread sleeps until the flag is set
-- or a signal comes.
pub mod Owed
pub mod Kept
pub mod Budget
pub mod Ending
pub mod Early
pub mod Single
use team9osdriver.Prelude.{ℕ, ◌≡◌, Bool, true, false, Option, none, some, List, ◌==◌, if◌then◌else◌}
use team9osdriver.Types.{Mode, Move}
use team9osdriver.Device.{Kernel, Dev, is_replay}
use team9osdriver.Threads.{Pc, ended, start_lock, notifying}
use team9osdriver.Threads.System.{
  System, at_start, can_go, timer_at_rest, worker_at_rest, IsMemory, thread_step, timer_step,
  worker_step, timer_fires, worker_begins, update,
}

-- Where a thread is in a write of REPLAY: in none, in `echo_state_start_replay`, or asleep on
-- `wq_replay_done`.
pub data Write : Type 0 where
  no_write starts_replay waits_replay : Write

-- Where a section leaves the write that it belongs to: `echo_state_start_replay` refuses at its
-- lock if the mode is REPLAY, and the wait is behind its end.
abbrev pub next_write : Write → Pc → Mode → Write
next_write starts_replay start_lock m = if is_replay m then no_write else starts_replay
next_write starts_replay notifying m = waits_replay
next_write v p m = v

module _ (k : Kernel) where
  pub record Writers : Type 0 where
    pub sys : System k
    pub writes : ℕ → Write

  abbrev pub at_rest : Dev k → Writers
  at_rest d = record { sys = at_start k d; writes = λ _. no_write }

  -- the start of a write, up to the lock of `echo_state_start_replay`
  unfoldable pub write_begins : ℕ → Writers → Writers
  write_begins i w = record {
    sys = record (w.sys) {
      dev = record (w.sys.dev) { replay_finished = false };
      threads = update w.sys.threads i start_lock;
    };
    writes = update w.writes i starts_replay;
  }

  unfoldable pub section : ℕ → Writers → Writers
  section i w = record {
    sys = thread_step k i w.sys;
    writes = update w.writes i (next_write (w.writes i) (w.sys.threads i) w.sys.dev.state.mode);
  }

  unfoldable pub wait_ends : ℕ → Writers → Writers
  wait_ends i w = record w { writes = update w.writes i no_write }

  -- One step of the threads. `calls` are the calls that may be made beside the writes; without
  -- `new` there is no new write and no signal.
  pub data Turn (calls : Pc → Bool) (new : Bool) (w : Writers) : Writers → Type 0 where
    call :
        (i : ℕ) (p : Pc)
        → w.sys.threads i ≡ ended
        → w.writes i ≡ no_write
        → calls p ≡ true
        → Turn calls new w
            (record w { sys = record (w.sys) { threads = update w.sys.threads i p } })
    write :
        (i : ℕ)
        → w.sys.threads i ≡ ended
        → w.writes i ≡ no_write
        → new ≡ true
        → Turn calls new w (write_begins i w)
    go :
        (i : ℕ)
        → can_go (w.sys.threads i) w.sys.timer w.sys.worker ≡ true
        → Turn calls new w (section i w)
    wake :
        (i : ℕ)
        → w.writes i ≡ waits_replay
        → w.sys.dev.replay_finished ≡ true
        → Turn calls new w (wait_ends i w)
    interrupt : (i : ℕ) → w.writes i ≡ waits_replay → new ≡ true → Turn calls new w (wait_ends i w)
    fire :
        (t : ℕ)
        → timer_at_rest w.sys.timer ≡ true
        → w.sys.dev.state.inactivity_timer ≡ some t
        → Turn calls new w (record w { sys = timer_fires k w.sys })
    tick :
        timer_at_rest w.sys.timer ≡ false → Turn calls new w (record w { sys = timer_step k w.sys })
    begin :
        (moves : Option (List Move))
        → worker_at_rest w.sys.worker ≡ true
        → w.sys.dev.buffer.work_pending ≡ true
        → IsMemory moves
        → Turn calls new w (record w { sys = worker_begins k moves w.sys })
    work :
        worker_at_rest w.sys.worker ≡ false
        → Turn calls new w (record w { sys = worker_step k w.sys })

  pub data Turns (calls : Pc → Bool) (new : Bool) (w : Writers) : Writers → Type 0 where
    none_yet : Turns calls new w w
    further : {v u : Writers} → Turns calls new w v → Turn calls new v u → Turns calls new w u
