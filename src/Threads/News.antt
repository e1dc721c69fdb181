-- ===== src/Threads/News.antt =====
-- Readers of the device among the threads of the driver: `echo_read` of module/echo_chardev.c,
-- which waits for `new_data_avail`, clears it, and then reads one field of the snapshot after the
-- other.
pub mod Told
pub mod Steps
pub mod Current
pub mod Single
pub mod Catching
pub mod Silent
pub mod Stolen
use team9osdriver.Prelude.{ℕ, ◌≡◌, Bool, true, false, ◌==◌, if◌then◌else◌}
use team9osdriver.Device.{Kernel, Dev}
use team9osdriver.Chardev.{Snapshot, build_snapshot}
use team9osdriver.Threads.{
  Pc, ended, input_lock, start_lock, direct_move, TimerPc, timer_queues, timer_notifies, WorkerPc,
}
use team9osdriver.Threads.System.{System, update, Step, at_start, worker_at_rest}

-- Where a reader is: in its first wait, before a field of the snapshot, or behind the last one
-- and in the next wait.
pub data ReadPc : Type 0 where
  no_read reads_mode reads_pan reads_tilt reads_tilt2 reads_count : ReadPc
  reads_moves reads_replays reads_irqs read_done : ReadPc

abbrev pub waiting : ReadPc → Bool
waiting no_read = true
waiting read_done = true
waiting _ = false

abbrev pub read_next : ReadPc → ReadPc
read_next reads_mode = reads_pan
read_next reads_pan = reads_tilt
read_next reads_tilt = reads_tilt2
read_next reads_tilt2 = reads_count
read_next reads_count = reads_moves
read_next reads_moves = reads_replays
read_next reads_replays = reads_irqs
read_next reads_irqs = read_done
read_next p = p

-- the snapshot `snap` with the field at `p` as it is in `now`
abbrev pub fill : ReadPc → Snapshot → Snapshot → Snapshot
fill reads_mode now snap = record snap { mode = now.mode }
fill reads_pan now snap = record snap { pan_angle = now.pan_angle }
fill reads_tilt now snap = record snap { tilt_angle = now.tilt_angle }
fill reads_tilt2 now snap = record snap { tilt2_angle = now.tilt2_angle }
fill reads_count now snap = record snap { buffer_count = now.buffer_count }
fill reads_moves now snap = record snap { total_moves = now.total_moves }
fill reads_replays now snap = record snap { total_replays = now.total_replays }
fill reads_irqs now snap = record snap { irq_count = now.irq_count }
fill p now snap = snap

-- Threads that are sure to notify the readers: those in a call that is behind its first section,
-- the timer that has set the mode, and a worker that runs.
abbrev pub thread_owes : Pc → Bool
thread_owes ended = false
thread_owes (input_lock _ _ _) = false
thread_owes start_lock = false
thread_owes (direct_move _ _) = false
thread_owes _ = true

abbrev pub timer_owes : TimerPc → Bool
timer_owes timer_queues = true
timer_owes timer_notifies = true
timer_owes _ = false

module _ (k : Kernel) where
  pub record Reading : Type 0 where
    pub sys : System k
    pub readers : ℕ → ReadPc
    pub snaps : ℕ → Snapshot
    pub last : ℕ  -- the reader that cleared the flag last

  abbrev pub no_reads : Dev k → (ℕ → Snapshot) → Reading
  no_reads d snaps = record { sys = at_start k d; readers = λ _. no_read; snaps = snaps; last = 0 }

  -- the end of the wait of a reader, and the flag cleared
  unfoldable pub wait_over : ℕ → Reading → Reading
  wait_over i w = record w {
    sys = record (w.sys) { dev = record (w.sys.dev) { new_data_avail = false } };
    readers = update w.readers i reads_mode;
    last = i;
  }

  unfoldable pub read_field : ℕ → Reading → Reading
  unfolding build_snapshot
  read_field i w = record w {
    readers = update w.readers i (read_next (w.readers i));
    snaps = update w.snaps i (fill (w.readers i) (build_snapshot k w.sys.dev) (w.snaps i));
  }

  pub data Read (calls : Pc → Bool) (w : Reading) : Reading → Type 0 where
    other : {t : System k} → Step k calls w.sys t → Read calls w (record w { sys = t })
    wakes :
        (i : ℕ)
        → waiting (w.readers i) ≡ true
        → w.sys.dev.new_data_avail ≡ true
        → Read calls w (wait_over i w)
    field : (i : ℕ) → waiting (w.readers i) ≡ false → Read calls w (read_field i w)

  pub data Reads (calls : Pc → Bool) (w : Reading) : Reading → Type 0 where
    none_yet : Reads calls w w
    further : {v u : Reading} → Reads calls w v → Read calls v u → Reads calls w u
