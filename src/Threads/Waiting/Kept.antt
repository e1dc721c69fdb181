-- ===== src/Threads/Waiting/Kept.antt =====
-- Whoever writes REPLAY has a promise that the flag will be set.
use team9osdriver.Prelude.{ℕ, ◌≢◌, refl, ap, arith, Bool, inr}
use native.Mathlib.Decide.{ℕ_discrete}
use team9osdriver.Types.{Mode}
use team9osdriver.Device.{Kernel}
use team9osdriver.Threads.{Pc, start_lock}
use team9osdriver.Threads.System.{update, entry_but_stop, call, go, fire, tick, begin, work}
use team9osdriver.Threads.Calls.{update_self}
use team9osdriver.Threads.Replay.{Live, Step-Live}
use team9osdriver.Threads.Waiting.{
  Write, no_write, starts_replay, waits_replay, next_write, Writers, at_rest, write_begins, section,
  wait_ends, Turn, Turns, write, wake, interrupt, none_yet, further,
}
use team9osdriver.Threads.Waiting
use team9osdriver.Threads.Waiting.Owed.{IsPromised, Step-IsPromised}

section_write :
    (f : ℕ → Write) (i j : ℕ) (p : Pc) (m : Mode)
    → update f i (next_write (f i) p m) j ≢ no_write
    → f j ≢ no_write
section_write f i j p m h e = elim (ℕ_discrete i j) [
  | yes same ↦ h (ground (arith, ap f same))
  | no ne ↦ h (ground arith)
]

ended_write : (f : ℕ → Write) (i j : ℕ) → update f i no_write j ≢ no_write → f j ≢ no_write
ended_write f i j h e = h (ground arith)

module _ (k : Kernel) where
  -- No thread stops the driver, a device in replay mode goes on, and whoever writes REPLAY has a
  -- promise.
  pub record Kept (w : Writers k) : Type 0 where
    pub live : Live k w.sys
    pub promised : (i : ℕ) → w.writes i ≢ no_write → IsPromised k w.sys

  Turn-Kept : {new : Bool} {w v : Writers k} → Turn k entry_but_stop new w v → Kept w → Kept v
  unfolding write_begins section wait_ends
  Turn-Kept {w = w} (Waiting.call i p e n c) h = record {
    live = Step-Live k (call i p e c) h.live;
    promised = λ j b. Step-IsPromised k (call i p e c) h.live (h.promised j b);
  }
  Turn-Kept {w = w} (write i e n c) h =
      let started = Step-Live k {s = w.sys} (call i start_lock e refl) h.live in
      record {
        live = record { no_stop = started.no_stop; goes_on = started.goes_on };
        promised =
            λ j b. inr (inr (inr (inr (i, rw (update_self w.sys.threads i start_lock) refl))));
      }
  Turn-Kept {w = w} (Waiting.go i c) h = record {
    live = Step-Live k (go i c) h.live;
    promised = λ j b.
        Step-IsPromised k (go i c) h.live
          (h.promised j (section_write w.writes i j (w.sys.threads i) w.sys.dev.state.mode b));
  }
  Turn-Kept {w = w} (wake i e f) h = record {
    live = h.live;
    promised = λ j b. h.promised j (ended_write w.writes i j b);
  }
  Turn-Kept {w = w} (interrupt i e f) h = record {
    live = h.live;
    promised = λ j b. h.promised j (ended_write w.writes i j b);
  }
  Turn-Kept (Waiting.fire t r e) h = record {
    live = Step-Live k (fire t r e) h.live;
    promised = λ j b. Step-IsPromised k (fire t r e) h.live (h.promised j b);
  }
  Turn-Kept (Waiting.tick r) h = record {
    live = Step-Live k (tick r) h.live;
    promised = λ j b. Step-IsPromised k (tick r) h.live (h.promised j b);
  }
  Turn-Kept (Waiting.begin moves r e z) h = record {
    live = Step-Live k (begin moves r e z) h.live;
    promised = λ j b. Step-IsPromised k (begin moves r e z) h.live (h.promised j b);
  }
  Turn-Kept (Waiting.work r) h = record {
    live = Step-Live k (work r) h.live;
    promised = λ j b. Step-IsPromised k (work r) h.live (h.promised j b);
  }

  pub Turns-Kept : {new : Bool} {w v : Writers k} → Turns k entry_but_stop new w v → Kept w → Kept v
  Turns-Kept none_yet h = h
  Turns-Kept (further r t) h = Turn-Kept t (Turns-Kept r h)
