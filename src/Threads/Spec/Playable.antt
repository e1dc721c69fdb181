-- ===== src/Threads/Spec/Playable.antt =====
-- What is recorded can be played, whatever threads record and play it.
use team9osdriver.Prelude.{◌^◌, ◌<◌, ◌≡◌, arith, Bool, true, ltb}
use team9osdriver.Types.{num_servos}
use team9osdriver.Servo.Angles.{IsValid, get_angle_range}
use team9osdriver.Device.{Kernel, Dev}
use team9osdriver.Device.Spec.Abstraction.{arms_of, robot_of}
use team9osdriver.Threads.{Pc, input_lock}
use team9osdriver.Threads.System.{System, Steps, at_start, entry}
use team9osdriver.Threads.Spec.Copies.{player_of}
use team9osdriver.Threads.Spec.Refinement.{stage_of, Steps-Refines}
use team9osdriver.Threads.Spec.Story.{to_play}
use team9osdriver.Threads.Spec.Sound.{ArePlayable, IsFormed, StageIsSound, Acts-IsSound}

-- the calls, with presses for servos that there are
abbrev pub known_entry : Pc → Bool
known_entry (input_lock now id delta) = ltb id num_servos
known_entry p = entry p

known_entry-IsFormed : (p : Pc) → known_entry p ≡ true → IsFormed p
known_entry-IsFormed p e = ground (arith, e)

module _ (k : Kernel) where
  -- A device whose recording can be played, and whose angles and counts are in range, with nothing
  -- under way at first, stays like that, in any order of the sections of any threads, if presses
  -- are for servos that there are: each movement in the recording, and each that a worker has still
  -- to send, is for a servo that there is, has an angle of at most 180 and a pause that fits 32
  -- bits; and the counts of movements and of replays fit 32 bits.
  pub recording_is_playable :
      (d : Dev k) {t : System k}
      → Steps k known_entry (at_start k d) t
      → IsValid d.servo
      → ArePlayable (k.kfifo.entries d.buffer.move_fifo)
      → d.state.total_moves < 2 ^ 32
      → d.buffer.replay_count < 2 ^ 32
      → ArePlayable (k.kfifo.entries t.dev.buffer.move_fifo)
        × ArePlayable (to_play (player_of t.worker))
        × (t.dev.state.total_moves < 2 ^ 32)
        × (t.dev.buffer.replay_count < 2 ^ 32)
  unfolding stage_of robot_of arms_of
  recording_is_playable d {t = t} r v p m n =
      let first : StageIsSound (stage_of k (at_start k d)) = record {
        robot = record {
          arms = (
            get_angle_range d.servo 0 v,
            get_angle_range d.servo 1 v,
            get_angle_range d.servo 2 v,
          );
          recording = p;
          moves = m;
          replays = n;
        };
        threads = λ i. tt;
        player = tt;
      } in
      let s =
        Acts-IsSound k.clock known_entry-IsFormed
          (Steps-Refines k r (record { servos = v; memory = tt })) first in
      (s.robot.recording, s.player, s.robot.moves, s.robot.replays)
