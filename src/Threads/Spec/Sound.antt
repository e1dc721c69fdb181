-- ===== src/Threads/Spec/Sound.antt =====
-- Every value of the robot with calls under way stays in the range of its type.
use team9osdriver.Prelude.{
  ℕ, zero, suc, ◌^◌, ◌≤◌, ◌<◌, ◌≡◌, subst, sym, arith, Bool, true, false, List, [], ◌∷◌, ◌++◌, ℤ,
  pos, negsuc, drop, u32_of, inl, inr,
}
use team9osdriver.Types.{Move, num_servos, servo_max, fifo_size, u32}
use team9osdriver.Kernel.{Clock}
use team9osdriver.Buffer.Recording.{newest}
use team9osdriver.Device.Spec.{Arms, Robot, angle_of, aim, clamped}
use team9osdriver.Threads.{Pc, input_lock, input_get, input_move, input_time, input_record, TimerPc}
use native.Mathlib.Decide.{ℕ_discrete}
use team9osdriver.Threads.System.{update}
use team9osdriver.Threads.Spec.{
  Stage, Act, calls_up, goes, fires, ticks, begins, plays, Acts, stays, acts, Player, play_on,
  go_on, expire_on,
}
use team9osdriver.Threads.Spec.Story.{to_play}

-- The servo exists, the angle is in range, and the pause fits a `u32`.
abbrev IsPlayable : Move → Type 0
IsPlayable m = (m.servo_id < num_servos) × (m.angle ≤ servo_max) × (m.delay_ms < 2 ^ 32)

abbrev pub ArePlayable : List Move → Type 0
ArePlayable [] = Unit {0}
ArePlayable (m ∷ ms) = IsPlayable m × ArePlayable ms

ArePlayable-append : (ms ns : List Move) → ArePlayable ms → ArePlayable ns → ArePlayable (ms ++ ns)
ArePlayable-append [] ns p q = q
ArePlayable-append (m ∷ ms) ns (h, p) q = (h, ArePlayable-append ms ns p q)

ArePlayable-drop : (n : ℕ) (ms : List Move) → ArePlayable ms → ArePlayable (drop n ms)
ArePlayable-drop zero ms p = p
ArePlayable-drop (suc n) [] p = tt
ArePlayable-drop (suc n) (m ∷ ms) (h, p) = ArePlayable-drop n ms p

abbrev ArmsFit : Arms → Type 0
ArmsFit a = (a.base ≤ servo_max) × (a.first ≤ servo_max) × (a.second ≤ servo_max)

-- The robot's values fit their types, and its recording can be played.
pub record IsSound (r : Robot) : Type 0 where
  pub arms : ArmsFit r.arms
  pub recording : ArePlayable r.recording
  pub moves : r.moves < 2 ^ 32
  pub replays : r.replays < 2 ^ 32

-- A call's local variables are in range.
abbrev pub IsFormed : Pc → Type 0
IsFormed (input_lock now id delta) = id < num_servos
IsFormed (input_get now id delta) = id < num_servos
IsFormed (input_move now id angle) = (id < num_servos) × (angle ≤ servo_max)
IsFormed (input_time now id angle) = (id < num_servos) × (angle ≤ servo_max)
IsFormed (input_record now m) = IsPlayable m
IsFormed p = Unit {0}

aim-ArmsFit : (id angle : ℕ) (a : Arms) → ArmsFit a → ArmsFit (aim id angle a)
aim-ArmsFit id angle a f = ground (arith, f)

clamped_fits :
    (a : Arms) (id : ℕ) (delta : ℤ) → ArmsFit a → clamped (angle_of a id) delta ≤ servo_max
clamped_fits a id (pos n) f = ground arith
clamped_fits a id (negsuc n) f = ground (arith, f)

u32_fits : (n : ℕ) → u32 n < 2 ^ 32
u32_fits n = omega arith

u32_of_fits : (z : ℤ) → u32_of z < 2 ^ 32
u32_of_fits z = ground arith

scheduled :
    (armed queued : Bool) (r : Robot)
    → IsSound r
    → IsSound (record r { armed = armed; queued = queued })
scheduled armed queued r s = record {
  arms = s.arms;
  recording = s.recording;
  moves = s.moves;
  replays = s.replays;
}

recorded :
    (m : Move) (r : Robot)
    → IsPlayable m
    → IsSound r
    → IsSound (record r { recording = newest fifo_size (r.recording ++ (m ∷ [])) })
recorded m r p s = record {
  arms = s.arms;
  recording =
      ArePlayable-drop _ (r.recording ++ (m ∷ []))
        (ArePlayable-append r.recording (m ∷ []) s.recording (p, tt));
  moves = s.moves;
  replays = s.replays;
}

expire_on-IsSound : (t : TimerPc) (r : Robot) → IsSound r → IsSound (expire_on t r).1
expire_on-IsSound t r s = ground (arith, s)

play_on-IsSound :
    (p : Player) (r : Robot)
    → ArePlayable (to_play p)
    → IsSound r
    → IsSound (play_on p r).1 × ArePlayable (to_play (play_on p r).0)
play_on-IsSound p r a s = ground (arith, a, s)

update-IsFormed :
    (f : ℕ → Pc) (i : ℕ) (p : Pc)
    → ((j : ℕ) → IsFormed (f j))
    → IsFormed p
    → (j : ℕ) → IsFormed (update f i p j)
update-IsFormed f i p all h j = elim (ℕ_discrete i j) [
  | yes e ↦ ground (arith, h)
  | no n ↦ ground (arith, all j)
]

-- The robot is sound, and so is what its calls and its player have in hand.
pub record StageIsSound (a : Stage) : Type 0 where
  pub robot : IsSound a.robot
  pub threads : (i : ℕ) → IsFormed (a.threads i)
  pub player : ArePlayable (to_play a.player)

module _ (clock : Clock) where
  go_on-IsFormed :
      (refused : Bool) (p : Pc) (r : Robot)
      → IsFormed p
      → IsSound r
      → IsFormed (go_on clock refused p r).0
  go_on-IsFormed refused (input_get now id delta) r f s = (f, clamped_fits r.arms id delta s.arms)
  go_on-IsFormed refused (input_time now id angle) r (f, a) s =
      (f, a, u32_of_fits (clock.ktime_ms_delta now.moved r.last_move))
  go_on-IsFormed refused p r f s = ground (arith, f)

  go_on-IsSound :
      (refused : Bool) (p : Pc) (r : Robot)
      → IsFormed p
      → IsSound r
      → IsSound (go_on clock refused p r).1
  go_on-IsSound refused (input_record now m) r f s = recorded m r f s
  go_on-IsSound refused p r f s = ground (arith, f, s)

  Act-IsSound :
      {calls : Pc → Bool} {a b : Stage}
      → ((p : Pc) → calls p ≡ true → IsFormed p)
      → Act clock calls a b
      → StageIsSound a
      → StageIsSound b
  Act-IsSound {a = a} formed (calls_up i p e c) s = record {
    robot = s.robot;
    threads = update-IsFormed a.threads i p s.threads (formed p c);
    player = s.player;
  }
  Act-IsSound {a = a} formed (goes i refused g e) s = subst StageIsSound (sym e) (record {
    robot = go_on-IsSound refused (a.threads i) a.robot (s.threads i) s.robot;
    threads =
        update-IsFormed a.threads i _ s.threads
          (go_on-IsFormed refused (a.threads i) a.robot (s.threads i) s.robot);
    player = s.player;
  })
  Act-IsSound {a = a} formed (fires r e) s = record {
    robot = scheduled false a.robot.queued a.robot s.robot;
    threads = s.threads;
    player = s.player;
  }
  Act-IsSound {a = a} formed (ticks r e) s = subst StageIsSound (sym e) (record {
    robot = expire_on-IsSound a.timer a.robot s.robot;
    threads = s.threads;
    player = s.player;
  })
  Act-IsSound {a = a} formed (begins p (inl e) r q) s = record {
    robot = scheduled a.robot.armed false a.robot s.robot;
    threads = s.threads;
    player = subst (λ p. ArePlayable (to_play p)) (sym e) tt;
  }
  Act-IsSound {a = a} formed (begins p (inr e) r q) s = record {
    robot = scheduled a.robot.armed false a.robot s.robot;
    threads = s.threads;
    player = subst (λ p. ArePlayable (to_play p)) (sym e) tt;
  }
  Act-IsSound {a = a} formed (plays r e) s =
      let (robot, player) = play_on-IsSound a.player a.robot s.player s.robot in
      subst StageIsSound (sym e) (record { robot = robot; threads = s.threads; player = player })

  pub Acts-IsSound :
      {calls : Pc → Bool} {a b : Stage}
      → ((p : Pc) → calls p ≡ true → IsFormed p)
      → Acts clock calls a b
      → StageIsSound a
      → StageIsSound b
  Acts-IsSound formed stays s = s
  Acts-IsSound formed (acts r st) s = Act-IsSound formed st (Acts-IsSound formed r s)
