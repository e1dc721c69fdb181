-- ===== src/Threads/Spec/Refinement.antt =====
-- The threads of the driver do what the robot of Threads/Spec does.
use team9osdriver.Prelude.{◌≡◌, refl, ap, ◌∙◌, arith, Bool, Option, none, some, List, ◌⊎◌, inl, inr}
use team9osdriver.Types.{Move}
use team9osdriver.Servo.Angles.{IsValid}
use team9osdriver.Device.{Kernel, Dev}
use team9osdriver.Device.Spec.{Robot}
use team9osdriver.Device.Spec.Abstraction.{robot_of, is_some}
use team9osdriver.Threads.{Pc, TimerPc, WorkerPc, worker_starts, worker_advance}
use team9osdriver.Threads.System.{
  System, Step, call, go, fire, tick, begin, work, Steps, stay, more, update, can_go,
  worker_at_rest, thread_step, timer_step, worker_step, timer_fires, worker_begins,
}
use team9osdriver.Threads.Safety.{Step-IsValid}
use team9osdriver.Threads.Spec.{
  Player, starts, fails, resting, Stage, may_go, Act, calls_up, goes, fires, ticks, begins, plays,
  Acts, stays, acts,
}
use team9osdriver.Threads.Spec.Copies.{player_of, HasMemory, worker_advance-Refines}
use team9osdriver.Threads.Spec.Sections.{refuses, advance-Refines, timer_advance-Refines}

resting_player : (w : WorkerPc) → resting (player_of w) ≡ worker_at_rest w
resting_player w = ground arith

may_go-can_go : (p : Pc) (t : TimerPc) (w : WorkerPc) → may_go p t (player_of w) ≡ can_go p t w
may_go-can_go p t w = ground (arith, resting_player w)

began :
    (room : Option (List Move))
    → (player_of (worker_starts room) ≡ starts) ⊎ (player_of (worker_starts room) ≡ fails)
began none = inr refl
began (some room) = inl refl

module _ (k : Kernel) where
  -- The threads are in order: the angles are in range, and a worker that begins has its memory.
  pub record InOrder (s : System k) : Type 0 where
    pub servos : IsValid s.dev.servo
    pub memory : HasMemory s.worker

  worker_advance-HasMemory : (w : WorkerPc) (d : Dev k) → HasMemory (worker_advance k w d).0
  unfolding worker_advance
  worker_advance-HasMemory w d = ground arith

  Step-HasMemory :
      {calls : Pc → Bool} {s t : System k}
      → Step k calls s t
      → HasMemory s.worker
      → HasMemory t.worker
  unfolding thread_step timer_step worker_step timer_fires worker_begins
  Step-HasMemory (call i p e c) h = h
  Step-HasMemory (go i c) h = h
  Step-HasMemory (fire t r e) h = h
  Step-HasMemory (tick r) h = h
  Step-HasMemory (begin room r e z) h = z
  Step-HasMemory {s = s} (work r) h = worker_advance-HasMemory s.worker s.dev

  Step-InOrder : {calls : Pc → Bool} {s t : System k} → Step k calls s t → InOrder s → InOrder t
  Step-InOrder st o = record {
    servos = Step-IsValid k st o.servos;
    memory = Step-HasMemory st o.memory;
  }

  unfoldable pub stage_of : System k → Stage
  stage_of s = record {
    robot = robot_of k s.dev;
    threads = s.threads;
    timer = s.timer;
    player = player_of s.worker;
  }

  Step-Refines :
      {calls : Pc → Bool} {s t : System k}
      → Step k calls s t
      → InOrder s
      → Act k.clock calls (stage_of s) (stage_of t)
  unfolding stage_of robot_of thread_step timer_step worker_step timer_fires worker_begins
  Step-Refines (call i p e c) o = calls_up i p e c
  Step-Refines {s = s} (go i c) o =
      goes i (refuses k (s.threads i) s.dev) (may_go-can_go (s.threads i) s.timer s.worker ∙ c) (
        ap
          (λ (x : Pc × Robot). record (stage_of s) {
            robot = x.1;
            threads = update s.threads i x.0;
          })
          (advance-Refines k (s.threads i) s.dev o.servos))
  Step-Refines {s = s} (fire t r e) o = fires r (ap (is_some k) e)
  Step-Refines {s = s} (tick r) o = ticks r (
      ap (λ (x : TimerPc × Robot). record (stage_of s) { robot = x.1; timer = x.0 })
        (timer_advance-Refines k s.timer s.dev))
  Step-Refines {s = s} (begin room r e z) o =
      begins (player_of (worker_starts room)) (began room) (resting_player s.worker ∙ r) e
  Step-Refines {s = s} (work r) o = plays (resting_player s.worker ∙ r) (
      ap (λ (x : Player × Robot). record (stage_of s) { robot = x.1; player = x.0 })
        (worker_advance-Refines k s.worker s.dev o.memory o.servos))

  pub Steps-InOrder :
      {calls : Pc → Bool} {s t : System k} → Steps k calls s t → InOrder s → InOrder t
  Steps-InOrder stay o = o
  Steps-InOrder (more r st) o = Step-InOrder st (Steps-InOrder r o)

  -- Whatever threads call the driver, in whatever order of their sections, and of those of the
  -- timer's function and of the worker: the driver does what the robot of Threads/Spec does with
  -- the same calls, section by section. As in the code, and not as in the comments of
  -- module/echo_ioctl.h, a request to teach starts the count of moves anew, and RESET leaves the
  -- counts as they are. It supposes that the angles are in range at the start and that a worker
  -- that has just begun then has room for 256 movements or none.
  pub Steps-Refines :
      {calls : Pc → Bool} {s t : System k}
      → Steps k calls s t
      → InOrder s
      → Acts k.clock calls (stage_of s) (stage_of t)
  Steps-Refines stay o = stays
  Steps-Refines (more r st) o = acts (Steps-Refines r o) (Step-Refines st (Steps-InOrder r o))
