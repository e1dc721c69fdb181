-- ===== src/Device/Spec.antt =====
-- What the robot promises, without its registers, buffers and callbacks: three arms, a recording and a
-- mode, and what each thing that happens does to them.
pub mod Abstraction
pub mod Press
pub mod Play
pub mod Refinement
pub mod Repeats
use team9osdriver.Prelude.{
  ℕ, ◌+◌, ◌-◌, min, Bool, true, false, Option, none, some, List, [], ◌∷◌, ◌++◌, ℤ, pos, negsuc,
  u32_of, ◌==◌, if◌then◌else◌,
}
use team9osdriver.Types.{Mode, idle, teach, replay, Move, fifo_size, servo_max, servo_center, u32}
use team9osdriver.Kernel.{Clock}
use team9osdriver.Buffer.Recording.{newest}
use team9osdriver.Device.{Now, is_replay}
use team9osdriver.Device.Input.{pause_from}

-- the angles of the base, the first and the second arm
pub record Arms : Type 0 where
  pub base : ℕ
  pub first : ℕ
  pub second : ℕ

abbrev pub angle_of : Arms → ℕ → ℕ
angle_of a id =
    if id == 0
    then a.base
    else if id == 1
    then a.first
    else if id == 2
    then a.second
    else servo_center

-- The second arm follows the base. There is no fourth one.
abbrev pub aim : ℕ → ℕ → Arms → Arms
aim id angle a =
    let to = min angle servo_max in
    if id == 0
    then record a { base = to; second = to }
    else if id == 1
    then record a { first = to }
    else if id == 2
    then record a { second = to }
    else a

abbrev pub clamped : ℕ → ℤ → ℕ
clamped angle (pos n) = min (angle + n) servo_max
clamped angle (negsuc n) = angle - (1 + n)

unfoldable pub perform_all : List Move → Arms → Arms
perform_all [] a = a
perform_all (m ∷ ms) a = perform_all ms (aim m.servo_id m.angle a)

-- `moves` counts the movements since the last request to teach, and `replays` the replays since the
-- load of the module.
pub record Robot : Type 0 where
  pub mode : Mode
  pub arms : Arms
  pub recording : List Move
  pub last_move : ℕ
  pub armed : Bool
  pub queued : Bool
  pub moves : ℕ
  pub replays : ℕ

pub data Happening : Type 0 where
  press : Now → ℕ → ℤ → Happening
  silence : Happening
  ask : Now → Mode → Happening
  turn : ℕ → ℕ → Happening
  play : Happening

abbrev pub pressed_move : Clock → Now → ℕ → ℤ → Robot → Move
pressed_move clock now id delta r = record {
  servo_id = id;
  angle = clamped (angle_of r.arms id) delta;
  delay_ms = u32_of (clock.ktime_ms_delta now.moved (pause_from r.mode now r.last_move));
}

abbrev pub learn : Now → Move → Robot → Robot
learn now m r = record r {
  mode = teach;
  arms = aim m.servo_id m.angle r.arms;
  recording = newest fifo_size (r.recording ++ (m ∷ []));
  last_move = now.moved;
  armed = true;
  moves = u32 (r.moves + 1);
}

abbrev pub start_replay : Robot → Robot
start_replay r = record r { mode = replay; armed = false; queued = true }

abbrev pub play_all : Robot → Robot
play_all r = record r {
  mode = idle;
  arms = if is_replay r.mode then perform_all r.recording r.arms else r.arms;
  queued = false;
  replays = u32 (r.replays + 1);
}

abbrev pub tell : Clock → Robot → Happening → Robot
tell clock r (press now id delta) =
    if is_replay r.mode then r else learn now (pressed_move clock now id delta r) r
tell clock r silence =
    if r.armed then elim (r.mode) [ teach ↦ start_replay r | _ ↦ record r { armed = false } ] else r
tell clock r (ask now teach) = record r {
  mode = teach;
  recording = [];
  last_move = now.start;
  armed = true;
  moves = 0;
}
tell clock r (ask now replay) = if is_replay r.mode then r else start_replay r
tell clock r (ask now idle) = record r { mode = idle; armed = false; queued = false }
tell clock r (turn id angle) = record r { arms = aim id angle r.arms }
tell clock r play = if r.queued then play_all r else r

unfoldable pub tell_all : Clock → Robot → List Happening → Robot
tell_all clock r [] = r
tell_all clock r (h ∷ hs) = tell_all clock (tell clock r h) hs
