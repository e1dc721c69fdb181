-- ===== src/Threads/Spec/Story.antt =====
-- What the worker of module/echo_buffer.c has played, among any threads.
use team9osdriver.Prelude.{suc, ◌≡◌, Bool, false, not, none, some, List, [], ◌∷◌, ◌++◌, get_or}
use team9osdriver.Types.{Move}
use team9osdriver.Buffer.{no_move}
use team9osdriver.Device.{Kernel, Dev, is_replay, buf_op_should_stop}
use team9osdriver.Device.Spec.{Robot}
use team9osdriver.Threads.{Pc, WorkerPc, worker_starts, worker_tests, worker_moves}
use team9osdriver.Threads.System.{System, Step, work, Steps, stay, more}
use team9osdriver.Threads.Spec.{Player, starts, fails, counts, tests, notifies, sleeps, aims}

-- The recording when the worker last copied it, the movements that it has sent to the servos since
-- then, and whether its last test said stop.
pub record Story : Type 0 where
  pub copy : List Move
  pub played : List Move
  pub cut : Bool

abbrev untold : Story
untold = record { copy = []; played = []; cut = false }

-- how a section of the player goes on with the story
abbrev narrate : Player → Robot → Story → Story
narrate starts r h = record { copy = r.recording; played = []; cut = false }
narrate fails r h = untold
narrate (tests (m ∷ ms)) r h = record h { cut = not (is_replay r.mode) }
narrate (aims m ms) r h = record h { played = h.played ++ (m ∷ []) }
narrate p r h = h

-- `rest` is what the player has still to play, unless its last test said stop.
abbrev Left : Player → List Move → Bool → Type 0
Left (counts ms) rest cut = (rest ≡ ms) × (cut ≡ false)
Left (tests ms) rest cut = (rest ≡ ms) × (cut ≡ false)
Left (sleeps m ms) rest cut = (rest ≡ m ∷ ms) × (cut ≡ false)
Left (aims m ms) rest cut = (rest ≡ m ∷ ms) × (cut ≡ false)
Left (notifies ms) rest cut = (rest ≡ ms) × (cut ≡ false)
Left p rest cut = cut ≡ false → rest ≡ []

abbrev Consistent : Player → Story → Type 0
Consistent p h = (rest : List Move) × (h.copy ≡ h.played ++ rest) × Left p rest h.cut

-- the movements that the player has before it
abbrev pub to_play : Player → List Move
to_play (counts ms) = ms
to_play (tests ms) = ms
to_play (sleeps m ms) = m ∷ ms
to_play (aims m ms) = m ∷ ms
to_play (notifies ms) = ms
to_play p = []

module _ (k : Kernel) where
  -- What a section of the worker adds to the story: the movements that it sends are those of
  -- `worker_moves`.
  abbrev heard : WorkerPc → Dev k → Story → Story
  heard (worker_starts none) d h = untold
  heard (worker_starts (some room)) d h = record {
    copy = k.kfifo.entries d.buffer.move_fifo;
    played = [];
    cut = false;
  }
  heard (worker_tests (suc n) i room) d h = record h { cut = buf_op_should_stop k d }
  heard (worker_moves n i room) d h = record h { played = h.played ++ (get_or room i no_move ∷ []) }
  heard w d h = h

  abbrev told_of : {calls : Pc → Bool} {s t : System k} → Step k calls s t → Story → Story
  told_of {s = s} (work b) h = heard s.worker s.dev h
  told_of st h = h

  -- the story of an order of sections
  unfoldable pub story : {calls : Pc → Bool} {s t : System k} → Steps k calls s t → Story
  story stay = untold
  story (more r st) = told_of st (story r)
