-- ===== src/Tests/Sessions.antt =====
-- Runs of the application, and its theorems at concrete inputs.
use team9osdriver.Prelude.{pos, ℕ, Bool, true, none, some, List, [], ◌∷◌}
use team9osdriver.Device.{Dev}
use team9osdriver.Controller.{Moment, app_start}
use team9osdriver.Application.{
  looping, at_getch, testing, no_snapshot, World, Event, main_step, reader_step, replay_step,
}
use team9osdriver.Tests.Fixture.{test_kernel, teaching, at_250}

-- a sleep that a signal ends
abbrev cut_short : Dev test_kernel → Bool × Dev test_kernel
cut_short d = (true, d)

-- when a key is pressed, and what happens in the sleep of its call
abbrev evening_key : Moment test_kernel
evening_key = record { now = at_250; sleep = cut_short }

abbrev Session : Type 0
Session = World test_kernel

abbrev with_news : Dev test_kernel
with_news = record teaching { new_data_avail = true }

abbrev begun : Session
begun = record {
  main = looping;
  reader = testing;
  shared_snap = no_snapshot;
  drawn = none;
  app = app_start test_kernel with_news;
}

abbrev at_keys : Session
at_keys = record begun { main = at_getch }

abbrev round : Event test_kernel
round = reader_step cut_short (171, 205) true

-- A round of the reader, a drawing, the key s, no key and the next drawing.
abbrev evening : List (Event test_kernel)
evening =
    round
    ∷ round
    ∷ main_step none
    ∷ main_step (some (evening_key, true, 115))
    ∷ main_step none
    ∷ main_step none
    ∷ replay_step evening_key
    ∷ round
    ∷ round
    ∷ main_step none
    ∷ []

-- the application behind its start
abbrev begins : Session
begins = record {
  main = looping;
  reader = testing;
  shared_snap =
      1 ∷ 0 ∷ 0 ∷ 0 ∷ 90 ∷ 0 ∷ 90 ∷ 0 ∷ 90 ∷ 0 ∷ 1 ∷ 2 ∷ 2 ∷ 0 ∷ 0 ∷ 0 ∷ 2 ∷ 0 ∷ 0 ∷ 0 ∷ 0 ∷ 0 ∷ 0
      ∷ 0 ∷ 0 ∷ 0 ∷ 0 ∷ 0 ∷ [];
  drawn = none;
  app = app_start test_kernel (record with_news { open_count = pos 2 });
}

-- what the second drawing shows: the mode IDLE, and the padding of the read
abbrev last_bytes : List ℕ
last_bytes =
    0 ∷ 0 ∷ 0 ∷ 0 ∷ 90 ∷ 0 ∷ 90 ∷ 0 ∷ 90 ∷ 0 ∷ 171 ∷ 205 ∷ 2 ∷ 0 ∷ 0 ∷ 0 ∷ 2 ∷ 0 ∷ 0 ∷ 0 ∷ 0 ∷ 0 ∷ 0
    ∷ 0 ∷ 0 ∷ 0 ∷ 0 ∷ 0 ∷ []
