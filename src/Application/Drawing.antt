-- ===== src/Application/Drawing.antt =====
-- What the application of app/echo_app.c draws.
use team9osdriver.Prelude.{ℕ, ◌≤◌, Option, none, some, List, [], ◌∷◌}
use team9osdriver.Servo.Angles.{IsValid}
use team9osdriver.Device.{Kernel, Dev}
use team9osdriver.Chardev.Layout.{snapshot_at}
use team9osdriver.Controller.{Status}
use team9osdriver.Application.{World, Event, main_step, reader_step, replay_step, driver}

module _ (k : Kernel) where
  -- what the drawing relies on: the mode has a name, and the angles are those of a servo
  record InRange (bytes : List ℕ) : Type 0 where
    mode : (snapshot_at bytes).mode ≤ 2
    pan : (snapshot_at bytes).pan_angle ≤ 180
    tilt : (snapshot_at bytes).tilt_angle ≤ 180
    tilt2 : (snapshot_at bytes).tilt2_angle ≤ 180

  -- The snapshot that is shared, the one that was drawn last and the device are in range.
  InRangeDrawn : Option (List ℕ × Status) → Type 0
  InRangeDrawn none = Unit {0}
  InRangeDrawn (some shown) = InRange shown.0

  record Sound (w : World k) : Type 0 where
    device : IsValid w.app.device.servo
    shared : InRange w.shared_snap
    shown : InRangeDrawn w.drawn

  -- What others do to the device while a call sleeps, and what the driver does, keeps the angles in
  -- range.
  abbrev pub Calm : Event k → Type 0
  Calm (reader_step block pad copied) = (d : Dev k) → IsValid d.servo → IsValid (block d).1.servo
  Calm (driver f) = (d : Dev k) → IsValid d.servo → IsValid (f d).servo
  Calm (main_step (some (m, spawned, ch))) =
      (d : Dev k) → IsValid d.servo → IsValid (m.sleep d).1.servo
  Calm (replay_step m) = (d : Dev k) → IsValid d.servo → IsValid (m.sleep d).1.servo
  Calm _ = Unit {0}

  abbrev pub AllCalm : List (Event k) → Type 0
  AllCalm [] = Unit {0}
  AllCalm (e ∷ es) = Calm e × AllCalm es
