-- ===== src/Device/Spec/Repeats.antt =====
-- A replay ends where the teaching ended.
use team9osdriver.Prelude.{
  ℕ, zero, suc, ◌≡◌, refl, sym, subst, ap, ◌∙◌, arith, true, Option, some, List, [], ◌∷◌, ◌++◌, ℤ,
  drop, length,
}
use team9osdriver.Types.{idle, teach, replay, Move, fifo_size}
use team9osdriver.Servo.{get_angle}
use team9osdriver.Device.{Kernel, Dev, Now}
use team9osdriver.Device.Events.{Event, input, expire, request, work, run}
use team9osdriver.Device.Invariant.{Inv, AllCalm, run-Inv}
use team9osdriver.Device.Spec.{
  angle_of, Arms, Robot, press, ask, aim, perform_all, pressed_move, learn, tell, tell_all,
}
use team9osdriver.Device.Spec.Abstraction.{
  robot_of, told_all, Still, Quiet, AllQuiet, angle_of-arms_of,
}
use team9osdriver.Device.Spec.Refinement.{run-Refines}

aim_same :
    (i a j b : ℕ) (x y : Arms) → aim i a x ≡ aim i a y → aim i a (aim j b x) ≡ aim i a (aim j b y)
aim_same i a j b x y e = ground arith

aim_twice : (i a : ℕ) (x : Arms) → aim i a (aim i a x) ≡ aim i a x
aim_twice i a x = ground arith

perform_same :
    (ms : List Move) (i a : ℕ) (x y : Arms)
    → aim i a x ≡ aim i a y
    → aim i a (perform_all ms x) ≡ aim i a (perform_all ms y)
unfolding perform_all
perform_same [] i a x y e = e
perform_same (m ∷ ms) i a x y e =
    perform_same ms i a (aim m.servo_id m.angle x) (aim m.servo_id m.angle y)
      (aim_same i a m.servo_id m.angle x y e)

perform_all-append :
    (ms : List Move) (m : Move) (x : Arms)
    → perform_all (ms ++ (m ∷ [])) x ≡ aim m.servo_id m.angle (perform_all ms x)
unfolding perform_all
perform_all-append [] m x = refl
perform_all-append (n ∷ ms) m x = perform_all-append ms m (aim n.servo_id n.angle x)

-- The recording, and each end of it, brings the arms to where they are.
abbrev Settled : List Move → Arms → Type 0
Settled [] x = Unit {0}
Settled (m ∷ ms) x = (perform_all (m ∷ ms) x ≡ x) × Settled ms x

Settled-append :
    (ms : List Move) (m : Move) (x : Arms)
    → Settled ms x
    → Settled (ms ++ (m ∷ [])) (aim m.servo_id m.angle x)
unfolding perform_all
Settled-append [] m x h = (aim_twice m.servo_id m.angle x, tt)
Settled-append (n ∷ ms) m x h = (
  perform_all-append (n ∷ ms) m (aim m.servo_id m.angle x)
      ∙ perform_same (n ∷ ms) m.servo_id m.angle (aim m.servo_id m.angle x) x
          (aim_twice m.servo_id m.angle x)
      ∙ ap (aim m.servo_id m.angle) h.0,
  Settled-append ms m x h.1,
)

Settled-drop : (n : ℕ) (ms : List Move) (x : Arms) → Settled ms x → Settled (drop n ms) x
Settled-drop zero ms x h = h
Settled-drop (suc n) [] x h = h
Settled-drop (suc n) (m ∷ ms) x h = Settled-drop n ms x h.1

perform-Settled : (ms : List Move) (x : Arms) → Settled ms x → perform_all ms x ≡ x
unfolding perform_all
perform-Settled [] x h = refl
perform-Settled (m ∷ ms) x h = h.0

-- A robot that is being taught.
record Taught (r : Robot) : Type 0 where
  teaching : r.mode ≡ teach
  timed : r.armed ≡ true
  settled : Settled r.recording r.arms

learn-Taught : (now : Now) (m : Move) (r : Robot) → Taught r → Taught (learn now m r)
learn-Taught now m r h = record {
  teaching = refl;
  timed = refl;
  settled =
      Settled-drop _ (r.recording ++ (m ∷ [])) _ (Settled-append r.recording m r.arms h.settled);
}

module _ (k : Kernel) where
  -- presses of the joystick: the times, the servo and the change of each
  abbrev pub presses : List (Now × ℕ × ℤ) → List (Event k)
  presses [] = []
  presses (p ∷ ps) = input p.0 p.1 p.2 ∷ presses ps

  presses-Taught :
      (ps : List (Now × ℕ × ℤ)) (r : Robot)
      → Taught r
      → Taught (tell_all k.clock r (told_all k (presses ps)))
  unfolding tell_all
  presses-Taught [] r h = h
  presses-Taught (p ∷ ps) r h =
      presses-Taught ps (tell k.clock r (press p.0 p.1 p.2))
        (ground (arith, h.teaching, learn-Taught p.0 (pressed_move k.clock p.0 p.1 p.2 r) r h))

  teaching-Taught :
      (ps : List (Now × ℕ × ℤ)) (now : Now) (r : Robot)
      → Taught (tell_all k.clock r (told_all k (request now teach ∷ presses ps)))
  unfolding tell_all
  teaching-Taught ps now r =
      presses-Taught ps (tell k.clock r (ask now teach))
        (record { teaching = refl; timed = refl; settled = tt })

  -- what starts a replay of a robot that is being taught: silence, or a request
  abbrev Starts : Event k → Type 0
  Starts expire = Unit {0}
  Starts (request now replay) = Unit {0}
  Starts _ = ⊥

  replayed_robot :
      (r : Robot) (trigger : Event k) (msleep : ℕ → Dev k → Dev k) (moves : Option (List Move))
      → Taught r
      → Starts trigger
      → let r' = tell_all k.clock r (told_all k (trigger ∷ work msleep moves ∷ [])) in
        (r'.arms ≡ r.arms) × (r'.recording ≡ r.recording) × (r'.mode ≡ idle)
  unfolding tell_all
  replayed_robot r expire msleep moves h st =
      ground (arith, h.teaching, h.timed, perform-Settled r.recording r.arms h.settled)
  replayed_robot r (request now replay) msleep moves h st =
      ground (arith, h.teaching, h.timed, perform-Settled r.recording r.arms h.settled)
  replayed_robot r _ msleep moves h st = absurd st

  presses-AllQuiet : (ps : List (Now × ℕ × ℤ)) → AllQuiet k (presses ps)
  presses-AllQuiet [] = tt
  presses-AllQuiet (p ∷ ps) = (tt, presses-AllQuiet ps)

  presses-AllCalm : (ps : List (Now × ℕ × ℤ)) → AllCalm k (presses ps)
  presses-AllCalm [] = tt
  presses-AllCalm (p ∷ ps) = (tt, presses-AllCalm ps)

  trigger-Quiet : (trigger : Event k) → Starts trigger → Quiet k trigger
  trigger-Quiet expire st = tt
  trigger-Quiet (request now replay) st = tt
  trigger-Quiet _ st = absurd st

  -- A replay ends where the teaching ended: if a device in order is told to be taught, its joystick
  -- is pressed any number of times, and silence or a request then starts a replay that has memory
  -- for 256 movements and that nothing disturbs in its sleeps, then every angle at the end is what
  -- it was behind the last press, the recording is what was taught, and the mode is idle.
  pub replay_repeats :
      (d : Dev k) (now : Now) (ps : List (Now × ℕ × ℤ)) (trigger : Event k)
      (msleep : ℕ → Dev k → Dev k) (moves : List Move)
      → Inv k d
      → Starts trigger
      → Still k msleep
      → length moves ≡ fifo_size
      → let taught = run k d (request now teach ∷ presses ps) in
        let done = run k taught (trigger ∷ work msleep (some moves) ∷ []) in
        ((id : ℕ) → get_angle done.servo id ≡ get_angle taught.servo id)
        × (k.kfifo.entries done.buffer.move_fifo ≡ k.kfifo.entries taught.buffer.move_fifo)
        × (done.state.mode ≡ idle)
  unfolding robot_of
  replay_repeats d now ps trigger msleep moves h st still size =
      let taught = run k d (request now teach ∷ presses ps) in
      let done = run k taught (trigger ∷ work msleep (some moves) ∷ []) in
      let told_so =
        run-Refines k (request now teach ∷ presses ps) d (tt, presses-AllQuiet ps) h.servos in
      let played =
        run-Refines k (trigger ∷ work msleep (some moves) ∷ []) taught
          (trigger-Quiet trigger st, ((still, size), tt))
          (run-Inv k d (request now teach ∷ presses ps) (tt, presses-AllCalm ps) h).servos in
      let ready = subst Taught (sym told_so) (teaching-Taught ps now (robot_of k d)) in
      let (arms, recording, mode) =
        replayed_robot (robot_of k taught) trigger msleep (some moves) ready st in
      let same_arms = ap (λ (r : Robot). r.arms) played ∙ arms in
      (
        λ id.
            sym (angle_of-arms_of done.servo id)
            ∙ ap (λ a. angle_of a id) same_arms
            ∙ angle_of-arms_of taught.servo id,
        ap (λ (r : Robot). r.recording) played ∙ recording,
        ap (λ (r : Robot). r.mode) played ∙ mode,
      )
