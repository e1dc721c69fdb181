-- ===== src/Servo/Angles.antt =====
-- The software side of module/echo_servo.c: which angles `set_angle` stores and `get_angle` reads.
use team9osdriver.Prelude.{
  ℕ, zero, suc, ◌≤◌, ◌<◌, ◌≡◌, ◌&&◌, List, [], ◌∷◌, arith, length, set, get_or, length-set,
  get_or-set_self, get_or-set_ne, min, leb, ◌==◌, if◌then◌else◌,
}
use team9osdriver.Types.{num_servos, servo_pan, servo_tilt2, servo_center, servo_max}
use team9osdriver.Servo.{I2c, Servo, set_angle, get_angle}

abbrev pub Below : ℕ → List ℕ → Type 0
Below m [] = Unit {0}
Below m (x ∷ xs) = (x ≤ m) × Below m xs

Below-set : (m i v : ℕ) (xs : List ℕ) → v ≤ m → Below m xs → Below m (set xs i v)
Below-set m i v [] h b = b
Below-set m zero v (x ∷ xs) h b = (h, b.1)
Below-set m (suc i) v (x ∷ xs) h b = (b.0, Below-set m i v xs h b.1)

get_or-Below : (m i d : ℕ) (xs : List ℕ) → d ≤ m → Below m xs → get_or xs i d ≤ m
get_or-Below m i d [] h b = h
get_or-Below m zero d (x ∷ xs) h b = b.0
get_or-Below m (suc i) d (x ∷ xs) h b = get_or-Below m i d xs h b.1

-- There is an angle for each servo, and each is at most 180.
pub record IsValid (s : Servo) : Type 0 where
  pub size : length s.angles ≡ num_servos
  pub in_range : Below servo_max s.angles

-- Below a servo that there is, `get_angle` reads the array.
pub get_angle_range : (s : Servo) (id : ℕ) → IsValid s → get_angle s id ≤ servo_max
unfolding get_angle
get_angle_range s id v =
    ground (arith, get_or-Below servo_max id servo_center s.angles (omega arith) v.in_range)

module _ (i2c : I2c) where
  -- the array that `set_angle` leaves
  stored : List ℕ → ℕ → ℕ → List ℕ
  stored xs id a =
      if leb num_servos id
      then xs
      else if id == servo_pan
      then set (set xs id a) servo_tilt2 a
      else set xs id a

  angles-set_angle :
      (s : Servo) (id angle : ℕ)
      → (set_angle i2c s id angle).1.angles ≡ stored s.angles id (min angle servo_max)
  unfolding set_angle stored
  angles-set_angle s id angle = ground arith

  stored-Below :
      (xs : List ℕ) (id a : ℕ)
      → a ≤ servo_max
      → Below servo_max xs
      → Below servo_max (stored xs id a)
  unfolding stored
  stored-Below xs id a h b = ground (
    arith,
    Below-set servo_max id a xs h b,
    Below-set servo_max servo_tilt2 a (set xs id a) h (Below-set servo_max id a xs h b),
  )

  get_or-stored :
      (xs : List ℕ) (id a j : ℕ)
      → length xs ≡ num_servos
      → j < num_servos
      → get_or (stored xs id a) j servo_center ≡ (
          if j == id
          then a
          else if j == servo_tilt2 && (id == servo_pan)
          then a
          else get_or xs j servo_center)
  unfolding stored
  get_or-stored xs id a j n h = ground (
    arith,
    length-set xs id a,
    get_or-set_self xs id a servo_center,
    get_or-set_ne xs id j a servo_center,
    get_or-set_self (set xs id a) servo_tilt2 a servo_center,
    get_or-set_ne (set xs id a) servo_tilt2 j a servo_center,
  )

  -- Whatever the bus answers and whatever servo and angle are asked for, the array keeps its three
  -- angles of at most 180.
  pub set_angle-IsValid :
      (s : Servo) (id angle : ℕ) → IsValid s → IsValid (set_angle i2c s id angle).1
  unfolding stored
  set_angle-IsValid s id angle v = record {
    size = ground (
      arith,
      angles-set_angle s id angle,
      length-set s.angles id (min angle servo_max),
      length-set (set s.angles id (min angle servo_max)) servo_tilt2 (min angle servo_max),
    );
    in_range =
        rw (angles-set_angle s id angle)
          (stored-Below s.angles id (min angle servo_max) (omega arith) v.in_range);
  }

  -- After `set_angle`, whatever the bus answered, `get_angle` reads the angle asked for, cut to
  -- 180, at that servo; the same at the second arm if the servo was the base; 90 for a servo that
  -- there is not; and the old angle everywhere else.
  pub get_angle-set_angle :
      (s : Servo) (id angle j : ℕ)
      → IsValid s
      → get_angle (set_angle i2c s id angle).1 j ≡ (
          if leb num_servos j
          then servo_center
          else if j == id
          then min angle servo_max
          else if j == servo_tilt2 && (id == servo_pan)
          then min angle servo_max
          else get_angle s j)
  unfolding get_angle stored
  get_angle-set_angle s id angle j v =
      ground (
        arith,
        angles-set_angle s id angle,
        get_or-stored s.angles id (min angle servo_max) j v.size,
      )
