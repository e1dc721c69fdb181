-- ===== src/Joystick/Create.antt =====
-- `echo_joystick_create` and `echo_joystick_destroy` of module/echo_joystick.c.
use team9osdriver.Prelude.{
  ap, arith, inl, inr, ◌⊎◌, ◌∙◌, ℕ, zero, suc, ◌+◌, ◌≡◌, Bool, true, false, not, refl, ℤ, err,
  is_neg, is_zero, if◌then◌else◌, replicate, Option, none, some,
}
use team9osdriver.Types.{enomem, num_gpio}
use team9osdriver.Joystick.{Joystick}
use team9osdriver.Resources.{
  Held, joystick_mem, gpio, irq, acquire, release, release-acquire, Created, created, failed,
  Balanced,
}

-- What the kernel answers for a pin, an error being negative: to `gpio_request`,
-- `gpio_direction_input`, `gpio_to_irq` and `request_threaded_irq`. A pin and its interrupt are
-- named by the index of the pin.
pub record PinEnv : Type 0 where
  pub request : ℤ
  pub direction : ℤ
  pub to_irq : ℤ
  pub request_irq : ℤ

-- One round of the loop over the pins: the error, if there is one, and what is held.
unfoldable claim_pin : PinEnv → ℕ → Held → Option ℤ × Held
claim_pin p i h =
    let h1 = acquire (gpio i) h in
    if not (is_zero p.request)
    then (some p.request, h)
    else if not (is_zero p.direction)
    then (some p.direction, release (gpio i) h1)
    else if is_neg p.to_irq
    then (some p.to_irq, release (gpio i) h1)
    else if not (is_zero p.request_irq)
    then (some p.request_irq, release (gpio i) h1)
    else (none, acquire (irq i) h1)

-- The pins below `i`, from the last one down: `err_gpio`, and the loop of destroy.
unfoldable free_pins : ℕ → Held → Held
free_pins zero h = h
free_pins (suc i) h = free_pins i (release (gpio i) (release (irq i) h))

-- The loop from pin `i` on, `n` rounds left, with what follows an error behind `err_gpio`.
unfoldable claim_pins : (ℕ → PinEnv) → ℕ → ℕ → Held → Option ℤ × Held
unfolding claim_pin free_pins
claim_pins pins zero i h = (none, h)
claim_pins pins (suc n) i h =
    let (error, h') = claim_pin (pins i) i h in
    elim error [
      | some ret ↦ (some ret, release joystick_mem (free_pins i h'))
      | none ↦ claim_pins pins n (suc i) h'
    ]

unfoldable pub joystick_new : Joystick
joystick_new = record { last_irq_jiffies = replicate num_gpio 0; irq_locked = false; irq_count = 0 }

unfoldable pub joystick_create : Bool → (ℕ → PinEnv) → Bool → Held → Created Joystick × Held
unfolding claim_pins joystick_new
joystick_create memory pins sim_mode h =
    let h1 = acquire joystick_mem h in
    let (error, h2) = claim_pins pins num_gpio 0 h1 in
    if not memory
    then (failed (err enomem), h)
    else if sim_mode
    then (created joystick_new, h1)
    else elim error [ some ret ↦ (failed ret, h2) | none ↦ (created joystick_new, h2) ]

-- The mode is the one that the context was created in.
unfoldable pub joystick_destroy : Bool → Joystick → Held → Held
unfolding free_pins
joystick_destroy sim_mode j h = release joystick_mem (if sim_mode then h else free_pins num_gpio h)

-- A pin that is claimed is freed by the unwinding, and one that fails has nothing left to free.
claim_pin_lem :
    (p : PinEnv) (i : ℕ) (h : Held)
    → ((ret : ℤ) → (claim_pin p i h).0 ≡ some ret → (claim_pin p i h).1 ≡ h)
      × ((claim_pin p i h).0 ≡ none → release (gpio i) (release (irq i) (claim_pin p i h).1) ≡ h)
unfolding claim_pin
claim_pin_lem p i h = (
  λ ret e. ground (arith, release-acquire (gpio i) h),
  λ e. ground (arith, release-acquire (irq i) (acquire (gpio i) h), release-acquire (gpio i) h),
)

-- How far the loop has come: freeing the pins below `i` gives back what was held before it.
free_pins-suc :
    (i : ℕ) (h h0 : Held)
    → release (gpio i) (release (irq i) h) ≡ h0
    → free_pins (suc i) h ≡ free_pins i h0
unfolding free_pins
free_pins-suc i h h0 e = rw e refl

Option-cases : {A : Type 0} → (o : Option A) → (o ≡ none) ⊎ ((x : A) × (o ≡ some x))
Option-cases none = inl refl
Option-cases (some x) = inr (x, refl)

claim_pins_lem :
    (pins : ℕ → PinEnv) (n i : ℕ) (h h0 : Held)
    → free_pins i h ≡ acquire joystick_mem h0
    → ((ret : ℤ) → (claim_pins pins n i h).0 ≡ some ret → (claim_pins pins n i h).1 ≡ h0)
      × ((claim_pins pins n i h).0 ≡ none
          → free_pins (i + n) (claim_pins pins n i h).1 ≡ acquire joystick_mem h0)
unfolding claim_pins
claim_pins_lem pins zero i h h0 e =
    let same : i + 0 ≡ i = omega arith in (λ ret no. ground arith, λ _. rw same e)
claim_pins_lem pins (suc n) i h h0 e =
    let next : i + suc n ≡ suc i + n = omega arith in
    elim (Option-cases (claim_pin (pins i) i h).0) [
      | inl fine ↦
          rw (fine, claim_pins, next)
            (claim_pins_lem pins n (suc i) (claim_pin (pins i) i h).1 h0 (
              free_pins-suc i (claim_pin (pins i) i h).1 h ((claim_pin_lem (pins i) i h).1 fine)
              ∙ e))
      | inr (ret, bad) ↦
          rw (bad, claim_pins)
            (
              λ _ _.
                  rw ((claim_pin_lem (pins i) i h).0 ret bad, e) (release-acquire joystick_mem h0),
              λ no. ground arith,
            )
    ]

-- Whatever the kernel answers, and whichever pin fails, `echo_joystick_create` leaves nothing behind:
-- where it fails it has given back all that it took, each once, and destroying what it returns, in the
-- same mode, gives back the rest.
pub joystick_create-Balanced :
    (memory : Bool) (pins : ℕ → PinEnv) (sim_mode : Bool) (h : Held)
    → Balanced (joystick_destroy sim_mode) h (joystick_create memory pins sim_mode h)
unfolding joystick_create joystick_destroy
joystick_create-Balanced false pins sim_mode h = refl
joystick_create-Balanced true pins true h = release-acquire joystick_mem h
joystick_create-Balanced true pins false h =
    let lem = claim_pins_lem pins num_gpio 0 (acquire joystick_mem h) h refl in
    elim (Option-cases (claim_pins pins num_gpio 0 (acquire joystick_mem h)).0) [
      | inl fine ↦ rw fine (ap (release joystick_mem) (lem.1 fine) ∙ release-acquire joystick_mem h)
      | inr (ret, bad) ↦ rw bad (lem.0 ret bad)
    ]
