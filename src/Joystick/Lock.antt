-- ===== src/Joystick/Lock.antt =====
-- What the missing braces of `joystick_thread_fn` in module/echo_joystick.c come to.
use team9osdriver.Prelude.{
  ℕ, suc, ◌+◌, ◌-◌, ◌^◌, ◌≤◌, ◌≡◌, refl, sym, ◌∙◌, ◌⊎◌, inl, inr, Bool, true, false, not, Option,
  none, some, List, [], ◌∷◌, arith, get_or, ltb, if◌then◌else◌,
}
use team9osdriver.Types.{debounce_ms}
use team9osdriver.Kernel.{Clock, ulong}
use team9osdriver.Device.{Device, joystick_ptr}
use team9osdriver.Joystick.{joystick_thread_fn}

module _ (clock : Clock) where
  -- The press comes behind the debounce time of its pin.
  abbrev is_late : List ℕ → ℕ → ℕ → Bool
  is_late last jiffies pin =
      not (ltb (ulong (jiffies + 2 ^ 64 - get_or last pin 0)) (clock.msecs_to_jiffies debounce_ms))

  -- how many presses come behind the debounce time
  unfoldable pub late_presses : List ℕ → List (ℕ × ℕ) → ℕ
  late_presses last [] = 0
  late_presses last ((jiffies, pin) ∷ ps) =
      let rest = late_presses last ps in if is_late last jiffies pin then suc rest else rest

  none_late : (last : List ℕ) (ps : List (ℕ × ℕ)) → ps ≡ [] → late_presses last ps ≡ 0
  unfolding late_presses
  none_late last [] e = refl
  none_late last (p ∷ ps) e = absurd (ground (arith, e))

module _ {F : Type 0} (clock : Clock) where
  -- Interrupts, one after the other: the jiffies and the pin of each. `none`: one of them spins.
  unfoldable pub presses : List (ℕ × ℕ) → Device F → Option (Device F)
  presses [] d = some d
  presses ((jiffies, pin) ∷ ps) d = elim (joystick_thread_fn clock joystick_ptr jiffies pin d) [
    | none ↦ none
    | some d' ↦ presses ps d'
  ]

  abbrev pub locked : Bool → Device F → Device F
  locked b d = record d { joystick = record (d.joystick) { irq_locked = b } }

  -- What one press leaves, if it does not spin.
  one_press :
      (jiffies pin : ℕ) (d : Device F)
      → (joystick_thread_fn clock joystick_ptr jiffies pin d ≡ none)
        ⊎ (((d.joystick.irq_locked ≡ false)
              × (is_late clock d.joystick.last_irq_jiffies jiffies pin ≡ false)
              × (joystick_thread_fn clock joystick_ptr jiffies pin d ≡ some d))
            ⊎ (joystick_thread_fn clock joystick_ptr jiffies pin d ≡ some (locked true d)))
  unfolding joystick_thread_fn
  one_press jiffies pin d = ground arith

  -- With the lock held no press returns.
  locked_presses :
      (ps : List (ℕ × ℕ)) (d d' : Device F)
      → d.joystick.irq_locked ≡ true
      → presses ps d ≡ some d'
      → (d' ≡ d) × (ps ≡ [])
  unfolding presses joystick_thread_fn
  locked_presses [] d d' l e = ground (arith, e)
  locked_presses ((jiffies, pin) ∷ ps) d d' l e = absurd (ground (arith, e, l))

  presses_on :
      (jiffies pin : ℕ) (ps : List (ℕ × ℕ)) (d d1 : Device F)
      → joystick_thread_fn clock joystick_ptr jiffies pin d ≡ some d1
      → presses ((jiffies, pin) ∷ ps) d ≡ presses ps d1
  unfolding presses joystick_thread_fn
  presses_on jiffies pin ps d d1 e = rw e refl

  -- Whatever interrupts of whatever pins come at whatever times, one after the other, if none of
  -- them spins: nothing of the device has changed but `irq_lock`, so no press has moved a servo,
  -- been recorded or counted, or had its time noted; and one of them at most came behind the
  -- debounce time of its pin, so of interrupts with two such presses one spins for ever on the
  -- lock.
  pub no_press_arrives :
      (ps : List (ℕ × ℕ)) (d d' : Device F)
      → presses ps d ≡ some d'
      → (d' ≡ locked d'.joystick.irq_locked d)
        × (late_presses clock d.joystick.last_irq_jiffies ps ≤ 1)
  unfolding presses late_presses
  no_press_arrives [] d d' e = ground (arith, e)
  no_press_arrives ((jiffies, pin) ∷ ps) d d' e = elim (one_press jiffies pin d) [
    | inl n ↦ absurd (ground (arith, e, n))
    | inr (inl (free, early, same)) ↦
        let (rest, few) = no_press_arrives ps d d' (sym (presses_on jiffies pin ps d d same) ∙ e) in
        ground (arith, rest, few, early)
    | inr (inr late) ↦
        let on = sym (presses_on jiffies pin ps d (locked true d) late) ∙ e in
        let (same, last) = locked_presses ps (locked true d) d' refl on in
        ground (arith, same, none_late clock d.joystick.last_irq_jiffies ps last)
  ]
