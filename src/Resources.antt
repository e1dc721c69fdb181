-- ===== src/Resources.antt =====
-- What the create and destroy functions take from the kernel and give back. The kernel's side is its
-- documented behaviour: a call that succeeds hands out what its counterpart takes back, once.
use team9osdriver.Prelude.{
  subst, ℕ, ◌+◌, ◌*◌, ◌≡◌, refl, true, false, Option, none, some, List, [], ◌∷◌, ℤ, arith, ◌==◌,
}

pub data Resource : Type 0 where
  device_mem servo_mem buffer_mem state_mem joystick_mem chardev_mem proc_mem : Resource
  i2c_adapter i2c_client workqueue chrdev_region cdev dev_class device_node proc_entry : Resource
  gpio irq : ℕ → Resource

abbrev code : Resource → ℕ
code device_mem = 0
code servo_mem = 1
code buffer_mem = 2
code state_mem = 3
code joystick_mem = 4
code chardev_mem = 5
code proc_mem = 6
code i2c_adapter = 7
code i2c_client = 8
code workqueue = 9
code chrdev_region = 10
code cdev = 11
code dev_class = 12
code device_node = 13
code proc_entry = 14
code (gpio n) = 15 + 2 * n
code (irq n) = 16 + 2 * n

-- What is held, the newest first; `none` once something is given back that is not held.
abbrev pub Held : Type 0
Held = Option (List Resource)

without : Resource → List Resource → Held
without r [] = none
without r (x ∷ h) =
    let rest = without r h in
    elim (code x == code r) [
      | true ↦ some h
      | false ↦ elim rest [ none ↦ none | some h' ↦ some (x ∷ h') ]
    ]

abbrev pub acquire : Resource → Held → Held
acquire r none = none
acquire r (some h) = some (r ∷ h)

unfoldable pub release : Resource → Held → Held
unfolding without
release r none = none
release r (some h) = without r h

-- What was taken last is there to give back.
pub release-acquire : (r : Resource) (h : Held) → release r (acquire r h) ≡ h
unfolding release
release-acquire r none = refl
release-acquire r (some h) = ground arith

-- What a create function returns: a context, or an error.
pub data Created (A : Type 0) : Type 0 where
  created : A → Created A
  failed : ℤ → Created A

-- Nothing is left behind: a failed create has given back all that it took, and destroying what a
-- successful one made gives back the rest.
abbrev pub Balanced : {A : Type 0} → (A → Held → Held) → Held → Created A × Held → Type 0
Balanced destroy h (created a, h') = destroy a h' ≡ h
Balanced destroy h (failed e, h') = h' ≡ h

-- What holds of the context that is made, if one is.
abbrev pub Made : {A : Type 0} → (A → Type 0) → Created A × Held → Type 0
Made P (created a, h) = P a
Made P (failed e, h) = Unit {0}

pub Made-created :
    {A : Type 0}
    → (P : A → Type 0) (r : Created A × Held) (a : A) (h : Held) → r ≡ (created a, h)
    → Made P r
    → P a
Made-created P r a h e m = subst (Made P) e m
