-- ===== src/Chardev/Create.antt =====
-- `echo_chardev_create` and `echo_chardev_destroy` of module/echo_chardev.c.
use team9osdriver.Prelude.{
  ◌≡◌, Bool, true, false, refl, Bool-cases, inl, inr, not, ℤ, err, is_neg, Option, none, some,
  if◌then◌else◌,
}
use team9osdriver.Types.{enomem}
use team9osdriver.Resources.{
  Held, chardev_mem, chrdev_region, cdev, dev_class, device_node, acquire, release, release-acquire,
  Balanced, Created, created, failed,
}

-- What the kernel answers: whether there is memory, the results of `alloc_chrdev_region` and
-- `cdev_add`, and the errors of the class and the device, if they have one.
pub record ChardevEnv : Type 0 where
  pub memory : Bool
  pub region : ℤ
  pub add : ℤ
  pub class_error : Option ℤ
  pub device_error : Option ℤ

-- `fail_alloc`, `fail_cdev`, `fail_class` and `fail_device`: each label falls through to the one
-- below.
abbrev fail_alloc : Held → Held
fail_alloc h = release chardev_mem h

abbrev fail_cdev : Held → Held
fail_cdev h = fail_alloc (release chrdev_region h)

abbrev fail_class : Held → Held
fail_class h = fail_cdev (release cdev h)

abbrev fail_device : Held → Held
fail_device h = fail_class (release dev_class h)

-- device_create, the last step
abbrev make_device : Option ℤ → Held → Created (Unit {0}) × Held
make_device (some ret) h = (failed ret, fail_device h)
make_device none h = (created tt, acquire device_node h)

-- class_create and what follows it
abbrev make_class : Option ℤ → Option ℤ → Held → Created (Unit {0}) × Held
make_class (some ret) device_error h = (failed ret, fail_class h)
make_class none device_error h = make_device device_error (acquire dev_class h)

unfoldable pub chardev_create : ChardevEnv → Held → Created (Unit {0}) × Held
chardev_create env h =
    let h1 = acquire chardev_mem h in
    let h2 = acquire chrdev_region h1 in
    if not env.memory
    then (failed (err enomem), h)
    else if is_neg env.region
    then (failed env.region, fail_alloc h1)
    else if is_neg env.add
    then (failed env.add, fail_cdev h2)
    else make_class env.class_error env.device_error (acquire cdev h2)

-- A context that create returns has its device and its class, so the tests of the two pointers
-- pass.
unfoldable pub chardev_destroy : Unit {0} → Held → Held
chardev_destroy c h =
    release chardev_mem
      (release chrdev_region (release cdev (release dev_class (release device_node h))))

abbrev three : Held → Held
three h = acquire cdev (acquire chrdev_region (acquire chardev_mem h))

-- Behind the first three steps they are undone in reverse.
undo_three : (h : Held) → fail_class (three h) ≡ h
undo_three h =
    rw (release-acquire cdev _, release-acquire chrdev_region _) (release-acquire chardev_mem h)

make_class-Balanced :
    (c d : Option ℤ) (h : Held) → Balanced chardev_destroy h (make_class c d (three h))
unfolding chardev_destroy
make_class-Balanced (some ret) d h = undo_three h
make_class-Balanced none (some ret) h = rw (release-acquire dev_class _) (undo_three h)
make_class-Balanced none none h =
    rw (release-acquire device_node _, release-acquire dev_class _) (undo_three h)

chardev_create_cases :
    (m : Bool) (region add : ℤ) (c d : Option ℤ) (h : Held)
    → Balanced chardev_destroy h (
        chardev_create
          (record { memory = m; region = region; add = add; class_error = c; device_error = d })
          h)
unfolding chardev_create
chardev_create_cases false region add c d h = refl
chardev_create_cases true region add c d h = elim (Bool-cases (is_neg region)) [
  | inl bad ↦ rw bad (release-acquire chardev_mem h)
  | inr good ↦ rw good (elim (Bool-cases (is_neg add)) [
    | inl bad ↦ rw bad (rw (release-acquire chrdev_region _) (release-acquire chardev_mem h))
    | inr fine ↦ rw fine (make_class-Balanced c d h)
  ])
]

-- Whatever the kernel answers, `echo_chardev_create` leaves nothing behind: behind each label of
-- its error path it has given back all that it took, each once, and destroying what it returns
-- gives back the rest.
pub chardev_create-Balanced :
    (env : ChardevEnv) (h : Held) → Balanced chardev_destroy h (chardev_create env h)
chardev_create-Balanced env h =
    chardev_create_cases env.memory env.region env.add env.class_error env.device_error h
