-- ===== src/Proc/Create.antt =====
-- `echo_proc_create` and `echo_proc_destroy` of module/echo_proc.c.
use team9osdriver.Prelude.{Bool, true, false, not, refl, err, if◌then◌else◌}
use team9osdriver.Types.{enomem}
use team9osdriver.Resources.{
  Held, proc_mem, proc_entry, acquire, release, release-acquire, Created, created, failed, Balanced,
}

-- whether there is memory, and an entry
pub record ProcEnv : Type 0 where
  pub memory : Bool
  pub entry_made : Bool

unfoldable pub proc_create : ProcEnv → Held → Created (Unit {0}) × Held
proc_create env h =
    let h1 = acquire proc_mem h in
    if not env.memory
    then (failed (err enomem), h)
    else if not env.entry_made
    then (failed (err enomem), release proc_mem h1)
    else (created tt, acquire proc_entry h1)

unfoldable pub proc_destroy : Unit {0} → Held → Held
proc_destroy c h = release proc_mem (release proc_entry h)

proc_create_cases :
    (m e : Bool) (h : Held)
    → Balanced proc_destroy h (proc_create (record { memory = m; entry_made = e }) h)
unfolding proc_create proc_destroy
proc_create_cases false e h = refl
proc_create_cases true false h = release-acquire proc_mem h
proc_create_cases true true h = rw (release-acquire proc_entry _) (release-acquire proc_mem h)

pub proc_create-Balanced : (env : ProcEnv) (h : Held) → Balanced proc_destroy h (proc_create env h)
proc_create-Balanced env h = proc_create_cases env.memory env.entry_made h
