-- ===== src/Tests/Unloads.antt =====
-- The driver unloaded at rest and in a replay.
use team9osdriver.Prelude.{ℕ, ◌≡◌, refl, true, false, some}
use team9osdriver.Threads.{worker_starts, worker_completes}
use team9osdriver.Threads.System.{System, at_start}
use team9osdriver.Init.Unload.{
  Unload, Exits, here, next, leave, exit_begins, state_part, is_freed, timer_uses, worker_uses,
  thread_uses, exit_advance,
}
use team9osdriver.Init.Unload.Order.{freed_uses}
use team9osdriver.Init.Unload.Fault.{exit_uses_freed}
use team9osdriver.Tests.Fixture.{test_kernel, replaying, dirty}

-- the worker has just begun
abbrev worker_begun : System test_kernel
worker_begun = record (at_start test_kernel replaying) { worker = worker_starts (some dirty) }

abbrev begun : Unload test_kernel
begun = record { sys = worker_begun; exit = exit_begins }

abbrev in_cancel : Unload test_kernel
in_cancel =
    let one = exit_advance test_kernel begun.exit begun.sys in
    let two = exit_advance test_kernel one.exit one.sys in
    let three = exit_advance test_kernel two.exit two.sys in
    exit_advance test_kernel three.exit three.sys

cancel_reached : Exits test_kernel begun in_cancel
unfolding exit_advance
cancel_reached =
    next (next (next (next here (leave tt)) (leave (λ i. refl))) (leave refl)) (leave tt)

freed_uses_example :
    ((i : ℕ) → thread_uses (in_cancel.sys.threads i) ≡ false)
    × (timer_uses in_cancel.sys.timer state_part ≡ false)
    × (worker_uses in_cancel.sys.worker state_part ≡ true → state_part ≡ state_part)
unfolding exit_advance
freed_uses_example = freed_uses test_kernel worker_begun state_part cancel_reached refl

exit_uses_freed_example :
    (v : Unload test_kernel) × Exits test_kernel begun v
    × (is_freed state_part v.exit ≡ true)
    × (v.sys.worker ≡ worker_completes)
    × (worker_uses v.sys.worker state_part ≡ true)
exit_uses_freed_example = exit_uses_freed test_kernel worker_begun (λ i. refl) refl
