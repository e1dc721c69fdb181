-- ===== src/State/Create.antt =====
-- `echo_state_create` and `echo_state_destroy` of module/echo_state.c.
use team9osdriver.Prelude.{ℕ, Bool, true, false, not, refl, err, if◌then◌else◌}
use team9osdriver.Types.{enomem}
use team9osdriver.State.{State, state_new}
use team9osdriver.Resources.{
  Held, state_mem, acquire, release, release-acquire, Created, created, failed, Balanced,
}

unfoldable pub state_create : Bool → ℕ → Held → Created State × Held
unfolding state_new
state_create memory timeout_ms h =
    if not memory
    then (failed (err enomem), h)
    else (created (state_new timeout_ms), acquire state_mem h)

-- It deletes the timer, and waits for its function, before it frees the context.
unfoldable pub state_destroy : State → Held → Held
state_destroy s h = release state_mem h

pub state_create-Balanced :
    (memory : Bool) (timeout_ms : ℕ) (h : Held)
    → Balanced state_destroy h (state_create memory timeout_ms h)
unfolding state_create state_destroy
state_create-Balanced false timeout_ms h = refl
state_create-Balanced true timeout_ms h = release-acquire state_mem h
