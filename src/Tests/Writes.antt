-- ===== src/Tests/Writes.antt =====
-- Writers of REPLAY that sleep, at concrete orders of the sections.
use team9osdriver.Prelude.{ℕ, arith, some, ◌≤◌, ◌+◌, ◌*◌, ◌⊎◌, ◌≡◌, refl, true, false, ◌≢◌, err}
use team9osdriver.Types.{replay, ebusy, erestartsys}
use team9osdriver.Buffer.{buffer_start_replay}
use team9osdriver.Device.{notify_readers, state_op_start_replay}
use team9osdriver.Threads.{advance, worker_rests, ended}
use team9osdriver.Threads.System.{entry, entry_but_stop, none_new, worker_begins, thread_step}
use team9osdriver.Threads.Waiting.{
  Writers, no_write, waits_replay, at_rest, write_begins, section, Turns, write, go, begin,
  none_yet, further,
}
use team9osdriver.Threads.Rest.{AtRest}
use team9osdriver.Threads.Waiting.Budget.{BusyBelow, turns_in}
use team9osdriver.Threads.Waiting.Ending.{CanGoOn, every_write_ends}
use team9osdriver.Chardev.{write_replay}
use team9osdriver.Threads.Waiting.Single.{write_alone_lem}
use team9osdriver.Threads.Waiting.Early.{woken_early, write_returns_early}
use team9osdriver.Tests.Fixture.{test_kernel, resting, dirty}

-- thread 1 has written REPLAY and sleeps
abbrev asleep : Writers test_kernel
asleep = section test_kernel 1 (
    section test_kernel 1 (
      section test_kernel 1
        (section test_kernel 1 (write_begins test_kernel 1 (at_rest test_kernel resting)))))

asleep_reached : Turns test_kernel entry_but_stop true (at_rest test_kernel resting) asleep
unfolding section thread_step advance write_begins
asleep_reached =
    further
      (further
        (further (further (further none_yet (write 1 refl refl refl)) (go 1 refl)) (go 1 refl))
        (go 1 refl))
      (go 1 refl)

asleep_below : BusyBelow test_kernel 2 asleep
unfolding section thread_step advance write_begins
asleep_below = record { calls = λ i h. ground (arith, h); writes = λ i h. ground (arith, h) }

-- The worker begins to play what the writer waits for.
abbrev played_for : Writers test_kernel
played_for = record asleep { sys = worker_begins test_kernel (some dirty) asleep.sys }

one_more : Turns test_kernel none_new false asleep played_for
unfolding section thread_step advance write_begins notify_readers state_op_start_replay
    buffer_start_replay
one_more = further none_yet (begin (some dirty) refl refl refl)

every_write_ends_example :
    (turns_in test_kernel one_more ≤ 41251 * 2 + 8246)
    × (CanGoOn test_kernel played_for
        ⊎ (AtRest test_kernel played_for.sys × ((i : ℕ) → played_for.writes i ≢ waits_replay)))
every_write_ends_example =
    every_write_ends test_kernel resting 2 (λ e. cc e) asleep_reached asleep_below one_more

write_returns_early_example :
    let w = woken_early test_kernel resting in
    Turns test_kernel entry true (at_rest test_kernel resting) w
    × (w.writes 1 ≡ waits_replay)
    × (w.sys.dev.replay_finished ≡ true)
    × (w.sys.dev.state.mode ≡ replay)
    × (w.sys.dev.buffer.work_pending ≡ true)
    × (w.sys.worker ≡ worker_rests)
    × (w.sys.dev.buffer.replay_count ≡ resting.buffer.replay_count)
write_returns_early_example = write_returns_early test_kernel resting

write_alone_lem_example :
    let one = section test_kernel 1 (write_begins test_kernel 1 (at_rest test_kernel resting)) in
    let four = section test_kernel 1 (section test_kernel 1 (section test_kernel 1 one)) in
    (resting.state.mode ≡ replay
      → (one.writes 1 ≡ no_write)
        × (one.sys.threads 1 ≡ ended)
        × (write_replay test_kernel (λ d. (true, d)) 16 resting ≡ (err ebusy, one.sys.dev)))
    × (resting.state.mode ≢ replay
        → (four.writes 1 ≡ waits_replay)
          × (four.sys.threads 1 ≡ ended)
          × (write_replay test_kernel (λ d. (true, d)) 16 resting
              ≡ (err erestartsys, four.sys.dev)))
write_alone_lem_example =
    write_alone_lem test_kernel (λ d. (true, d)) 16 1 (at_rest test_kernel resting)
