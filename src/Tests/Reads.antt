-- ===== src/Tests/Reads.antt =====
-- Readers among other threads, at concrete orders of the sections.
use team9osdriver.Prelude.{ℕ, ◌≡◌, refl, arith, true, false, min}
use team9osdriver.Types.{idle, servo_tilt, servo_max}
use team9osdriver.Servo.{get_angle, set_angle}
use team9osdriver.Device.{Kernel, Dev, op_move_servo, notify_readers}
use team9osdriver.Chardev.{Snapshot, build_snapshot}
use team9osdriver.Threads.{advance, direct_move, ended, timer_rests, worker_rests}
use team9osdriver.Threads.System.{none_new, update, thread_step, call, go, entry}
use team9osdriver.Threads.News.{
  no_reads, read_done, Reading, wait_over, read_field, Reads, none_yet, further, other,
}
use team9osdriver.Threads.News.Current.{last_read_is_current}
use team9osdriver.Threads.News.Catching.{Reads-trans, reader_catches_up}
use team9osdriver.Threads.News.Single.{read_fields, whole_read}
use team9osdriver.Threads.News.Stolen.{read_by_both, news_is_stolen}
use team9osdriver.Threads.News.Silent.{moved_behind, refused_move_is_silent}
use team9osdriver.Tests.Fixture.{test_kernel, dead_bus, powered_servo, resting, teaching}

abbrev old_snaps : ℕ → Snapshot
old_snaps i = build_snapshot test_kernel resting

abbrev first : Reading test_kernel
first = no_reads test_kernel resting old_snaps

-- thread 0 moves tilt, to its last statement
abbrev moving : Reading test_kernel
moving = record first {
  sys =
      thread_step test_kernel 0
        (record (first.sys) { threads = update first.sys.threads 0 (direct_move servo_tilt 30) });
}

moving_reached : Reads test_kernel entry first moving
moving_reached =
    further (further none_yet (other (call 0 (direct_move servo_tilt 30) refl refl)))
      (other (go 0 refl))

abbrev moved : Reading test_kernel
moved = record moving { sys = thread_step test_kernel 0 moving.sys }

moved_reached : Reads test_kernel entry first moved
unfolding thread_step advance op_move_servo set_angle
moved_reached = further moving_reached (other (go 0 refl))

-- reader 2 reads what has changed
abbrev read_once : Reading test_kernel
read_once = read_fields test_kernel 2 (wait_over test_kernel 2 moved)

read_reached : Reads test_kernel entry first read_once
unfolding thread_step advance op_move_servo set_angle wait_over read_field notify_readers
read_reached = Reads-trans test_kernel moved_reached (whole_read test_kernel 2 moved refl refl).0

last_read_is_current_example : read_once.snaps 2 ≡ build_snapshot test_kernel read_once.sys.dev
unfolding thread_step advance op_move_servo set_angle wait_over read_field notify_readers
last_read_is_current_example =
    last_read_is_current test_kernel resting old_snaps (λ c r. refl) read_reached refl refl refl
      refl (λ i. ground arith)

-- behind that read thread 1 moves tilt again
abbrev behind : Reading test_kernel
behind = record read_once {
  sys = thread_step test_kernel 1 (record (read_once.sys) {
    threads = update read_once.sys.threads 1 (direct_move servo_tilt 60);
  });
}

behind_reached : Reads test_kernel entry first behind
unfolding thread_step advance op_move_servo set_angle wait_over read_field
behind_reached =
    further (further read_reached (other (call 1 (direct_move servo_tilt 60) refl refl)))
      (other (go 1 refl))

reader_catches_up_example :
    (v : Reading test_kernel) × Reads test_kernel none_new behind v
    × (v.readers 2 ≡ read_done)
    × (v.snaps 2 ≡ build_snapshot test_kernel v.sys.dev)
unfolding thread_step advance op_move_servo set_angle wait_over read_field
reader_catches_up_example =
    reader_catches_up test_kernel resting old_snaps (λ c r. refl) behind_reached refl

abbrev deaf_kernel : Kernel
deaf_kernel = record test_kernel { i2c = dead_bus }

abbrev powered : Dev deaf_kernel
powered = record resting { servo = powered_servo; new_data_avail = true }

refused_move_is_silent_example :
    let w = moved_behind deaf_kernel powered old_snaps 30 in
    Reads deaf_kernel entry (no_reads deaf_kernel powered old_snaps) w
    × (w.readers 0 ≡ read_done)
    × (w.sys.dev.new_data_avail ≡ false)
    × (w.sys.timer ≡ timer_rests)
    × (w.sys.worker ≡ worker_rests)
    × ((i : ℕ) → w.sys.threads i ≡ ended)
    × ((w.snaps 0).tilt_angle ≡ get_angle powered.servo servo_tilt)
    × ((build_snapshot deaf_kernel w.sys.dev).tilt_angle ≡ min 30 servo_max)
refused_move_is_silent_example =
    refused_move_is_silent deaf_kernel powered old_snaps 30 (λ c r. refl)
      (record { size = refl; in_range = omega arith }) refl refl

abbrev told : Dev test_kernel
told = record teaching { new_data_avail = true }

news_is_stolen_example :
    let w = read_by_both test_kernel told old_snaps in
    Reads test_kernel entry (no_reads test_kernel told old_snaps) w
    × (w.readers 0 ≡ read_done)
    × (w.readers 1 ≡ read_done)
    × (w.sys.dev.new_data_avail ≡ false)
    × (w.sys.timer ≡ timer_rests)
    × (w.sys.worker ≡ worker_rests)
    × ((i : ℕ) → w.sys.threads i ≡ ended)
    × (w.sys.dev.state.mode ≡ idle)
    × ((w.snaps 1).mode ≡ 1)
news_is_stolen_example = news_is_stolen test_kernel told old_snaps refl
