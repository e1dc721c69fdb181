-- ===== src/Buffer/Create.antt =====
-- `echo_buffer_create` and `echo_buffer_destroy` of module/echo_buffer.c.
use team9osdriver.Prelude.{Bool, true, false, not, refl, err, if◌then◌else◌}
use team9osdriver.Types.{enomem}
use team9osdriver.Kernel.{Kfifo}
use team9osdriver.Buffer.{Buffer}
use team9osdriver.Resources.{
  Held, buffer_mem, workqueue, acquire, release, release-acquire, Created, created, failed,
  Balanced,
}

-- whether there is memory, and a workqueue
pub record BufferEnv : Type 0 where
  pub memory : Bool
  pub workqueue_made : Bool

module _ (q : Kfifo) where
  -- `zeroed` is the kfifo in cleared memory, which INIT_KFIFO makes empty.
  unfoldable pub buffer_new : q.Fifo → Buffer q.Fifo
  buffer_new zeroed = record {
    move_fifo = q.kfifo_reset zeroed;
    work_pending = false;
    replay_speed = 1;
    replay_count = 0;
  }

  unfoldable pub buffer_create : BufferEnv → q.Fifo → Held → Created (Buffer q.Fifo) × Held
  unfolding buffer_new
  buffer_create env zeroed h =
      let h1 = acquire buffer_mem h in
      if not env.memory
      then (failed (err enomem), h)
      else if not env.workqueue_made
      then (failed (err enomem), release buffer_mem h1)
      else (created (buffer_new zeroed), acquire workqueue h1)

  -- It takes the replay work off the queue and waits for a running worker before it frees anything.
  unfoldable pub buffer_destroy : Buffer q.Fifo → Held → Held
  buffer_destroy b h = release buffer_mem (release workqueue h)

  buffer_create_cases :
      (m w : Bool) (zeroed : q.Fifo) (h : Held)
      → Balanced buffer_destroy h
          (buffer_create (record { memory = m; workqueue_made = w }) zeroed h)
  unfolding buffer_create buffer_destroy
  buffer_create_cases false w zeroed h = refl
  buffer_create_cases true false zeroed h = release-acquire buffer_mem h
  buffer_create_cases true true zeroed h =
      rw (release-acquire workqueue _) (release-acquire buffer_mem h)

  pub buffer_create-Balanced :
      (env : BufferEnv) (zeroed : q.Fifo) (h : Held)
      → Balanced buffer_destroy h (buffer_create env zeroed h)
  buffer_create-Balanced env zeroed h = buffer_create_cases env.memory env.workqueue_made zeroed h
