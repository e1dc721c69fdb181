-- ===== src/Threads/Calls.antt =====
-- Each call of the driver can end.
use team9osdriver.Prelude.{ℕ, zero, suc, ◌≤◌, ◌<◌, ◌≡◌, refl, ap, ◌∙◌, arith, true}
use native.Mathlib.Decide.{dec_lt}
use team9osdriver.Device.{Kernel, Dev}
use team9osdriver.Threads.{
  Pc, ended, input_lock, input_get, input_move, input_time, input_record, input_count, input_timer,
  start_lock, start_timer, start_queue, stop_lock, stop_timer, stop_cancel, stop_signal, teach_lock,
  teach_time, teach_clear, teach_count, teach_timer, direct_move, reset_lock, reset_timer,
  reset_cancel, reset_signal, reset_notify, reset_clear, reset_pan, reset_tilt, reset_tilt2,
  notifying, advance, TimerPc, WorkerPc,
}
use team9osdriver.Threads.System.{
  System, Step, update, none_new, can_go, timer_at_rest, worker_at_rest, go, Steps, stay, more,
  Steps-trans, thread_step,
}
use team9osdriver.Threads.Progress.{worker_runs, timer_runs}

-- the sections that are left of a call
unfoldable pub left : Pc → ℕ
left ended = 0
left (input_lock _ _ _) = 8
left (input_get _ _ _) = 7
left (input_move _ _ _) = 6
left (input_time _ _ _) = 5
left (input_record _ _) = 4
left (input_count _) = 3
left (input_timer _) = 2
left start_lock = 4
left start_timer = 3
left start_queue = 2
left stop_lock = 5
left stop_timer = 4
left stop_cancel = 3
left stop_signal = 2
left (teach_lock _) = 6
left (teach_time _) = 5
left (teach_clear _) = 4
left (teach_count _) = 3
left (teach_timer _) = 2
left (direct_move _ _) = 2
left reset_lock = 10
left reset_timer = 9
left reset_cancel = 8
left reset_signal = 7
left reset_notify = 6
left reset_clear = 5
left reset_pan = 4
left reset_tilt = 3
left reset_tilt2 = 2
left notifying = 1

pub left_zero : (p : Pc) → left p ≤ 0 → p ≡ ended
unfolding left
left_zero ended h = refl
left_zero p h = absurd (omega arith)

pub go_at_rest :
    (p : Pc) (t : TimerPc) (w : WorkerPc)
    → 0 < left p
    → timer_at_rest t ≡ true
    → worker_at_rest w ≡ true
    → can_go p t w ≡ true
unfolding left
go_at_rest p t w h r q = ground arith

pub update_self {ℓ} : {A : Type ℓ} (f : ℕ → A) (i : ℕ) (p : A) → update f i p i ≡ p
update_self f i p = ground arith

module _ (k : Kernel) where
  pub advance-falls : (p : Pc) (d : Dev k) → 0 < left p → left (advance k p d).0 < left p
  unfolding left advance
  advance-falls p d h = ground arith

  -- The timer's function and the worker are at rest, and nothing else has moved.
  pub record Quiet (s : System k) : Type 0 where
    pub last : System k
    pub steps : Steps k none_new s last
    pub timer : timer_at_rest last.timer ≡ true
    pub worker : worker_at_rest last.worker ≡ true
    pub threads : last.threads ≡ s.threads

  pub quiet : (s : System k) → Quiet s
  quiet s =
      let a = timer_runs k none_new s in
      let b = worker_runs k none_new a.last in
      record {
        last = b.last;
        steps = Steps-trans k a.steps b.steps;
        timer = ap timer_at_rest b.timer ∙ a.rests;
        worker = b.rests;
        threads = b.threads ∙ a.threads;
      }

  pub step_left :
      (s : System k) (i : ℕ)
      → 0 < left (s.threads i)
      → left ((thread_step k i s).threads i) < left (s.threads i)
  unfolding thread_step
  step_left s i h =
      rw (update_self s.threads i (advance k (s.threads i) s.dev).0)
        (advance-falls (s.threads i) s.dev h)

  ends :
      (i n : ℕ) (s : System k)
      → left (s.threads i) ≤ n
      → (t : System k) × Steps k none_new s t × (t.threads i ≡ ended)
  ends i zero s h = (s, stay, left_zero (s.threads i) h)
  ends i (suc n) s h = elim (dec_lt 0 (left (s.threads i))) [
    | no done ↦ (s, stay, left_zero (s.threads i) (omega arith))
    | yes l ↦
        let q = quiet s in
        let same : q.last.threads i ≡ s.threads i = ap (λ (f : ℕ → Pc). f i) q.threads in
        let l' : 0 < left (q.last.threads i) = rw same l in
        let now : Step k none_new q.last (thread_step k i q.last) =
          go i (go_at_rest (q.last.threads i) q.last.timer q.last.worker l' q.timer q.worker) in
        let (t, rest, done) =
          ends i n (thread_step k i q.last) (omega (arith, step_left q.last i l', ap left same)) in
        (t, Steps-trans k (more q.steps now) rest, done)
  ]

  -- From any state of all the threads there is an order of sections, with no new call in it, that ends
  -- the call of thread `i`: no wait for the timer's function or for the worker is for ever.
  call_can_end :
      (s : System k) (i : ℕ) → (t : System k) × Steps k none_new s t × (t.threads i ≡ ended)
  call_can_end s i = ends i (left (s.threads i)) s (omega arith)
