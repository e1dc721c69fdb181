-- ===== src/Chardev/Reading.antt =====
-- `echo_read` of module/echo_chardev.c.
use team9osdriver.Prelude.{
  if◌then◌else◌, refl, ℕ, ◌≤◌, ◌≡◌, Bool, true, false, [], arith, min, take, pos, err,
}
use team9osdriver.Types.{eagain}
use team9osdriver.Device.{Kernel, Dev}
use team9osdriver.Chardev.{Snapshot, build_snapshot, snapshot_bytes, snapshot_size, echo_read}

pub take_bytes :
    (pad : ℕ × ℕ) (s : Snapshot) → take snapshot_size (snapshot_bytes pad s) ≡ snapshot_bytes pad s
unfolding snapshot_bytes
take_bytes pad s = refl

module _ (k : Kernel) where
  -- A sleep in `wait_event_interruptible` that no signal ends leaves the condition true.
  abbrev pub Awaits : (Dev k → Bool) → (Dev k → Bool × Dev k) → Type 0
  Awaits cond sleep = (d : Dev k) → (sleep d).0 ≡ false → cond (sleep d).1 ≡ true

  snapshot_without_news :
      (d : Dev k) → build_snapshot k (record d { new_data_avail = false }) ≡ build_snapshot k d
  unfolding build_snapshot
  snapshot_without_news d = refl

  -- With no news, a read that may not block returns EAGAIN and changes nothing.
  read_nonblocking :
      (sleep : Dev k → Bool × Dev k) (pad : ℕ × ℕ) (copied : Bool) (count : ℕ) (d : Dev k)
      → d.new_data_avail ≡ false
      → echo_read k true sleep pad copied count d ≡ (err eagain, [], d)
  unfolding echo_read
  read_nonblocking sleep pad copied count d h = rw h

  -- Suppose that a sleep that no signal ends leaves news. If a read returns a number of bytes,
  -- then the device that it read from (the device as it was, if that had news, and else the device
  -- that the sleep left) had news; a read that may not block found the news there. The number is
  -- `count`, or 28 if that is less; user space has so many bytes of the snapshot of that device;
  -- and of that device only the news is taken.
  read_fresh :
      (nonblock : Bool) (sleep : Dev k → Bool × Dev k) (pad : ℕ × ℕ) (copied : Bool) (count : ℕ)
      (d : Dev k) (n : ℕ)
      → Awaits (λ d. d.new_data_avail) sleep
      → let r = echo_read k nonblock sleep pad copied count d in
        let d1 = if d.new_data_avail then d else (sleep d).1 in
        r.0 ≡ pos n
        → (d1.new_data_avail ≡ true)
          × (nonblock ≡ true → d.new_data_avail ≡ true)
          × (n ≡ min count snapshot_size)
          × (r.1 ≡ take n (snapshot_bytes pad (build_snapshot k d1)))
          × (r.2 ≡ record d1 { new_data_avail = false })
  unfolding echo_read
  read_fresh nonblock sleep pad copied count d n law ok = (
    ground (arith, law d),
    λ waitless. ground arith,
    ground arith,
    ground (arith, snapshot_without_news d, snapshot_without_news (sleep d).1),
    ground arith,
  )

  -- If there is news, a read of at least 28 bytes from any file returns the snapshot at once, and no
  -- news is left.
  read_available :
      (nonblock : Bool) (sleep : Dev k → Bool × Dev k) (pad : ℕ × ℕ) (count : ℕ) (d : Dev k)
      → d.new_data_avail ≡ true
      → snapshot_size ≤ count
      → echo_read k nonblock sleep pad true count d ≡ (
        pos snapshot_size,
        snapshot_bytes pad (build_snapshot k d),
        record d { new_data_avail = false },
      )
  unfolding echo_read
  read_available nonblock sleep pad count d h c =
      ground (arith, snapshot_without_news d, take_bytes pad (build_snapshot k d))
