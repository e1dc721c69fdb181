-- ===== src/Kernel.antt =====
-- What the driver uses of the kernel and does not implement: the kfifo of <linux/kfifo.h>, and the
-- conversions of time. They are parameters of the model. A `Ptr` is a pointer into the memory that
-- the threads of the driver share.
use team9osdriver.Prelude.{
  ℕ, ◌%◌, ◌^◌, ◌≤◌, ◌<◌, ◌≡◌, Bool, Option, some, List, [], ◌∷◌, ◌++◌, ℤ, length, drop, ◌==◌,
}
use team9osdriver.Types.{Move, fifo_size}

-- A kfifo of `fifo_size` movements, with the documented behaviour of the macros over the entries
-- that it holds, the oldest first.
pub record Kfifo : Type 1 where
  pub Fifo : Type 0
  pub entries : Fifo → List Move
  pub kfifo_len : Fifo → ℕ
  pub kfifo_is_full : Fifo → Bool
  pub kfifo_put : Fifo → Move → Fifo
  pub kfifo_get : Fifo → Option (Move × Fifo)
  pub kfifo_skip : Fifo → Fifo
  pub kfifo_reset : Fifo → Fifo
  pub entries_fit : (f : Fifo) → length (entries f) ≤ fifo_size
  pub len_lem : (f : Fifo) → kfifo_len f ≡ length (entries f)
  pub is_full_lem : (f : Fifo) → kfifo_is_full f ≡ (length (entries f) == fifo_size)
  pub put_lem :
      (f : Fifo) (m : Move)
      → length (entries f) < fifo_size
      → entries (kfifo_put f m) ≡ entries f ++ (m ∷ [])
  pub get_lem :
      (f : Fifo) (m : Move) (ms : List Move)
      → entries f ≡ m ∷ ms
      → (f' : Fifo) × (kfifo_get f ≡ some (m, f')) × (entries f' ≡ ms)
  pub skip_lem : (f : Fifo) → entries (kfifo_skip f) ≡ drop 1 (entries f)
  pub reset_lem : (f : Fifo) → entries (kfifo_reset f) ≡ []

-- `ktime_ms_delta` and `msecs_to_jiffies`
pub record Clock : Type 0 where
  pub ktime_ms_delta : ℕ → ℕ → ℤ
  pub msecs_to_jiffies : ℕ → ℕ

-- A pointer to a `C` in the memory `W`.
pub record Ptr (W C : Type 0) : Type 0 where
  pub load : W → C
  pub store : C → W → W

-- The arithmetic of `unsigned long`, of 64 bits on the machine that the driver is built for.
abbrev pub ulong : ℕ → ℕ
ulong n = n % 2 ^ 64
