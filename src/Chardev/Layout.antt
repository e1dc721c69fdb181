-- ===== src/Chardev/Layout.antt =====
-- `struct echo_snapshot` of module/echo_ioctl.h as bytes: what user space reads back.
use team9osdriver.Prelude.{ℕ, ◌+◌, ◌*◌, ◌^◌, ◌<◌, ◌≡◌, refl, List, arith, length, get_or}
use team9osdriver.Chardev.{Snapshot, snapshot_bytes, snapshot_size}

abbrev at16 : List ℕ → ℕ → ℕ
at16 xs i = get_or xs i 0 + 256 * get_or xs (i + 1) 0

abbrev at32 : List ℕ → ℕ → ℕ
at32 xs i = at16 xs i + 65536 * at16 xs (i + 2)

-- A program's view of the bytes: the fields at their offsets.
unfoldable pub snapshot_at : List ℕ → Snapshot
snapshot_at xs = record {
  mode = at32 xs 0;
  pan_angle = at16 xs 4;
  tilt_angle = at16 xs 6;
  tilt2_angle = at16 xs 8;
  buffer_count = at32 xs 12;
  total_moves = at32 xs 16;
  total_replays = at32 xs 20;
  irq_count = at32 xs 24;
}

-- Each field fits its type.
pub record Fits (s : Snapshot) : Type 0 where
  pub mode : s.mode < 2 ^ 32
  pub pan_angle : s.pan_angle < 2 ^ 16
  pub tilt_angle : s.tilt_angle < 2 ^ 16
  pub tilt2_angle : s.tilt2_angle < 2 ^ 16
  pub buffer_count : s.buffer_count < 2 ^ 32
  pub total_moves : s.total_moves < 2 ^ 32
  pub total_replays : s.total_replays < 2 ^ 32
  pub irq_count : s.irq_count < 2 ^ 32

-- The structure takes 28 bytes, and a snapshot whose fields fit their types is read back as it was,
-- whatever stands in the padding.
pub snapshot_roundtrip :
    (pad : ℕ × ℕ) (s : Snapshot)
    → Fits s
    → (length (snapshot_bytes pad s) ≡ snapshot_size) × (snapshot_at (snapshot_bytes pad s) ≡ s)
unfolding snapshot_bytes snapshot_at
snapshot_roundtrip pad s h = (refl, ground arith)

-- The bytes 10 and 11 that user space receives are the two bytes that the stack held, whatever the
-- snapshot.
snapshot_leaks :
    (pad : ℕ × ℕ) (s : Snapshot)
    → (get_or (snapshot_bytes pad s) 10 0 ≡ pad.0) × (get_or (snapshot_bytes pad s) 11 0 ≡ pad.1)
unfolding snapshot_bytes
snapshot_leaks pad s = (refl, refl)
