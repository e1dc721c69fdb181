-- ===== src/Threads/Counting.antt =====
-- Sums over the threads below a number.
use team9osdriver.Prelude.{ℕ, zero, suc, ◌+◌, ◌*◌, ◌≤◌, ◌<◌, ◌≡◌, refl, ap, arith}
use native.Mathlib.Decide.{ℕ_discrete}
use team9osdriver.Threads.System.{update}

unfoldable pub sum_below {ℓ} : {A : Type ℓ} → (A → ℕ) → ℕ → (ℕ → A) → ℕ
sum_below q zero f = 0
sum_below q (suc n) f = q (f n) + sum_below q n f

sum_below-other {ℓ} :
    {A : Type ℓ} (q : A → ℕ) (n : ℕ) (f : ℕ → A) (i : ℕ) (p : A)
    → n ≤ i
    → sum_below q n (update f i p) ≡ sum_below q n f
unfolding sum_below
sum_below-other q zero f i p h = refl
sum_below-other q (suc n) f i p h = ground (arith, sum_below-other q n f i p)

-- A change of one of them changes the sum by as much.
pub sum_below-update {ℓ} :
    {A : Type ℓ} (q : A → ℕ) (n : ℕ) (f : ℕ → A) (i : ℕ) (p : A)
    → i < n
    → q (f i) + sum_below q n (update f i p) ≡ q p + sum_below q n f
unfolding sum_below
sum_below-update q zero f i p h = absurd (omega arith)
sum_below-update q (suc n) f i p h = elim (ℕ_discrete i n) [
  | yes e ↦ ground (arith, sum_below-other q n f i p, e, ap (λ (j : ℕ). q (f j)) e)
  | no ne ↦ ground (arith, sum_below-update q n f i p)
]

pub sum_below_at_most {ℓ} :
    {A : Type ℓ} (q : A → ℕ) (most : ℕ)
    → ((p : A) → q p ≤ most)
    → (n : ℕ) (f : ℕ → A) → sum_below q n f ≤ most * n
unfolding sum_below
sum_below_at_most q most h zero f = omega arith
sum_below_at_most q most h (suc n) f = omega (arith, h (f n), sum_below_at_most q most h n f)
