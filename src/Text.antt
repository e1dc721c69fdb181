-- ===== src/Text.antt =====
-- Texts as the list of their bytes, and the numbers that the kernel prints.
use Prim.Native.Char.{code}
use Prim.Native.String.{String}
use team9osdriver.Prelude.{ℕ, ◌≡◌, ◌≢◌, refl, arith, List, [], ◌∷◌, ◌++◌, ℤ}

abbrev pub Bytes : Type 0
Bytes = List ℕ

abbrev pub codes : String → Bytes
codes String.[] = []
codes (String.◌∷◌ c s) = code c ∷ codes s

abbrev pub newline : ℕ
newline = 10

abbrev pub space : ℕ
space = 32

-- no byte of the text is `c`
abbrev pub Free : ℕ → Bytes → Type 0
Free c [] = Unit {0}
Free c (x ∷ s) = (x ≢ c) × Free c s

-- What `%u`, `%lu` and `%d` print: different texts for different numbers, with no space and no
-- newline.
pub record Printf : Type 0 where
  pub print_u : ℕ → Bytes
  pub print_d : ℤ → Bytes
  pub print_u_inj : (m n : ℕ) → print_u m ≡ print_u n → m ≡ n
  pub print_d_inj : (i j : ℤ) → print_d i ≡ print_d j → i ≡ j
  pub print_u_free : (n : ℕ) → Free space (print_u n) × Free newline (print_u n)
  pub print_d_free : (i : ℤ) → Free newline (print_d i)

pub Free-append : (c : ℕ) (s t : Bytes) → Free c s → Free c t → Free c (s ++ t)
Free-append c [] t f g = g
Free-append c (x ∷ s) t f g = (f.0, Free-append c s t f.1 g)

-- Texts that agree up to a byte that stands in neither before agree before it and behind it.
pub cut_at :
    (c : ℕ) (s t u v : Bytes)
    → Free c s
    → Free c t
    → s ++ (c ∷ u) ≡ t ++ (c ∷ v)
    → (s ≡ t) × (u ≡ v)
cut_at c [] [] u v f g e = (refl, ground arith)
cut_at c [] (y ∷ t) u v f g e = absurd (ground (arith, g.0))
cut_at c (x ∷ s) [] u v f g e = absurd (ground (arith, f.0))
cut_at c (x ∷ s) (y ∷ t) u v f g e =
    let rest = cut_at c s t u v f.1 g.1 (ground arith) in ground (arith, rest.0, rest.1)
