-- ===== src/Wire/Laws.antt =====
-- What is written is read back.
use native.Mathlib.Nat.{pow-suc}
use basicmatch.Base.{
  List, true, ℕ, zero, suc, ◌/◌, ◌^◌, ◌<◌, ◌≤◌, ◌≡◌, [], ◌∷◌, ◌++◌, Text, All, length, arith, refl,
}
use basicmatch.Types.{infinity}
use basicmatch.Wire.{has_nul, le_bytes, le_value, double_bits, double_rank, fixed_str, c_string}

pub le_value-le_bytes : (w n : ℕ) → n < 256 ^ w → le_value (le_bytes w n) ≡ n
unfolding le_bytes le_value
le_value-le_bytes zero n h = omega arith
le_value-le_bytes (suc w) n h =
    omega (arith, le_value-le_bytes w (n / 256) (omega (arith, pow-suc 256 w)))

pub double_rank-double_bits : (p : ℕ) → p ≤ infinity → double_rank (double_bits p) ≡ p
unfolding double_rank double_bits
double_rank-double_bits p h = ground arith

pub double_bits-lt : (p : ℕ) → p ≤ infinity → double_bits p < 256 ^ 8
unfolding double_bits
double_bits-lt p h = ground arith

-- A text of the program: no NUL in it.
abbrev pub NoNul : Text → Type 0
NoNul = All (λ c. 0 < c)

pub c_string-fixed_str :
    (n : ℕ) (s rest : Text) → length s ≤ n → NoNul s → c_string (fixed_str n s ++ rest) ≡ s
unfolding fixed_str c_string
c_string-fixed_str zero [] rest h k = refl
c_string-fixed_str zero (c ∷ s) rest h k = absurd (omega arith)
c_string-fixed_str (suc n) [] rest h k = refl
c_string-fixed_str (suc n) (c ∷ s) rest h k = ground (arith, c_string-fixed_str n s rest)

pub has_nul-fixed_str : (n : ℕ) (s : Text) (rest : List ℕ) → has_nul (fixed_str n s ++ rest) ≡ true
unfolding has_nul fixed_str
has_nul-fixed_str zero s rest = refl
has_nul-fixed_str (suc n) [] rest = refl
has_nul-fixed_str (suc n) (c ∷ s) rest = ground (arith, has_nul-fixed_str n s rest)
