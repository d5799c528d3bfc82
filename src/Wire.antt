-- ===== src/Wire.antt =====
-- Bytes of the packed messages of msg.h: little-endian numbers, doubles and fixed strings.
pub mod Laws
use basicmatch.Base.{
  ℕ, zero, suc, ◌+◌, ◌-◌, ◌*◌, ◌/◌, ◌%◌, ◌^◌, List, [], ◌∷◌, ◌++◌, Text, take, drop, ltb, ◌==◌,
  Bool, true, false, if◌then◌else◌,
}
use basicmatch.Types.{price_zero}

-- `w` bytes of a number, the lowest first.
unfoldable pub le_bytes : ℕ → ℕ → List ℕ
le_bytes zero n = []
le_bytes (suc w) n = n % 256 ∷ le_bytes w (n / 256)

unfoldable pub le_value : List ℕ → ℕ
le_value [] = 0
le_value (b ∷ bs) = b + 256 * le_value bs

-- The field of `w` bytes at an offset. It is read where the memory
-- has it: past the end it reads as nothing, and the handlers of messages that could read there are
-- undefined.
unfoldable pub field : ℕ → ℕ → List ℕ → ℕ
unfolding le_value
field off w buf = le_value (take w (drop off buf))

-- The bit pattern of the double of a rank, and the rank of a bit pattern that is not NaN.
unfoldable pub double_bits : ℕ → ℕ
double_bits p = if ltb p price_zero then 2 ^ 63 + (price_zero - p) else p - price_zero

unfoldable pub double_rank : ℕ → ℕ
double_rank b = if ltb b (2 ^ 63) then price_zero + b else price_zero - (b - 2 ^ 63)

-- strncpy(buf, s, n) and the NUL behind it.
unfoldable pub fixed_str : ℕ → Text → List ℕ
fixed_str zero s = 0 ∷ []
fixed_str (suc n) [] = 0 ∷ fixed_str n []
fixed_str (suc n) (c ∷ s) = c ∷ fixed_str n s

-- Whether there is a NUL in the memory.
unfoldable pub has_nul : List ℕ → Bool
has_nul [] = false
has_nul (c ∷ cs) = if c == 0 then true else has_nul cs

-- The bytes up to a NUL. It is read where `has_nul` holds; without a NUL it stops at the end of the
-- memory, where the source reads on, which the handlers of messages have as undefined behaviour.
unfoldable pub c_string : List ℕ → Text
c_string [] = []
c_string (c ∷ cs) = if c == 0 then [] else c ∷ c_string cs
