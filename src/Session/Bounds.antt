-- ===== src/Session/Bounds.antt =====
-- The buffer's writes stay inside its allocation.
use basicmatch.Base.{ℕ, ◌+◌, ◌^◌, ◌≤◌, ◌<◌, List, [], ◌∷◌, length, length-append, arith}
use basicmatch.Session.Buffer.{Buffer, write, serial_size}
use basicmatch.Session.State.{Msgpack, Packed}
use basicmatch.Session.Packing.{write_all, pack_all}

-- What is written, with the size field in front, lies in the allocation.
abbrev pub IsInside : Buffer → Type 0
IsInside b = serial_size b ≤ b.bufsize

-- The most that writes make the allocation grow.
abbrev pub growth : List (List ℕ) → ℕ
growth [] = 0
growth (bs ∷ rest) = length bs + 128 + growth rest

abbrev pub pack_growth : {O : Type 0} → Msgpack O → List (Packed O) → ℕ
pack_growth mp [] = 0
pack_growth mp (p ∷ ps) = growth (mp.writes p) + pack_growth mp ps

write-IsInside :
    (bs : List ℕ) (b : Buffer)
    → IsInside b
    → b.bufsize + (length bs + 128) < 2 ^ 32
    → IsInside (write bs b) × ((write bs b).bufsize ≤ b.bufsize + (length bs + 128))
unfolding write
write-IsInside bs b h k = let sizes = length-append b.bytes bs in ground arith

write_all-IsInside :
    (ws : List (List ℕ)) (b : Buffer)
    → IsInside b
    → b.bufsize + growth ws < 2 ^ 32
    → IsInside (write_all ws b) × ((write_all ws b).bufsize ≤ b.bufsize + growth ws)
unfolding write_all
write_all-IsInside [] b h k = (h, omega arith)
write_all-IsInside (bs ∷ ws) b h k =
    let (i, m) = write-IsInside bs b h (omega arith) in
    let (j, n) = write_all-IsInside ws (write bs b) i (omega arith) in (j, omega arith)

-- Packing any calls of the packer into a buffer whose bytes lie in its allocation leaves them in the
-- allocation, which the writes make larger in time, as long as its size stays in a uint32_t: the
-- size grows by at most the bytes of each write and 128.
pub pack_all-IsInside :
    {O : Type 0} (mp : Msgpack O) (ps : List (Packed O)) (b : Buffer)
    → IsInside b
    → b.bufsize + pack_growth mp ps < 2 ^ 32
    → IsInside (pack_all mp ps b) × ((pack_all mp ps b).bufsize ≤ b.bufsize + pack_growth mp ps)
unfolding pack_all
pack_all-IsInside mp [] b h k = (h, omega arith)
pack_all-IsInside mp (p ∷ ps) b h k =
    let (i, m) = write_all-IsInside (mp.writes p) b h (omega arith) in
    let (j, n) = pack_all-IsInside mp ps (write_all (mp.writes p) b) i (omega arith) in
    (j, omega arith)
