-- ===== src/Cl.antt =====
-- cl.cpp: the lines that are typed at a client, as the messages that it sends.
pub mod Delivery
pub mod Streamed
use mathlib.Core.Option
use basicmatch.Base.{
  ℕ, ◌+◌, ◌%◌, ◌^◌, List, [], ◌∷◌, ◌++◌, Option, none, some, Text, take, length, leb, ◌==◌,
  if◌then◌else◌,
}
use basicmatch.Wire.{le_bytes}

-- A line with its NUL behind its size, built in buf[256]. `none` is a copy past the end of buf.
unfoldable pub line_bytes : Text → Option (List ℕ)
unfolding le_bytes
line_bytes line =
    let slen = length line % 2 ^ 16 in
    let msize = (slen + 3) % 2 ^ 16 in
    if leb (slen + 3) 256 then some (le_bytes 2 msize ++ take (slen + 1) (line ++ 0 ∷ [])) else none

-- exec_s: the messages of the lines up to an empty one, or to the end of the input.
unfoldable pub exec_s : List Text → Option (List (List ℕ))
unfolding line_bytes Option.bind
exec_s [] = some []
exec_s (line ∷ lines) =
    let rest = exec_s lines in
    if length line == 0
    then some []
    else Option.bind (line_bytes line) (λ m. Option.map (◌∷◌ m) rest)
