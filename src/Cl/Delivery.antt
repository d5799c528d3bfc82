-- ===== src/Cl/Delivery.antt =====
-- From the lines that are typed at a client to the actions of the server.
use mathlib.Core.Option
use basicmatch.Base.{
  ℕ, zero, suc, ◌+◌, ◌-◌, ◌<◌, ◌≤◌, ◌≡◌, ◌==◌, ◌%◌, ◌^◌, List, [], ◌∷◌, ◌++◌, Option, none, some,
  Text, All, drop, take, length, arith, refl, ap, map, true, false, leb, ltb,
}
use basicmatch.Wire.{le_bytes, has_nul, c_string, field}
use basicmatch.Wire.Laws.{NoNul, le_value-le_bytes}
use basicmatch.Msg.{msg_size, has_msg}
use basicmatch.Recv.{Loop, finished, faulted, recv_loop, after}
use basicmatch.BasicMatch.{Server, handle_text, handle_msg, client_message, client_recv_cb, handled}
use basicmatch.Cl.{line_bytes, exec_s}

-- A line that fits the client's buffer.
pub record IsLine (line : Text) : Type 0 where
  pub some_text : 0 < length line
  pub short : length line + 3 ≤ 256
  pub text : NoNul line

abbrev pub message : Text → List ℕ
message line = le_bytes 2 (length line + 3) ++ line ++ 0 ∷ []

abbrev pub joined : List (List ℕ) → List ℕ
joined [] = []
joined (m ∷ ms) = m ++ joined ms

abbrev pub total_size : List Text → ℕ
total_size [] = 0
total_size (line ∷ lines) = (length line + 3) + total_size lines

take-line : (s : Text) (k : ℕ) → k ≡ length s + 1 → take k (s ++ 0 ∷ []) ≡ s ++ 0 ∷ []
take-line s zero e = absurd (omega arith)
take-line [] (suc zero) e = refl
take-line [] (suc (suc k)) e = absurd (omega arith)
take-line (c ∷ s) (suc k) e = ap (◌∷◌ c) (take-line s k (omega arith))

drop-line : (s rest : Text) (k : ℕ) → k ≡ length s + 1 → drop k ((s ++ 0 ∷ []) ++ rest) ≡ rest
drop-line s rest zero e = absurd (omega arith)
drop-line [] rest (suc zero) e = refl
drop-line [] rest (suc (suc k)) e = absurd (omega arith)
drop-line (c ∷ s) rest (suc k) e = drop-line s rest k (omega arith)

c_string-line : (s rest : Text) → NoNul s → c_string ((s ++ 0 ∷ []) ++ rest) ≡ s
unfolding c_string
c_string-line [] rest h = refl
c_string-line (c ∷ s) rest h = ground (arith, c_string-line s rest h.1)

has_nul-line : (s rest : Text) → has_nul ((s ++ 0 ∷ []) ++ rest) ≡ true
unfolding has_nul
has_nul-line [] rest = refl
has_nul-line (c ∷ s) rest = ground (arith, has_nul-line s rest)

line_bytes-message : (line : Text) → IsLine line → line_bytes line ≡ some (message line)
unfolding line_bytes
line_bytes-message line h =
    let short = h.short in
    let slen : length line % 2 ^ 16 ≡ length line = omega arith in
    let msize : (length line + 3) % 2 ^ 16 ≡ length line + 3 = omega arith in
    let fits : leb (length line + 3) 256 ≡ true = ground arith in
    rw (slen, msize, fits, take-line line (length line + 1) refl) refl

pub exec_s-messages :
    (lines : List Text) → All IsLine lines → exec_s lines ≡ some (map message lines)
unfolding exec_s Option.bind
exec_s-messages [] h = refl
exec_s-messages (line ∷ lines) h =
    let full : (length line == 0) ≡ false = ground (arith, h.0.some_text) in
    rw (full, line_bytes-message line h.0, exec_s-messages lines h.1) refl

pub msg_size-message :
    (line : Text) (rest : List ℕ) → IsLine line → msg_size (message line ++ rest) ≡ length line + 3
unfolding msg_size field le_bytes
msg_size-message line rest h = le_value-le_bytes 2 (length line + 3) (omega (arith, h.short))

has_msg-message :
    (line : Text) (rest : List ℕ) (bytes : ℕ)
    → IsLine line
    → length line + 3 ≤ bytes
    → has_msg (message line ++ rest) bytes ≡ true
unfolding has_msg msg_size
has_msg-message line rest bytes h n = ground (arith, msg_size-message line rest h)

drop-past :
    (s rest : Text) (a b k : ℕ) → k ≡ length s + 3 → drop k (a ∷ b ∷ (s ++ 0 ∷ []) ++ rest) ≡ rest
drop-past s rest a b zero e = absurd (omega arith)
drop-past s rest a b (suc zero) e = absurd (omega arith)
drop-past s rest a b (suc (suc k)) e = drop-line s rest k (omega arith)

drop-message :
    (line : Text) (rest : List ℕ)
    → IsLine line
    → drop (msg_size (message line ++ rest)) (message line ++ rest) ≡ rest
unfolding le_bytes
drop-message line rest h =
    rw (msg_size-message line rest h) (drop-past line rest _ _ (length line + 3) refl)

module _ (stod : Text → ℕ) (show_price : ℕ → Text) where
  -- The lines in turn; the result is that of a loop that has used all its bytes.
  unfoldable pub on_lines : List Text → Server → Loop Server
  on_lines [] s = finished s 0
  on_lines (line ∷ lines) s = elim (handle_text stod show_price line s) [
    | none ↦ faulted
    | some s' ↦ on_lines lines s'
  ]

  pub client_message-message :
      (line : Text) (rest : List ℕ) (bytes : ℕ) (s : Server)
      → IsLine line
      → length line + 3 ≤ bytes
      → client_message stod show_price (message line ++ rest) bytes s
        ≡ handled stod show_price (handle_text stod show_price line s)
  unfolding client_message has_msg handle_msg
  client_message-message line rest bytes s h n =
      rw
        (
          has_msg-message line rest bytes h n,
          has_nul-line line rest,
          client_message,
          c_string-line line rest h.text,
        )
        refl

  after-handled :
      (lines : List Text) (next : Server → Loop Server) (s : Server) (n : ℕ) (o : Option Server)
      → ((s' : Server) → next s' ≡ on_lines lines s')
      → after (handled stod show_price o) next s n
        ≡ elim o [ none ↦ faulted | some s' ↦ on_lines lines s' ]
  after-handled lines next s n none k = refl
  after-handled lines next s n (some s') k = k s'

  recv-messages :
      (lines : List Text) (fuel : ℕ) (s : Server)
      → All IsLine lines
      → length lines < fuel
      → client_recv_cb stod show_price fuel (joined (map message lines)) (total_size lines) s
        ≡ on_lines lines s
  unfolding client_recv_cb recv_loop on_lines
  recv-messages lines zero s h f = absurd (omega arith)
  recv-messages [] (suc fuel) s h f = refl
  recv-messages (line ∷ lines) (suc fuel) s h f =
      let rest = joined (map message lines) in
      let more : (length line + 3 + total_size lines == 0) ≡ false = ground arith in
      let few : ltb (length line + 3 + total_size lines) (length line + 3) ≡ false = ground arith in
      let left : length line + 3 + total_size lines - (length line + 3) ≡ total_size lines =
        omega arith in
      rw
        (
          more,
          client_message-message line rest (length line + 3 + total_size lines) s h.0 (omega arith),
          drop-message line rest h.0,
          msg_size-message line rest h.0,
          few,
          left,
        )
        (after-handled lines _ s _ (handle_text stod show_price line s)
          (λ s'. recv-messages lines fuel s' h.1 (omega arith)))

  -- Lines that are typed at a client, each short enough for its buffer and none of them empty, are
  -- sent as messages which the server, reading their bytes one after the other, acts on in the order
  -- in which they were typed, each as the line that it was, with no byte left over.
  pub client_recv_cb-exec_s :
      (lines : List Text) (fuel : ℕ) (s : Server)
      → All IsLine lines
      → length lines < fuel
      → (ms : List (List ℕ)) × (exec_s lines ≡ some ms)
        × (client_recv_cb stod show_price fuel (joined ms) (total_size lines) s ≡ on_lines lines s)
  client_recv_cb-exec_s lines fuel s h f =
      (map message lines, exec_s-messages lines h, recv-messages lines fuel s h f)
