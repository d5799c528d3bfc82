-- ===== src/Cl/Streamed.antt =====
-- The lines that are typed at a client, as the server's socket receives them.
use basicmatch.Base.{
  ℕ, suc, take, ◌+◌, ◌<◌, ◌≤◌, ◌≡◌, ◌∙◌, List, [], ◌∷◌, ◌++◌, Option, none, some, Text, All, length,
  map, arith, refl, sym, ap, false, length-append,
}
use basicmatch.Wire.{le_bytes, field, le_value}
use basicmatch.Wire.Laws.{le_value-le_bytes}
use basicmatch.Msg.{has_msg}
use basicmatch.Recv.{stop, finished}
use basicmatch.BasicMatch.{Server, handle_text, client_message, client_recv_cb, handled}
use basicmatch.BasicMatch.Total.{IsSafe, handle_text_total}
use basicmatch.Socket.{got, recv_cb}
use basicmatch.Socket.Framing.{IsFraming, IsPart, act_all, lift, joined}
use basicmatch.Socket.Stream.{flat, HasRoom, recv_cb-stream}
use basicmatch.Cl.{exec_s}
use basicmatch.Cl.Delivery.{
  IsLine, message, exec_s-messages, msg_size-message, client_message-message, on_lines,
}

length-message : (line : Text) → length (message line) ≡ length line + 3
unfolding le_bytes
length-message line = let sizes = length-append line (0 ∷ []) in omega arith

-- A part of a message is shorter than the size in its first two bytes, or has no such bytes.
has_msg-part :
    (line : Text) (buf rest : List ℕ)
    → IsLine line
    → buf ++ rest ≡ message line
    → length buf < length (message line)
    → has_msg buf (length buf) ≡ false
unfolding has_msg field le_bytes le_value
has_msg-part line [] rest h e n = refl
has_msg-part line (a ∷ []) rest h e n = refl
has_msg-part line (a ∷ b ∷ buf) rest h e n =
    let same : le_value (a ∷ b ∷ []) ≡ le_value (le_bytes 2 (length line + 3)) =
      ap (λ l. le_value (take 2 l)) e in
    let size = same ∙ le_value-le_bytes 2 (length line + 3) (omega (arith, h.short)) in
    let whole = length-message line in ground arith

flat-joined : (lines : List Text) → flat (map message lines) ≡ joined message lines
flat-joined [] = refl
flat-joined (line ∷ lines) = ap (λ l. message line ++ l) (flat-joined lines)

IsPart-empty : (lines : List Text) → IsPart message [] lines
IsPart-empty [] = refl
IsPart-empty (line ∷ lines) = let whole = length-message line in omega arith

module _ (stod : Text → ℕ) (show_price : ℕ → Text) where
  handled-lift : (o : Option Server) → handled stod show_price o ≡ lift o
  handled-lift none = refl
  handled-lift (some s) = refl

  client_message-part :
      (line : Text) (buf rest : List ℕ) (s : Server)
      → IsLine line
      → buf ++ rest ≡ message line
      → length buf < length (message line)
      → client_message stod show_price buf (length buf) s ≡ stop
  unfolding client_message
  client_message-part line buf rest s h e n = rw (has_msg-part line buf rest h e n) refl

  client_message-IsFraming :
      IsFraming (client_message stod show_price) message (handle_text stod show_price) IsLine
  client_message-IsFraming = record {
    some_size = λ line h. let k = length-message line in omega arith;
    size = λ line rest h. msg_size-message line rest h ∙ sym (length-message line);
    whole = λ line rest bytes s h n.
        client_message-message stod show_price line rest bytes s h
          (let k = length-message line in omega arith)
        ∙ handled-lift (handle_text stod show_price line s);
    part = λ line buf rest s h e n. client_message-part line buf rest s h e n;
  }

  IsLine-short : (line : Text) → IsLine line → length (message line) ≤ 256
  IsLine-short line h = let whole = length-message line in omega (arith, h.short)

  on_lines_total :
      (lines : List Text) (s : Server)
      → IsSafe s.engine
      → (s' : Server) × (act_all (handle_text stod show_price) lines s ≡ some s')
        × (on_lines stod show_price lines s ≡ finished s' 0)
        × IsSafe s'.engine
  unfolding on_lines
  on_lines_total [] s h = (s, refl, refl, h)
  on_lines_total (line ∷ lines) s h =
      let (t, k, safe) = handle_text_total stod show_price line s h in
      let (s', a, b, c) = on_lines_total lines t safe in
      (s', (rw (act_all, k) refl) ∙ a, (rw (on_lines, k) refl) ∙ b, c)

  -- Lines that are typed at a client, none of them empty and each short enough for its buffer, on
  -- their way to a server whose books are in order and registered. However the network cuts the
  -- bytes of their messages, as long as each piece fits the socket's buffer behind an incomplete
  -- message, the server's socket ends with an empty buffer and without an error, and the server has
  -- acted on each line, in the order in which they were typed, without undefined behaviour.
  pub recv_cb-exec_s :
      (lines : List Text) (ms cs : List (List ℕ)) (s : Server)
      → All IsLine lines
      → IsSafe s.engine
      → exec_s lines ≡ some ms
      → flat cs ≡ flat ms
      → HasRoom 256 cs
      → (s' : Server) × (on_lines stod show_price lines s ≡ finished s' 0)
        × (recv_cb
              (some (λ buf bytes s. client_recv_cb stod show_price (suc (length buf)) buf bytes s))
              (map got cs)
              (record { pending = []; user = s })
            ≡ some (record { pending = []; user = s' }, none))
        × IsSafe s'.engine
  unfolding client_recv_cb
  recv_cb-exec_s lines ms cs s v safe e k room =
      let sent = sym (exec_s-messages lines v) ∙ e in
      let same : map message lines ≡ ms = cc sent in
      let (s', a, b, c) = on_lines_total lines s safe in
      (
        s',
        b,
        recv_cb-stream (client_message stod show_price) message (handle_text stod show_price) IsLine
            client_message-IsFraming 256 IsLine-short lines [] cs s s' v (IsPart-empty lines) room
            (k ∙ ap flat (sym same) ∙ flat-joined lines) a,
        c,
      )
