-- ===== src/Session/Packing.antt =====
-- ls_autobahn.cpp: packing a message into the session's buffer, and sending it.
use basicmatch.Base.{ℕ, ◌+◌, ◌%◌, ◌^◌, List, [], ◌∷◌, ◌++◌, length, if◌then◌else◌}
use basicmatch.Session.Buffer.{Buffer, write, clear_buffer, serial, serial_size, tcp_send}
use basicmatch.Session.State.{
  Msgpack, Packed, pack_array, pack_map, pack_str, pack_object, Kwargs, Session, Action, modify,
}

-- msg_code, with the value that each has.
pub data MsgCode : Type 0 where
  hello welcome abort challenge authenticate goodbye_code heartbeat error_code : MsgCode
  publish_code published subscribe_code subscribed_code unsubscribe unsubscribed : MsgCode
  event_code call_code cancel_code result register registered_code unregister : MsgCode
  unregistered invocation interrupt yield : MsgCode

abbrev pub code_value : MsgCode → ℕ
code_value hello = 1
code_value welcome = 2
code_value abort = 3
code_value challenge = 4
code_value authenticate = 5
code_value goodbye_code = 6
code_value heartbeat = 7
code_value error_code = 8
code_value publish_code = 16
code_value published = 17
code_value subscribe_code = 32
code_value subscribed_code = 33
code_value unsubscribe = 34
code_value unsubscribed = 35
code_value event_code = 36
code_value call_code = 48
code_value cancel_code = 49
code_value result = 50
code_value register = 64
code_value registered_code = 65
code_value unregister = 66
code_value unregistered = 67
code_value invocation = 68
code_value interrupt = 69
code_value yield = 70

abbrev pub all_codes : List MsgCode
all_codes =
    hello ∷ welcome ∷ abort ∷ challenge ∷ authenticate ∷ goodbye_code ∷ heartbeat ∷ error_code
    ∷ publish_code ∷ published ∷ subscribe_code ∷ subscribed_code ∷ unsubscribe ∷ unsubscribed
    ∷ event_code ∷ call_code ∷ cancel_code ∷ result ∷ register ∷ registered_code ∷ unregister
    ∷ unregistered ∷ invocation ∷ interrupt ∷ yield ∷ []

-- session::next_request_id: request_id_++
abbrev pub next_request_id : ℕ → ℕ
next_request_id id = (id + 1) % 2 ^ 64

-- pack_vec and pack_map: the calls of the packer.
unfoldable pub pack_objects : {O : Type 0} → List O → List (Packed O)
pack_objects [] = []
pack_objects (o ∷ os) = pack_object o ∷ pack_objects os

unfoldable pub pack_vec : {O : Type 0} → List O → List (Packed O)
unfolding pack_objects
pack_vec args = pack_array (length args) ∷ pack_objects args

unfoldable pub pack_pairs : {O : Type 0} → Kwargs O → List (Packed O)
pack_pairs [] = []
pack_pairs ((k, o) ∷ kw) = pack_str k ∷ pack_object o ∷ pack_pairs kw

unfoldable pub pack_kwargs : {O : Type 0} → Kwargs O → List (Packed O)
unfolding pack_pairs
pack_kwargs kw = pack_map (length kw) ∷ pack_pairs kw

unfoldable pub write_all : List (List ℕ) → Buffer → Buffer
unfolding write
write_all [] b = b
write_all (bs ∷ rest) b = write_all rest (write bs b)

module _ {O : Type 0} (mp : Msgpack O) where
  unfoldable pub pack_all : List (Packed O) → Buffer → Buffer
  unfolding write_all
  pack_all [] b = b
  pack_all (p ∷ ps) b = pack_all ps (write_all (mp.writes p) b)

  abbrev pub pack : {C : Type 0} → List (Packed O) → Action C (Unit {0})
  pack ps = modify (λ s. record s { buf = pack_all ps s.buf })

-- session::send, which clears the buffer also where it sends nothing.
unfoldable pub send_buffer : {C : Type 0} → Session C → Session C
unfolding serial tcp_send clear_buffer
send_buffer s = record s {
  buf = clear_buffer s.buf;
  sent = if s.stopped then s.sent else s.sent ++ tcp_send (serial s.buf) (serial_size s.buf) ∷ [];
}

abbrev pub send : {C : Type 0} → Action C (Unit {0})
send = modify send_buffer
