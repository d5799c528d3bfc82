-- ===== src/Session/Receive.antt =====
-- ls_autobahn.cpp: the bytes that the socket has received, as messages of the session.
use basicmatch.Base.{
  ℕ, zero, suc, ◌+◌, ◌-◌, ◌%◌, ◌^◌, List, true, false, Option, none, some, length, take, drop, ◌==◌,
  ltb,
}
use basicmatch.Session.Buffer.{ntohl}
use basicmatch.Session.Branch.{if◌then◌else◌}
use basicmatch.Session.State.{Msgpack, running, Action, User, pure, gets, or_undefined, ◌>>=◌, ◌>>◌}
use basicmatch.Session.Checks.{converted}
use basicmatch.Session.Handlers.{handle_msg}

-- Memory of a size from an address on. Past the socket's buffer there is none.
unfoldable pub memory : ℕ → List ℕ → Option (List ℕ)
memory size buf = elim (ltb (length buf) size) [ true ↦ none | false ↦ some (take size buf) ]

module _ {O C : Type 0} (mp : Msgpack O) (user : User O C) where
  -- while (off != msg_size)
  unfoldable pub parse_loop : ℕ → List ℕ → ℕ → ℕ → Action C (Unit {0})
  unfolding handle_msg
  parse_loop zero buf size off = λ s. running
  parse_loop (suc fuel) buf size off = if off == size then pure tt else do
    (obj, next) ← converted (mp.unpack buf size off)
    handle_msg mp user obj
    parse_loop fuel buf size next

  -- A round for each byte is enough where `unpack` goes forward.
  unfoldable pub parse_msg : List ℕ → ℕ → Action C (Unit {0})
  unfolding parse_loop
  parse_msg buf size = parse_loop (suc size) buf size 0

  -- session::recv_cb on the socket's memory from `buf` on, with the number of bytes that are left. The
  -- size is compared with the bytes from the size field on, and the message begins behind it.
  unfoldable pub recv_cb : ℕ → List ℕ → ℕ → Action C ℕ
  unfolding parse_msg memory ntohl
  recv_cb zero buf bytes = λ s. running
  recv_cb (suc fuel) buf bytes = do
    stopped ← gets (λ s. s.stopped)
    if stopped then pure 0 else if ltb bytes 4 then pure bytes else do
      header ← or_undefined (memory 4 buf)
      let size = ntohl header
      if ltb bytes size then pure bytes else do
        message ← or_undefined (memory size (drop 4 buf))
        parse_msg message size
        recv_cb fuel (drop ((size + 4) % 2 ^ 32) buf)
            ((bytes + (2 ^ 32 - (size + 4) % 2 ^ 32)) % 2 ^ 16)
