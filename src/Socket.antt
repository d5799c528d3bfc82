-- ===== src/Socket.antt =====
-- st_socket.h and st_socket.cpp: receiving into a socket's buffer, and what the user's callback leaves
-- in it.
pub mod Framing
pub mod Stream
pub mod Bounds
use mathlib.Core.Option
use basicmatch.Base.{
  ℕ, ◌+◌, ◌-◌, ◌*◌, ◌%◌, ◌^◌, List, [], ◌∷◌, ◌++◌, Option, none, some, length, take, drop, ◌==◌,
  if◌then◌else◌,
}
use basicmatch.Recv.{Loop, finished, faulted, running}

-- What a call of recv returned: one byte or more, nothing yet (EAGAIN or EWOULDBLOCK), the end of the stream
-- (0 bytes, as also with no room in the buffer, when recv is asked for 0 bytes), or another error.
pub data Received : Type 0 where
  got : List ℕ → Received
  again : Received
  closed : Received
  failed : ℕ → Received

abbrev pub recv_buf_size : ℕ
recv_buf_size = 32 * 1024

-- The bytes that the callback left, which are the first `nbytes_` of the buffer, and the state of the
-- callback's user.
pub record Socket {ℓ} (S : Type ℓ) : Type ℓ where
  pub pending : List ℕ
  pub user : S

-- The callback reads the buffer and the number of bytes in it, and says how many are left.
abbrev pub RecvCb {ℓ} : Type ℓ → Type ℓ
RecvCb S = List ℕ → ℕ → S → Loop S

-- memmove: the last `left` bytes become the first.
unfoldable pub keep_left : List ℕ → ℕ → List ℕ
keep_left buf left = take left (drop (length buf - left) buf)

module _ {ℓ} {S : Type ℓ} where
  -- nbytes_ = user_bytes, where the callback has returned.
  unfoldable pub after_cb : List ℕ → Loop S → Option (Socket S)
  unfolding keep_left
  after_cb buf (finished user left) = some (record { pending = keep_left buf left; user = user })
  after_cb buf faulted = none
  after_cb buf running = none

  -- One round in which bytes came. Without a callback all of them stay. `none` is a callback that does
  -- not return.
  unfoldable pub on_bytes : Option (RecvCb S) → List ℕ → Socket S → Option (Socket S)
  unfolding after_cb
  on_bytes none bs s = some (record s { pending = s.pending ++ bs })
  on_bytes (some cb) bs s =
      let buf = s.pending ++ bs in after_cb buf (cb buf (length buf % 2 ^ 16) s.user)

  -- Socket::recv_cb over the results of recv, with what the error callback is called with: 0 for the
  -- end of the stream. Without an error there is no such call, and the next event goes on.
  unfoldable pub recv_cb :
      Option (RecvCb S) → List Received → Socket S → Option (Socket S × Option ℕ)
  unfolding on_bytes Option.bind
  recv_cb cb [] s = some (s, none)
  recv_cb cb (got bs ∷ rs) s = Option.bind (on_bytes cb bs s) (recv_cb cb rs)
  recv_cb cb (again ∷ rs) s = some (s, none)
  recv_cb cb (closed ∷ rs) s = some (s, some 0)
  recv_cb cb (failed e ∷ rs) s = some (s, some e)

  -- Socket::recv_cb(socket, error): with an error that came with the event nothing is received, and
  -- the error callback gets it; 1234 is the number that the source has for the end of the stream.
  unfoldable pub recv_cb_error :
      ℕ → Option (RecvCb S) → List Received → Socket S → Option (Socket S × Option ℕ)
  unfolding recv_cb
  recv_cb_error error cb rs s =
      if error == 0 then recv_cb cb rs s else some (s, some (if error == 1234 then 0 else error))
