-- ===== src/Socket/Bounds.antt =====
-- The socket's buffer is never overrun, and its count of bytes never wraps.
use mathlib.Core.Option
use basicmatch.Base.{
  ℕ, ◌-◌, ◌≤◌, ◌≡◌, ◌%◌, ◌^◌, List, [], ◌∷◌, ◌++◌, Option, none, some, Bool-cases, ◌==◌, inl, inr,
  length, take, drop, map, ◌<◌, Bool, leb, if◌then◌else◌, refl, ap, arith, length-append,
}
use basicmatch.Msg.{msg_size}
use basicmatch.Recv.{
  Handled, advance, stop, undefined, after, less-le, recv_loop, Loop, finished, faulted, running,
}
use basicmatch.Recv.Ends.{IsChecking}
use basicmatch.Socket.{
  Received, closed, again, got, Socket, RecvCb, recv_buf_size, keep_left, after_cb, on_bytes,
  recv_cb,
}

-- A callback that leaves no more bytes than it was given.
abbrev pub Leaves {ℓ} : {S : Type ℓ} → ℕ → Loop S → Type 0
Leaves n (finished s left) = left ≤ n
Leaves n faulted = Unit
Leaves n running = Unit

-- The rounds of Socket::recv_cb, in each of which recv returns at least a byte, and no more than it
-- was asked for, which is the room behind the bytes that are left.
pub data Rounds {S : Type 0} (cb : RecvCb S) : Socket S → List (List ℕ) → Socket S → Type 0 where
  no_more : {s : Socket S} → Rounds cb s [] s
  round :
      {s t u : Socket S} {cs : List (List ℕ)} (c : List ℕ)
      → 0 < length c
      → length c ≤ recv_buf_size - length s.pending
      → on_bytes (some cb) c s ≡ some t
      → Rounds cb t cs u
      → Rounds cb s (c ∷ cs) u

-- What recv returns when no bytes are there: EAGAIN, or 0 where the buffer has no room and it was asked
-- for 0 bytes; and what the error callback is called with then.
abbrev pub is_full {ℓ} : {S : Type ℓ} → Socket S → Bool
is_full s = leb recv_buf_size (length s.pending)

abbrev pub nothing_there {ℓ} : {S : Type ℓ} → Socket S → Received
nothing_there s = if is_full s then closed else again

abbrev pub error_then {ℓ} : {S : Type ℓ} → Socket S → Option ℕ
error_then s = if is_full s then some 0 else none

abbrev pub IsInside {ℓ} : {S : Type ℓ} → Socket S → Type 0
IsInside s = length s.pending ≤ recv_buf_size

length-take : (n : ℕ) (xs : List ℕ) → length (take n xs) ≤ n
length-take ℕ.zero xs = omega arith
length-take (ℕ.suc n) [] = omega arith
length-take (ℕ.suc n) (x ∷ xs) = omega (arith, length-take n xs)

Leaves-le : {S : Type 0} (m n : ℕ) (o : Loop S) → m ≤ n → Leaves m o → Leaves n o
Leaves-le m n (finished s left) k h = omega arith
Leaves-le m n faulted k h = tt
Leaves-le m n running k h = tt

after-Leaves :
    {S : Type 0} (n : ℕ) (s : S) (h : Handled S) (next : S → Loop S)
    → ((s' : S) → h ≡ advance s' → Leaves n (next s'))
    → Leaves n (after h next s n)
after-Leaves n s (advance s') next k = k s' refl
after-Leaves n s stop next k = omega arith
after-Leaves n s undefined next k = tt

-- The receive loops of the program are such callbacks.
pub recv_loop-Leaves :
    {S : Type 0} (handle : List ℕ → ℕ → S → Handled S) (c : IsChecking handle) (fuel : ℕ)
    (buf : List ℕ) (n : ℕ) (s : S)
    → Leaves n (recv_loop handle fuel buf n s)
unfolding recv_loop
recv_loop-Leaves handle c ℕ.zero buf n s = tt
recv_loop-Leaves {S = S} handle c (ℕ.suc fuel) buf n s = elim (Bool-cases (n == 0)) [
  | inl z ↦ rw z (omega arith)
  | inr z ↦
      let used = msg_size buf in
      rw z (
        after-Leaves n s (handle buf n s) _ (λ s' e. rw (less-le n used (c buf n s s' e)) (
          Leaves-le (n - used) n (recv_loop handle fuel (drop used buf) (n - used) s') (omega arith)
            (recv_loop-Leaves handle c fuel (drop used buf) (n - used) s'))))
]

module _ {S : Type 0} (cb : RecvCb S)
    (leaves : (buf : List ℕ) (n : ℕ) (s : S) → Leaves n (cb buf n s)) where
  after_cb-IsInside :
      (buf : List ℕ) (n : ℕ) (o : Loop S) (t : Socket S)
      → Leaves n o
      → n ≤ recv_buf_size
      → after_cb buf o ≡ some t
      → IsInside t
  unfolding after_cb keep_left
  after_cb-IsInside buf n (finished s left) t h k e =
      let same : keep_left buf left ≡ t.pending =
        ap (λ (o : Option (Socket S)). elim o [ none ↦ [] | some u ↦ u.pending ]) e in
      let short = length-take left (drop (length buf - left) buf) in
      let sizes = ap length same in omega arith
  after_cb-IsInside buf n faulted t h k e = absurd (cc e)
  after_cb-IsInside buf n running t h k e = absurd (cc e)

  -- The bytes of a round and those that were left are as many as the callback is told.
  on_bytes-IsInside :
      (c : List ℕ) (s t : Socket S)
      → IsInside s
      → length c ≤ recv_buf_size - length s.pending
      → on_bytes (some cb) c s ≡ some t
      → IsInside t
  unfolding on_bytes
  on_bytes-IsInside c s t h k e =
      let sizes = length-append s.pending c in
      let buf = s.pending ++ c in
      after_cb-IsInside buf (length buf % 2 ^ 16) (cb buf (length buf % 2 ^ 16) s.user) t
        (leaves buf (length buf % 2 ^ 16) s.user) (omega arith) e

  -- With a callback that leaves no more bytes than it was given, and with a recv that returns no more
  -- than it was asked for: after every number of rounds the bytes that are left lie in the buffer,
  -- and the rounds are those of the socket's receive callback. When no more bytes are there, it ends
  -- without an error where the buffer has room; a buffer that is full it takes for the end of the
  -- stream, and calls the error callback with 0.
  pub Rounds-IsInside :
      {s t : Socket S} {cs : List (List ℕ)}
      → IsInside s
      → Rounds cb s cs t
      → IsInside t
        × (recv_cb (some cb) (map got cs ++ nothing_there t ∷ []) s ≡ some (t, error_then t))
  unfolding recv_cb Option.bind
  Rounds-IsInside {t = t} h no_more = elim (Bool-cases (is_full t)) [
    | inl z ↦ (h, rw z refl)
    | inr z ↦ (h, rw z refl)
  ]
  Rounds-IsInside h (round c z k e rest) =
      let (inside, goes_on) = Rounds-IsInside (on_bytes-IsInside c _ _ h k e) rest in
      (inside, rw e goes_on)
