-- ===== src/Session/Frames.antt =====
-- The frames that a session sends, as another session receives them.
use basicmatch.Base.{
  take-length, take-append, ℕ, zero, suc, ◌+◌, ◌-◌, ◌%◌, ◌^◌, ◌<◌, ◌≡◌, ◌∙◌, List, [], ◌∷◌, ◌++◌,
  length, map, drop, length-append, false, ltb, refl, sym, ap, arith, Bool-cases, inl, inr, All,
  some,
}
use basicmatch.Session.Buffer.{Buffer, serial, data_size, serial_size, htonl, ntohl, tcp_send}
use basicmatch.Session.State.{
  Msgpack, Session, Action, User, returned, threw, undefined, running, pure, gets, ◌>>=◌, ◌>>◌,
}
use basicmatch.Session.Branch.{if◌then◌else◌}
use basicmatch.Session.Rounds.{recv_cb-whole}
use basicmatch.Session.Receive.{memory, parse_msg, recv_cb}

ntohl-htonl : (n : ℕ) → n < 2 ^ 32 → ntohl (htonl n) ≡ n
unfolding ntohl htonl
ntohl-htonl n h = omega arith

memory-append : (xs ys : List ℕ) → memory (length xs) (xs ++ ys) ≡ some xs
unfolding memory
memory-append xs ys =
    let sizes = length-append xs ys in
    let inside : ltb (length (xs ++ ys)) (length xs) ≡ false = ground arith in
    rw (memory, inside, take-append xs ys) refl

drop-size : (xs ys : List ℕ) (k : ℕ) → k ≡ length xs → drop k (xs ++ ys) ≡ ys
drop-size [] ys zero e = refl
drop-size [] ys (suc k) e = absurd (omega arith)
drop-size (x ∷ xs) ys zero e = absurd (omega arith)
drop-size (x ∷ xs) ys (suc k) e = drop-size xs ys k (omega arith)

-- A message of a session's buffer that TcpSocket::send hands over whole.
abbrev pub frame : List ℕ → List ℕ
frame body = htonl (length body) ++ body

-- The frames of bodies, and their sizes.
abbrev pub frames : List (List ℕ) → List ℕ
frames [] = []
frames (body ∷ bodies) = frame body ++ frames bodies

length-map : {A B : Type 0} (f : A → B) (xs : List A) → length (map f xs) ≡ length xs
length-map f [] = refl
length-map f (x ∷ xs) = omega (arith, length-map f xs)

length-frame : (body rest : List ℕ) → length (frame body ++ rest) ≡ 4 + (length body + length rest)
unfolding htonl
length-frame body rest = let sizes = length-append body rest in omega arith

pub tcp_send-frame :
    (b : Buffer) → serial_size b < 2 ^ 16 → tcp_send (serial b) (serial_size b) ≡ frame b.bytes
unfolding tcp_send serial htonl
tcp_send-frame b h =
    let small : serial_size b % 2 ^ 16 ≡ serial_size b = omega arith in
    let four : 4 + length b.bytes ≡ suc (suc (suc (suc (length b.bytes)))) = omega arith in
    let len : data_size b ≡ length b.bytes = omega arith in
    rw (small, len, four, take-length b.bytes) refl

-- What sends of these buffers hand over, one behind the other.
abbrev pub sent_bytes : List Buffer → List ℕ
sent_bytes [] = []
sent_bytes (b ∷ bs) = tcp_send (serial b) (serial_size b) ++ sent_bytes bs

-- A message that fits the uint16_t of a send.
abbrev pub IsSmall : Buffer → Type 0
IsSmall b = serial_size b < 2 ^ 16

sent_bytes-frames :
    (bs : List Buffer) → All IsSmall bs → sent_bytes bs ≡ frames (map (λ b. b.bytes) bs)
sent_bytes-frames [] h = refl
sent_bytes-frames (b ∷ bs) h = rw (tcp_send-frame b h.0, sent_bytes-frames bs h.1) refl

module _ {O C : Type 0} (mp : Msgpack O) (user : User O C) where
  -- The messages in turn, until one throws or the session is stopped. A session that is stopped has no
  -- bytes left.
  unfoldable pub on_frames : List (List ℕ) → Action C ℕ
  on_frames [] = pure 0
  on_frames (body ∷ bodies) = do
    stopped ← gets (λ s. s.stopped)
    if stopped then pure 0 else parse_msg mp user body (length body) >> on_frames bodies

  then-same :
      {A B : Type 0} (m : Action C A) (f g : Action C B) (s : Session C)
      → ((t : Session C) → f t ≡ g t)
      → (m >> f) s ≡ (m >> g) s
  then-same m f g s h =
      elim (m s)
        as (λ o.
          elim o [
            | returned a t ↦ f t
            | threw e t ↦ threw e t
            | undefined ↦ undefined
            | running ↦ running
          ]
          ≡ elim o [
            | returned a t ↦ g t
            | threw e t ↦ threw e t
            | undefined ↦ undefined
            | running ↦ running
          ]) [ returned a t ↦ h t | threw e t ↦ refl | undefined ↦ refl | running ↦ refl ]

  on_frames-next :
      (body : List ℕ) (bodies : List (List ℕ)) (s : Session C)
      → s.stopped ≡ false
      → on_frames (body ∷ bodies) s ≡ (parse_msg mp user body (length body) >> on_frames bodies) s
  unfolding on_frames
  on_frames-next body bodies s h = rw h refl

  recv_cb-frames :
      (bodies : List (List ℕ)) (fuel : ℕ) (s : Session C)
      → length (frames bodies) < 2 ^ 16
      → length bodies < fuel
      → recv_cb mp user fuel (frames bodies) (length (frames bodies)) s ≡ on_frames bodies s
  unfolding recv_cb on_frames htonl
  recv_cb-frames bodies zero s h f = absurd (omega arith)
  recv_cb-frames [] (suc fuel) s h f = ground (arith, s.stopped)
  recv_cb-frames (body ∷ bodies) (suc fuel) s h f = elim (Bool-cases s.stopped) [
    | inl z ↦ rw z refl
    | inr z ↦
        let more = frames bodies in
        let n = length body in
        let sizes = length-frame body more in
        let body_memory : memory n (body ++ more) ≡ some body = memory-append body more in
        let left : (length (frame body ++ more) + (2 ^ 32 - (n + 4) % 2 ^ 32)) % 2 ^ 16
            ≡ length more =
          omega arith in
        let fits : ltb (length (frame body ++ more)) n ≡ false = ground arith in
        recv_cb-whole mp user fuel (length (frame body ++ more)) n (frame body ++ more) (htonl n)
          body s z (ground arith) (memory-append (htonl n) (body ++ more))
          (ntohl-htonl n (omega arith)) fits body_memory
        ∙ then-same (parse_msg mp user body n) _ (on_frames bodies) s (λ t.
          rw (drop-size (frame body) more ((n + 4) % 2 ^ 32) (omega arith), left)
            (recv_cb-frames bodies fuel t (omega arith) (omega arith)))
        ∙ sym (on_frames-next body bodies s z)
  ]

  -- Messages that sessions have packed and sent, each short enough for the size of a send and all of
  -- them together for the count of the receiving callback: a session that receives their bytes
  -- parses each message as it was packed, one after the other, until one throws or the session is
  -- stopped, with no byte left over.
  pub recv_cb-sent_bytes :
      (bs : List Buffer) (fuel : ℕ) (s : Session C)
      → All IsSmall bs
      → length (sent_bytes bs) < 2 ^ 16
      → length bs < fuel
      → recv_cb mp user fuel (sent_bytes bs) (length (sent_bytes bs)) s
        ≡ on_frames (map (λ b. b.bytes) bs) s
  recv_cb-sent_bytes bs fuel s small h f =
      let same = sent_bytes-frames bs small in
      let count = length-map (λ (b : Buffer). b.bytes) bs in
      let lengths = ap length same in
      rw same (recv_cb-frames (map (λ b. b.bytes) bs) fuel s (omega arith) (omega arith))
