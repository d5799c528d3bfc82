-- ===== src/Session/Ends.antt =====
-- Receiving ends: no fuel runs out where msgpack goes forward and the user's code comes back.
use basicmatch.Base.{
  length-drop, ℕ, zero, suc, ◌+◌, ◌-◌, ◌%◌, ◌^◌, ◌≤◌, ◌<◌, ◌≡◌, ◌==◌, List, length, drop, false,
  Option, some, Option-cases, Bool-cases, inl, inr, arith, refl, ltb, Text,
}
use basicmatch.Session.State.{
  Msgpack, Kwargs, Session, Outcome, returned, threw, undefined, running, User, Action, ◌>>◌,
}
use basicmatch.Session.Packing.{MsgCode}
use basicmatch.Session.Registers.{subscribed, registered, error}
use basicmatch.Session.Calls.{event, call_result, invoked}
use basicmatch.Session.Handlers.{goodbye, welcomed, handle_code, dispatch, handle_msg}
use basicmatch.Session.Buffer.{ntohl}
use basicmatch.Session.Rounds.{recv_cb-whole, parse_loop-next}
use basicmatch.Session.Receive.{memory, parse_loop, parse_msg, recv_cb}

-- An outcome other than running on: a value, an exception, or undefined behaviour.
abbrev pub Ends : {C A : Type 0} → Outcome C A → Type 0
Ends (returned a s) = Unit
Ends (threw e s) = Unit
Ends undefined = Unit
Ends running = ⊥

memory-some : (n : ℕ) (buf m : List ℕ) → memory n buf ≡ some m → n ≤ length buf
unfolding memory
memory-some n buf m h = ground arith

-- The user's code comes back, with or without an exception.
pub record IsEnding {O C : Type 0} (user : User O C) : Type 0 where
  pub join : (c : C) (id : ℕ) (s : Session C) → Ends (user.on_join c id s)
  pub end : (c : C) (why : Text) (s : Session C) → Ends (user.on_end c why s)
  pub event :
      (c : C) (args : List O) (kw : Kwargs O) (s : Session C) → Ends (user.on_event c args kw s)
  pub result : (c : C) (o : O) (s : Session C) → Ends (user.on_result c o s)
  pub call :
      (c : C) (args : List O) (kw : Kwargs O) (s : Session C) → Ends (user.on_call c args kw s)
  pub call_v :
      (c : C) (args : List O) (kw : Kwargs O) (s : Session C) → Ends (user.on_call_v c args kw s)
  pub call_m :
      (c : C) (args : List O) (kw : Kwargs O) (s : Session C) → Ends (user.on_call_m c args kw s)
  pub call_vm :
      (c : C) (args : List O) (kw : Kwargs O) (s : Session C) → Ends (user.on_call_vm c args kw s)

-- What msgpack::unpack documents: an object takes at least a byte, and lies in the buffer.
pub record IsForward {O : Type 0} (mp : Msgpack O) : Type 0 where
  pub forward :
      (buf : List ℕ) (size off next : ℕ) (obj : O)
      → mp.unpack buf size off ≡ some (obj, next)
      → off < next
  pub inside :
      (buf : List ℕ) (size off next : ℕ) (obj : O)
      → mp.unpack buf size off ≡ some (obj, next)
      → next ≤ size

module _ {O C : Type 0} (mp : Msgpack O) (user : User O C) (forward : IsForward mp)
    (ending : IsEnding user) where
  subscribed-Ends : (msg : List O) (s : Session C) → Ends (subscribed mp msg s)
  unfolding subscribed
  subscribed-Ends msg s = ground arith

  registered-Ends : (msg : List O) (s : Session C) → Ends (registered mp msg s)
  unfolding registered
  registered-Ends msg s = ground arith

  error-Ends : (msg : List O) (s : Session C) → Ends (error mp msg s)
  unfolding error
  error-Ends msg s = ground arith

  event-Ends : (msg : List O) (s : Session C) → Ends (event mp user msg s)
  unfolding event
  event-Ends msg s = grind (arith, ending.event)

  call_result-Ends : (msg : List O) (s : Session C) → Ends (call_result mp user msg s)
  unfolding call_result
  call_result-Ends msg s = grind (arith, ending.result)

  invoked-Ends : (msg : List O) (s : Session C) → Ends (invoked mp user msg s)
  unfolding invoked
  invoked-Ends msg s = grind (arith, ending.call, ending.call_v, ending.call_m, ending.call_vm)

  goodbye-Ends : (msg : List O) (s : Session C) → Ends (goodbye mp user msg s)
  unfolding goodbye
  goodbye-Ends msg s = elim (Bool-cases s.leaving) [
    | inl z ↦ rw (goodbye, z) (grind (arith, ending.end))
    | inr z ↦ rw (goodbye, z) (grind (arith, ending.end))
  ]

  welcomed-Ends : (msg : List O) (s : Session C) → Ends (welcomed mp user msg s)
  unfolding welcomed
  welcomed-Ends msg s = grind (arith, ending.join)

  dispatch-Ends :
      (code : Option MsgCode) (msg : List O) (s : Session C) → Ends (dispatch mp user code msg s)
  unfolding dispatch handle_code
  dispatch-Ends code msg s = grind (
    arith,
    subscribed-Ends msg s,
    registered-Ends msg s,
    error-Ends msg s,
    event-Ends msg s,
    call_result-Ends msg s,
    invoked-Ends msg s,
    goodbye-Ends msg s,
    welcomed-Ends msg s,
  )

  handle_msg-Ends : (obj : O) (s : Session C) → Ends (handle_msg mp user obj s)
  unfolding handle_msg
  handle_msg-Ends obj s = grind (arith, dispatch-Ends)

  then-Ends :
      {A B : Type 0} (m : Action C A) (f : Action C B) (s : Session C)
      → Ends (m s)
      → ((t : Session C) → Ends (f t))
      → Ends ((m >> f) s)
  then-Ends m f s h k = grind (arith, h, k)

  parse_loop-Ends :
      (fuel : ℕ) (buf : List ℕ) (size off : ℕ) (s : Session C)
      → off ≤ size
      → size - off < fuel
      → Ends (parse_loop mp user fuel buf size off s)
  unfolding parse_loop
  parse_loop-Ends zero buf size off s h f = absurd (omega arith)
  parse_loop-Ends (suc fuel) buf size off s h f = elim (Bool-cases (off == size)) [
    | inl z ↦ rw z tt
    | inr z ↦ elim (Option-cases (mp.unpack buf size off)) [
      | inl n ↦ rw (z, n) tt
      | inr ((obj, next), k) ↦ rw (parse_loop-next mp user fuel buf size off next obj s z k) (
          then-Ends (handle_msg mp user obj) _ s (handle_msg-Ends obj s) (λ t.
            let first = forward.forward buf size off next obj k in
            let last = forward.inside buf size off next obj k in
            parse_loop-Ends fuel buf size next t last (omega arith)))
    ]
  ]

  parse_msg-Ends : (buf : List ℕ) (size : ℕ) (s : Session C) → Ends (parse_msg mp user buf size s)
  unfolding parse_msg
  parse_msg-Ends buf size s = parse_loop-Ends (suc size) buf size 0 s (omega arith) (omega arith)

  header-Ends :
      (fuel : ℕ) (buf : List ℕ) (bytes : ℕ) (header : List ℕ) (s : Session C)
      → s.stopped ≡ false
      → ltb bytes 4 ≡ false
      → memory 4 buf ≡ some header
      → bytes < 2 ^ 16
      → length buf < suc fuel
      → ((buf : List ℕ) (bytes : ℕ) (s : Session C)
          → bytes < 2 ^ 16
          → length buf < fuel
          → Ends (recv_cb mp user fuel buf bytes s))
      → Ends (recv_cb mp user (suc fuel) buf bytes s)
  unfolding recv_cb
  header-Ends fuel buf bytes header s z few k b h again =
      elim (Bool-cases (ltb bytes (ntohl header))) [
        | inl short ↦ ground (arith, z, few, k, short)
        | inr short ↦ elim (Option-cases (memory (ntohl header) (drop 4 buf))) [
          | inl n ↦ ground (arith, z, few, k, short, n)
          | inr (body, j) ↦
              let size = ntohl header in
              let used = (size + 4) % 2 ^ 32 in
              let wraps = bytes + (2 ^ 32 - used) in
              let room = memory-some 4 buf header k in
              let left = length-drop used buf in
              rw (recv_cb-whole mp user fuel bytes size buf header body s z few k refl short j) (
                then-Ends (parse_msg mp user body size) _ s (parse_msg-Ends body size s) (λ t.
                  again (drop used buf) (wraps % 2 ^ 16) t (omega arith)
                    (ground (arith, room, left))))
        ]
      ]

  -- A session's receive callback does not run on for ever, whatever bytes have come and whatever memory
  -- stands behind them in the socket's buffer, so long as msgpack's unpack goes forward inside its
  -- buffer and the user's callbacks come back: within a round for each byte of the memory it returns,
  -- throws, or reads past the end of the memory, which is undefined behaviour.
  pub recv_cb-Ends :
      (fuel : ℕ) (buf : List ℕ) (bytes : ℕ) (s : Session C)
      → bytes < 2 ^ 16
      → length buf < fuel
      → Ends (recv_cb mp user fuel buf bytes s)
  unfolding recv_cb
  recv_cb-Ends zero buf bytes s b h = absurd (omega arith)
  recv_cb-Ends (suc fuel) buf bytes s b h = elim (Bool-cases s.stopped) [
    | inl z ↦ ground (arith, z)
    | inr z ↦ elim (Bool-cases (ltb bytes 4)) [
      | inl few ↦ ground (arith, z, few)
      | inr few ↦ elim (Option-cases (memory 4 buf)) [
        | inl n ↦ ground (arith, z, few, n)
        | inr (header, k) ↦ header-Ends fuel buf bytes header s z few k b h (recv_cb-Ends fuel)
      ]
    ]
  ]
