-- ===== src/Session/Errors.antt =====
-- What is left of a message that a session refuses.
use basicmatch.Base.{Bool, true, false, List, ◌≡◌, arith}
use basicmatch.Session.State.{Msgpack, Session, Outcome, returned, threw, undefined, running, User}
use basicmatch.Session.Packing.{MsgCode, welcome, goodbye_code, result}
use basicmatch.Session.Registers.{subscribed, registered, error}
use basicmatch.Session.Calls.{event, invoked}
use basicmatch.Session.Handlers.{handle_code}

-- Where the call threw, the session is as it was.
abbrev pub IsAtomic : {C A : Type 0} → Session C → Outcome C A → Type 0
IsAtomic s (returned a t) = Unit
IsAtomic s (threw e t) = t ≡ s
IsAtomic s undefined = Unit
IsAtomic s running = Unit

-- The codes of the handlers that change the session before they are through with the message, or
-- run the user's code outside a try.
abbrev pub is_careful : MsgCode → Bool
is_careful welcome = false
is_careful goodbye_code = false
is_careful result = false
is_careful _ = true

module _ {O C : Type 0} (mp : Msgpack O) (user : User O C) where
  subscribed-IsAtomic : (msg : List O) (s : Session C) → IsAtomic s (subscribed mp msg s)
  unfolding subscribed
  subscribed-IsAtomic msg s = ground arith

  registered-IsAtomic : (msg : List O) (s : Session C) → IsAtomic s (registered mp msg s)
  unfolding registered
  registered-IsAtomic msg s = ground arith

  error-IsAtomic : (msg : List O) (s : Session C) → IsAtomic s (error mp msg s)
  unfolding error
  error-IsAtomic msg s = ground arith

  event-IsAtomic : (msg : List O) (s : Session C) → IsAtomic s (event mp user msg s)
  unfolding event
  event-IsAtomic msg s = ground arith

  invoked-IsAtomic : (msg : List O) (s : Session C) → IsAtomic s (invoked mp user msg s)
  unfolding invoked
  invoked-IsAtomic msg s = ground arith

  -- A message that a session refuses by an exception leaves its registers, its buffer and all else as
  -- they were, whatever the message's elements are, for every code but WELCOME, GOODBYE and RESULT.
  pub handle_code-IsAtomic :
      (c : MsgCode) (msg : List O) (s : Session C)
      → is_careful c ≡ true
      → IsAtomic s (handle_code mp user c msg s)
  unfolding handle_code
  handle_code-IsAtomic c msg s h = grind (
    arith,
    subscribed-IsAtomic msg s,
    registered-IsAtomic msg s,
    error-IsAtomic msg s,
    event-IsAtomic msg s,
    invoked-IsAtomic msg s,
  )
