-- ===== src/Session/Run.antt =====
-- A session's life: what the program asks of it and what it receives, one after the other.
use basicmatch.Base.{List, [], ◌∷◌, Option, none, some, Text}
use basicmatch.Session.State.{
  Msgpack, Kwargs, Endpoint, Session, Outcome, returned, threw, undefined, running, Action, User,
}
use basicmatch.Session.Requests.{
  join, leave, stop_session, subscribe, call_kwargs, publish_kwargs, provide,
}
use basicmatch.Session.Handlers.{handle_msg}

-- Calls and publications without keyword arguments, or without arguments, are those with none.
pub data Input (O C : Type 0) : Type 0 where
  joined : Input O C
  left : Text → Input O C
  stopping : Input O C
  subscribing : Text → C → Input O C
  calling : Text → List O → Kwargs O → C → Input O C
  publishing : Text → List O → Kwargs O → Input O C
  providing : Text → Endpoint C → Input O C
  received : O → Input O C

-- The state after a call that came back, by a throw or not. The program catches what is thrown.
abbrev pub state_after : {C A : Type 0} → Outcome C A → Option (Session C)
state_after (returned a s) = some s
state_after (threw e s) = some s
state_after undefined = none
state_after running = none

module _ {O C : Type 0} (mp : Msgpack O) (user : User O C) where
  unfoldable pub step : Input O C → Action C (Unit {0})
  unfolding join leave stop_session subscribe call_kwargs publish_kwargs provide handle_msg
  step joined = join mp
  step (left why) = leave mp why
  step stopping = stop_session
  step (subscribing topic cb) = subscribe mp topic cb
  step (calling rp args kw cb) = call_kwargs mp rp args kw cb
  step (publishing topic args kw) = publish_kwargs mp topic args kw
  step (providing procedure e) = provide mp procedure e
  step (received obj) = handle_msg mp user obj

  unfoldable pub run : List (Input O C) → Session C → Option (Session C)
  unfolding step
  run [] s = some s
  run (i ∷ is) s = elim (state_after (step i s)) [ none ↦ none | some s' ↦ run is s' ]
