-- ===== src/Session/Stopped.antt =====
-- What a session sends after it has been stopped.
use basicmatch.Base.{
  ℕ, true, List, [], ◌∷◌, ◌≡◌, Option, none, some, Bool-cases, Ensures, arith, inl, inr,
}
use basicmatch.Session.State.{Msgpack, Session, Outcome, returned, threw, undefined, running, User}
use basicmatch.Session.Packing.{MsgCode, send_buffer}
use basicmatch.Session.Requests.{
  join, leave, stop_session, subscribe, call_kwargs, publish_kwargs, provide,
}
use basicmatch.Session.Registers.{subscribed, registered, error}
use basicmatch.Session.Calls.{event, call_result, invoked}
use basicmatch.Session.Handlers.{goodbye, welcomed, handle_code, dispatch, handle_msg}
use basicmatch.Session.Kept.{Keeps, IsKeeping}
use basicmatch.Session.Run.{
  Input, joined, left, stopping, subscribing, calling, publishing, providing, received, state_after,
  step, run,
}

abbrev pub IsSilent : {C : Type 0} → List (List ℕ) → Session C → Type 0
IsSilent l s = (s.stopped ≡ true) × (s.sent ≡ l)

module _ {O C : Type 0} (mp : Msgpack O) (user : User O C) (l : List (List ℕ))
    (keeps : IsKeeping (IsSilent l) user) where
  subscribed-Keeps :
      (msg : List O) (s : Session C) → IsSilent l s → Keeps (IsSilent l) (subscribed mp msg s)
  unfolding subscribed
  subscribed-Keeps msg s h = ground (arith, h)

  registered-Keeps :
      (msg : List O) (s : Session C) → IsSilent l s → Keeps (IsSilent l) (registered mp msg s)
  unfolding registered
  registered-Keeps msg s h = ground (arith, h)

  error-Keeps : (msg : List O) (s : Session C) → IsSilent l s → Keeps (IsSilent l) (error mp msg s)
  unfolding error
  error-Keeps msg s h = ground (arith, h)

  event-Keeps :
      (msg : List O) (s : Session C) → IsSilent l s → Keeps (IsSilent l) (event mp user msg s)
  unfolding event
  event-Keeps msg s h = grind (arith, h, keeps.event)

  call_result-Keeps :
      (msg : List O) (s : Session C) → IsSilent l s → Keeps (IsSilent l) (call_result mp user msg s)
  unfolding call_result
  call_result-Keeps msg s h = grind (arith, h, keeps.result)

  invoked-Keeps :
      (msg : List O) (s : Session C) → IsSilent l s → Keeps (IsSilent l) (invoked mp user msg s)
  unfolding invoked send_buffer
  invoked-Keeps msg s h = grind (arith, h, keeps.call, keeps.call_v, keeps.call_m, keeps.call_vm)

  goodbye-Keeps :
      (msg : List O) (s : Session C) → IsSilent l s → Keeps (IsSilent l) (goodbye mp user msg s)
  unfolding goodbye send_buffer
  goodbye-Keeps msg s h = elim (Bool-cases s.leaving) [
    | inl z ↦ rw (goodbye, z) (grind (arith, h, keeps.end))
    | inr z ↦ rw (goodbye, z) (grind (arith, h, keeps.end))
  ]

  welcomed-Keeps :
      (msg : List O) (s : Session C) → IsSilent l s → Keeps (IsSilent l) (welcomed mp user msg s)
  unfolding welcomed
  welcomed-Keeps msg s h = grind (arith, h, keeps.join)

  dispatch-Keeps :
      (code : Option MsgCode) (msg : List O) (s : Session C)
      → IsSilent l s
      → Keeps (IsSilent l) (dispatch mp user code msg s)
  unfolding dispatch handle_code
  dispatch-Keeps code msg s h = grind (
    arith,
    h,
    subscribed-Keeps msg s h,
    registered-Keeps msg s h,
    error-Keeps msg s h,
    event-Keeps msg s h,
    call_result-Keeps msg s h,
    invoked-Keeps msg s h,
    goodbye-Keeps msg s h,
    welcomed-Keeps msg s h,
  )

  handle_msg-Keeps :
      (obj : O) (s : Session C) → IsSilent l s → Keeps (IsSilent l) (handle_msg mp user obj s)
  unfolding handle_msg
  handle_msg-Keeps obj s h = grind (arith, h, dispatch-Keeps)

  step-Keeps :
      (i : Input O C) (s : Session C) → IsSilent l s → Keeps (IsSilent l) (step mp user i s)
  unfolding step join leave stop_session subscribe call_kwargs publish_kwargs provide send_buffer
  step-Keeps (received obj) s h = handle_msg-Keeps obj s h
  step-Keeps joined s h = ground (arith, h)
  step-Keeps (left why) s h = ground (arith, h)
  step-Keeps stopping s h = ground (arith, h)
  step-Keeps (subscribing topic cb) s h = ground (arith, h)
  step-Keeps (calling rp args kw cb) s h = ground (arith, h)
  step-Keeps (publishing topic args kw) s h = ground (arith, h)
  step-Keeps (providing procedure e) s h = ground (arith, h)

  rest-Keeps :
      (is : List (Input O C)) (o : Outcome C (Unit {0}))
      → ((s : Session C) → IsSilent l s → Ensures (IsSilent l) (run mp user is s))
      → Keeps (IsSilent l) o
      → Ensures (IsSilent l) (elim (state_after o) [ none ↦ none | some s' ↦ run mp user is s' ])
  rest-Keeps is (returned a s) k h = k s h
  rest-Keeps is (threw e s) k h = k s h
  rest-Keeps is undefined k h = tt
  rest-Keeps is running k h = tt

  -- A session that is stopped stays stopped and hands nothing more to its socket, whatever the
  -- program asks of it and whatever messages it receives, with their answers, and however often it
  -- is joined again; so long as the user's callbacks keep to that.
  pub run-stop_session :
      (is : List (Input O C)) (s : Session C)
      → IsSilent l s
      → Ensures (IsSilent l) (run mp user is s)
  unfolding run
  run-stop_session [] s h = h
  run-stop_session (i ∷ is) s h =
      rest-Keeps is (step mp user i s) (run-stop_session is) (step-Keeps i s h)
