-- ===== src/Session/Handlers.antt =====
-- ls_autobahn.cpp: what a session does with a message that it receives.
use basicmatch.Base.{not, List, Option, none, some, Text, codes, empty_map, length, ◌==◌}
use basicmatch.Session.Branch.{if_some}
use basicmatch.Session.State.{
  positive_integer, array, Msgpack, Session, protocol_error, Action, User, pure, raise, when, gets,
  modify, require, or_undefined, ◌>>=◌, ◌>>◌,
}
use basicmatch.Session.Packing.{
  MsgCode, hello, welcome, abort, challenge, authenticate, goodbye_code, heartbeat, error_code,
  publish_code, published, subscribe_code, subscribed_code, unsubscribe, unsubscribed, event_code,
  call_code, cancel_code, result, register, registered_code, unregister, unregistered, invocation,
  interrupt, yield, all_codes, pack, send,
}
use basicmatch.Session.Requests.{goodbye_message}
use basicmatch.Session.Checks.{find_code, get_elem?, is_type, checked, converted}
use basicmatch.Session.Registers.{subscribed, registered, error}
use basicmatch.Session.Calls.{event, call_result, invoked}

-- session::clear
unfoldable pub clear : {C : Type 0} → Session C → Session C
clear s = record s {
  session_id = 0;
  pending_subscriptions = empty_map;
  subscriptions = empty_map;
  calls = empty_map;
  pending_procs = empty_map;
  procs = empty_map;
}

module _ {O C : Type 0} (mp : Msgpack O) (user : User O C) where
  unfoldable pub goodbye : List O → Action C (Unit {0})
  unfolding goodbye_message clear
  goodbye msg = do
    is_leaving ← gets (λ s. s.leaving)
    when (not is_leaving) (pack mp (goodbye_message (codes "wamp.error.goodbye_and_out")) >> send)
    why ← or_undefined (get_elem? msg 2)
    txt ← converted (mp.as_string why)
    secb ← gets (λ s. s.secb)
    user.on_end secb txt
    modify clear

  unfoldable pub welcomed : List O → Action C (Unit {0})
  welcomed msg = do
    session ← or_undefined (get_elem? msg 1)
    id ← converted (mp.as_uint64 session)
    modify (λ s. record s { session_id = id })
    jcb ← gets (λ s. s.jcb)
    if_some jcb (λ cb. user.on_join cb id) (pure tt)

  abbrev pub unexpected : Text → Action C (Unit {0})
  unexpected text = raise (protocol_error text)

  -- The cases of the switch.
  unfoldable pub handle_code : MsgCode → List O → Action C (Unit {0})
  unfolding goodbye welcomed subscribed registered error event call_result invoked
  handle_code hello msg =
      unexpected (codes "received HELLO message unexpected for WAMP client roles")
  handle_code welcome msg = welcomed msg
  handle_code abort msg = pure tt
  handle_code challenge msg = unexpected (codes "received CHALLENGE message - not implemented")
  handle_code authenticate msg =
      unexpected (codes "received AUTHENTICATE message unexpected for WAMP client roles")
  handle_code goodbye_code msg = goodbye msg
  handle_code heartbeat msg = pure tt
  handle_code error_code msg = error mp msg
  handle_code publish_code msg =
      unexpected (codes "received PUBLISH message unexpected for WAMP client roles")
  handle_code published msg = pure tt
  handle_code subscribe_code msg =
      unexpected (codes "received SUBSCRIBE message unexpected for WAMP client roles")
  handle_code subscribed_code msg = subscribed mp msg
  handle_code unsubscribe msg =
      unexpected (codes "received UNSUBSCRIBE message unexpected for WAMP client roles")
  handle_code unsubscribed msg = pure tt
  handle_code event_code msg = event mp user msg
  handle_code call_code msg =
      unexpected (codes "received CALL message unexpected for WAMP client roles")
  handle_code cancel_code msg =
      unexpected (codes "received CANCEL message unexpected for WAMP client roles")
  handle_code result msg = call_result mp user msg
  handle_code register msg =
      unexpected (codes "received REGISTER message unexpected for WAMP client roles")
  handle_code registered_code msg = registered mp msg
  handle_code unregister msg =
      unexpected (codes "received UNREGISTER message unexpected for WAMP client roles")
  handle_code unregistered msg = pure tt
  handle_code invocation msg = invoked mp user msg
  handle_code interrupt msg = unexpected (codes "received INTERRUPT message - not implemented")
  handle_code yield msg =
      unexpected (codes "received YIELD message unexpected for WAMP client roles")

  -- A code without an enumerator passes the switch.
  unfoldable pub dispatch : Option MsgCode → List O → Action C (Unit {0})
  unfolding handle_code
  dispatch none msg = pure tt
  dispatch (some c) msg = handle_code c msg

  unfoldable pub handle_msg : O → Action C (Unit {0})
  unfolding dispatch
  handle_msg obj = do
    require (is_type mp array obj) (codes "invalid message structure - message is not an array")
    msg ← converted (mp.as_vector obj)
    require (not (length msg == 0)) (codes "invalid message structure - missing message code")
    first ← checked mp 0 positive_integer (codes "invalid message code type - not an integer") msg
    code ← converted (mp.as_int first)
    dispatch (find_code all_codes code) msg
