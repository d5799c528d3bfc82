-- ===== src/Session/Subscriptions.antt =====
-- From a subscription to the events of its topic.
use basicmatch.Base.{
  ℕ, false, List, [], ◌∷◌, ◌==◌, ◌≡◌, none, some, Text, IdMap, erase, arith, refl,
}
use basicmatch.Session.State.{
  Msgpack, pack_array, pack_map, pack_int, pack_uint64, pack_str, emplace, positive_integer, array,
  dictionary, Kwargs, Session, returned, User, catch_all,
}
use basicmatch.Session.Packing.{code_value, subscribe_code, next_request_id, pack_all, send_buffer}
use basicmatch.Session.Requests.{subscribe}
use basicmatch.Session.Registers.{subscribed}
use basicmatch.Session.Calls.{event}

-- A positive integer of msgpack with its value.
pub record IsId {O : Type 0} (mp : Msgpack O) (o : O) (n : ℕ) : Type 0 where
  pub kind : mp.type_of o ≡ positive_integer
  pub value : mp.as_uint64 o ≡ some n

pub emplace_self :
    {V : Type 0} (k : ℕ) (v : V) (m : IdMap V) → m k ≡ none → emplace k v m k ≡ some v
emplace_self k v m h = ground (arith, h)

pub erase_self : {V : Type 0} (k : ℕ) (m : IdMap V) → erase k m k ≡ none
erase_self k m = ground arith

module _ {O C : Type 0} (mp : Msgpack O) where
  -- A session that has asked for a subscription.
  abbrev asked : Text → C → Session C → Session C
  asked topic cb s = send_buffer (record s {
    request_id = next_request_id s.request_id;
    pending_subscriptions = emplace s.request_id cb s.pending_subscriptions;
    buf =
        pack_all mp
          (pack_array 4
            ∷ pack_int (code_value subscribe_code)
            ∷ pack_uint64 s.request_id
            ∷ pack_map 0
            ∷ pack_str topic
            ∷ [])
          s.buf;
  })

  subscribe-asked :
      (topic : Text) (cb : C) (s : Session C)
      → (s.session_id == 0) ≡ false
      → subscribe mp topic cb s ≡ returned tt (asked topic cb s)
  unfolding subscribe
  subscribe-asked topic cb s h = rw h refl

  subscribed-pending :
      (code request sub : O) (r id : ℕ) (cb : C) (t : Session C)
      → t.leaving ≡ false
      → t.pending_subscriptions r ≡ some cb
      → IsId mp request r
      → IsId mp sub id
      → subscribed mp (code ∷ request ∷ sub ∷ []) t
        ≡ returned tt (record t {
          subscriptions = emplace id cb t.subscriptions;
          pending_subscriptions = erase r t.pending_subscriptions;
        })
  unfolding subscribed
  subscribed-pending code request sub r id cb t h1 h2 h3 h4 =
      ground (arith, h1, h2, h3.kind, h3.value, h4.kind, h4.value)

module _ {O C : Type 0} (mp : Msgpack O) (user : User O C) where
  event-known :
      (code sub publication details args kw : O) (id : ℕ) (cb : C) (u : Session C)
      (raw_args : List O) (raw_kwargs : Kwargs O)
      → u.leaving ≡ false
      → u.subscriptions id ≡ some cb
      → IsId mp sub id
      → mp.type_of publication ≡ positive_integer
      → mp.type_of details ≡ dictionary
      → mp.type_of args ≡ array
      → mp.as_vector args ≡ some raw_args
      → mp.type_of kw ≡ dictionary
      → mp.as_kwargs kw ≡ some raw_kwargs
      → event mp user (code ∷ sub ∷ publication ∷ details ∷ args ∷ kw ∷ []) u
        ≡ catch_all (user.on_event cb raw_args raw_kwargs) u
  unfolding event
  event-known code sub publication details args kw id cb u raw_args raw_kwargs h1 h2 h3 h4 h5 h6 h7
        h8 h9 =
      ground (arith, h1, h2, h3.kind, h3.value, h4, h5, h6, h7, h8, h9)

  -- On a session that has been joined and is not being left, with no subscription pending under its
  -- next request id and none known by `id`: the server's answer to a subscription, with that request
  -- id, makes the callback the one of subscription `id` and ends the wait, and an event for `id` runs
  -- the callback once with the event's arguments, whatever it throws.
  pub event-subscribe :
      (topic : Text) (cb : C) (s : Session C) (code request sub publication details args kw : O)
      (id : ℕ) (raw_args : List O) (raw_kwargs : Kwargs O)
      → (s.session_id == 0) ≡ false
      → s.leaving ≡ false
      → s.pending_subscriptions s.request_id ≡ none
      → s.subscriptions id ≡ none
      → IsId mp request s.request_id
      → IsId mp sub id
      → mp.type_of publication ≡ positive_integer
      → mp.type_of details ≡ dictionary
      → mp.type_of args ≡ array
      → mp.as_vector args ≡ some raw_args
      → mp.type_of kw ≡ dictionary
      → mp.as_kwargs kw ≡ some raw_kwargs
      → (t u : Session C) × (subscribe mp topic cb s ≡ returned tt t)
        × (subscribed mp (code ∷ request ∷ sub ∷ []) t ≡ returned tt u)
        × (u.pending_subscriptions s.request_id ≡ none)
        × (event mp user (code ∷ sub ∷ publication ∷ details ∷ args ∷ kw ∷ []) u
            ≡ catch_all (user.on_event cb raw_args raw_kwargs) u)
  unfolding send_buffer
  event-subscribe topic cb s code request sub publication details args kw id raw_args raw_kwargs
        joined stays new_request new_id is_request is_sub k1 k2 k3 k4 k5 k6 =
      let t = asked mp topic cb s in
      let u : Session C = record t {
        subscriptions = emplace id cb t.subscriptions;
        pending_subscriptions = erase s.request_id t.pending_subscriptions;
      } in
      (
        t,
        u,
        subscribe-asked mp topic cb s joined,
        subscribed-pending mp code request sub s.request_id id cb t stays
            (emplace_self s.request_id cb s.pending_subscriptions new_request) is_request is_sub,
        erase_self s.request_id t.pending_subscriptions,
        event-known code sub publication details args kw id cb u raw_args raw_kwargs stays
            (emplace_self id cb s.subscriptions new_id) is_sub k1 k2 k3 k4 k5 k6,
      )
