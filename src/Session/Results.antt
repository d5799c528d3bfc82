-- ===== src/Session/Results.antt =====
-- From a call to its results.
use basicmatch.Base.{ℕ, false, List, [], ◌∷◌, ◌==◌, ◌≡◌, none, some, Text, arith}
use basicmatch.Session.State.{Msgpack, array, dictionary, Kwargs, Session, returned, User, emplace}
use basicmatch.Session.Packing.{code_value, call_code, next_request_id, pack_all, send_buffer}
use basicmatch.Session.Requests.{call_kwargs}
use basicmatch.Session.Calls.{call_result}
use basicmatch.Session.Overloads.{wamp_message, call_kwargs-send_buffer}
use basicmatch.Session.Subscriptions.{IsId, emplace_self}

module _ {O C : Type 0} (mp : Msgpack O) (user : User O C) where
  call_result-known :
      (code request details args first : O) (rest : List O) (id : ℕ) (cb : C) (u : Session C)
      → u.leaving ≡ false
      → u.calls id ≡ some cb
      → IsId mp request id
      → mp.type_of details ≡ dictionary
      → mp.type_of args ≡ array
      → mp.as_vector args ≡ some (first ∷ rest)
      → call_result mp user (code ∷ request ∷ details ∷ args ∷ []) u ≡ user.on_result cb first u
  unfolding call_result
  call_result-known code request details args first rest id cb u h1 h2 h3 h4 h5 h6 =
      ground (arith, h1, h2, h3.kind, h3.value, h4, h5, h6)

  -- On a session that has been joined and is not being left, with no call pending under its next
  -- request id: a result for the call's request id runs the callback of the call with the first of
  -- the result's arguments, and does nothing else, in the session as the call left it and in any
  -- other that has the call and is not being left. So a result does not end the call that it answers.
  pub call_result-call_kwargs :
      (rp : Text) (cb : C) (call_args : List O) (kw : Kwargs O) (s v : Session C)
      (code request details args first details2 args2 first2 : O) (rest rest2 : List O)
      → (s.session_id == 0) ≡ false
      → s.leaving ≡ false
      → s.calls s.request_id ≡ none
      → IsId mp request s.request_id
      → mp.type_of details ≡ dictionary
      → mp.type_of args ≡ array
      → mp.as_vector args ≡ some (first ∷ rest)
      → mp.type_of details2 ≡ dictionary
      → mp.type_of args2 ≡ array
      → mp.as_vector args2 ≡ some (first2 ∷ rest2)
      → v.leaving ≡ false
      → v.calls s.request_id ≡ some cb
      → (t : Session C) × (call_kwargs mp rp call_args kw cb s ≡ returned tt t)
        × (t.calls s.request_id ≡ some cb)
        × (call_result mp user (code ∷ request ∷ details ∷ args ∷ []) t ≡ user.on_result cb first t)
        × (call_result mp user (code ∷ request ∷ details2 ∷ args2 ∷ []) v
            ≡ user.on_result cb first2 v)
  unfolding send_buffer
  call_result-call_kwargs rp cb call_args kw s v code request details args first details2 args2
        first2 rest rest2 joined stays new_request is_request k1 k2 k3 k4 k5 k6 v_stays v_call =
      let t = send_buffer (record s {
        request_id = next_request_id s.request_id;
        calls = emplace s.request_id cb s.calls;
        buf = pack_all mp (wamp_message (code_value call_code) s.request_id rp call_args kw) s.buf;
      }) in
      let known = emplace_self s.request_id cb s.calls new_request in
      (
        t,
        call_kwargs-send_buffer mp rp call_args kw cb s joined,
        known,
        call_result-known code request details args first rest s.request_id cb t stays known
            is_request k1 k2 k3,
        call_result-known code request details2 args2 first2 rest2 s.request_id cb v v_stays v_call
            is_request k4 k5 k6,
      )
