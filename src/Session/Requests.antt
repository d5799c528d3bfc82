-- ===== src/Session/Requests.antt =====
-- ls_autobahn.cpp: what the program asks of a session.
use basicmatch.Base.{ℕ, ◌+◌, Bool, true, false, List, [], ◌∷◌, Text, codes, length, ◌==◌, ltb}
use basicmatch.Session.Branch.{if◌then◌else◌}
use basicmatch.Session.State.{
  Msgpack, Packed, pack_array, pack_map, pack_int, pack_uint64, pack_str, Kwargs, Endpoint,
  no_session_error, Action, pure, raise, gets, modify, ◌>>=◌, ◌>>◌, emplace,
}
use basicmatch.Session.Packing.{
  code_value, hello, goodbye_code, subscribe_code, call_code, publish_code, register,
  next_request_id, pack_vec, pack_kwargs, pack, send,
}

-- [GOODBYE, Details|dict, Reason|uri]
unfoldable pub goodbye_message : {O : Type 0} → Text → List (Packed O)
goodbye_message why =
    pack_array 3 ∷ pack_int (code_value goodbye_code) ∷ pack_map 0 ∷ pack_str why ∷ []

unfoldable pub stop_session : {C : Type 0} → Action C (Unit {0})
stop_session = modify (λ s. record s { stopped = true })

module _ {O C : Type 0} (mp : Msgpack O) where
  unfoldable pub join : Action C (Unit {0})
  join = do
    realm ← gets (λ s. s.realm)
    pack mp (
        pack_array 3
        ∷ pack_int (code_value hello)
        ∷ pack_str realm
        ∷ pack_map 1
        ∷ pack_str (codes "roles")
        ∷ pack_map 4
        ∷ pack_str (codes "caller")
        ∷ pack_map 0
        ∷ pack_str (codes "callee")
        ∷ pack_map 0
        ∷ pack_str (codes "publisher")
        ∷ pack_map 0
        ∷ pack_str (codes "subscriber")
        ∷ pack_map 0
        ∷ [])
    send

  -- The constructor's body: join where the socket has connected.
  unfoldable pub start : Bool → Action C (Unit {0})
  unfolding join
  start connected = if connected then join else pure tt

  unfoldable pub leave : Text → Action C (Unit {0})
  unfolding goodbye_message
  leave why = do
    id ← gets (λ s. s.session_id)
    if id == 0 then raise no_session_error else do
      modify (λ s. record s { leaving = true; session_id = 0 })
      pack mp (goodbye_message why)
      send

  unfoldable pub subscribe : Text → C → Action C (Unit {0})
  subscribe topic cb = do
    id ← gets (λ s. s.session_id)
    if id == 0 then pure tt else do
      request ← gets (λ s. s.request_id)
      modify (λ s. record s {
        request_id = next_request_id request;
        pending_subscriptions = emplace request cb s.pending_subscriptions;
      })
      pack mp (
          pack_array 4
          ∷ pack_int (code_value subscribe_code)
          ∷ pack_uint64 request
          ∷ pack_map 0
          ∷ pack_str topic
          ∷ [])
      send

  -- Without a session, or with more than two additional arguments, nothing is prepared.
  unfoldable pub prepare_call : Text → ℕ → C → Action C Bool
  prepare_call rp addl cb = do
    id ← gets (λ s. s.session_id)
    if id == 0 then pure false else if ltb 2 addl then pure false else do
      request ← gets (λ s. s.request_id)
      modify (λ s. record s {
        request_id = next_request_id request;
        calls = emplace request cb s.calls;
      })
      pack mp (
          pack_array (4 + addl)
          ∷ pack_int (code_value call_code)
          ∷ pack_uint64 request
          ∷ pack_map 0
          ∷ pack_str rp
          ∷ [])
      pure true

  -- The three overloads of call.
  unfoldable pub call : Text → C → Action C (Unit {0})
  unfolding prepare_call
  call rp cb = do ready ← prepare_call rp 0 cb; if ready then send else pure tt

  unfoldable pub call_args : Text → List O → C → Action C (Unit {0})
  unfolding call prepare_call pack_vec
  call_args rp args cb = if length args == 0 then call rp cb else do
    ready ← prepare_call rp 1 cb
    if ready then pack mp (pack_vec args) >> send else pure tt

  unfoldable pub call_kwargs : Text → List O → Kwargs O → C → Action C (Unit {0})
  unfolding call_args prepare_call pack_vec pack_kwargs
  call_kwargs rp args kw cb = if length kw == 0 then call_args rp args cb else do
    ready ← prepare_call rp 2 cb
    if ready then pack mp (pack_vec args) >> pack mp (pack_kwargs kw) >> send else pure tt

  unfoldable pub prepare_publish : Text → ℕ → Action C Bool
  prepare_publish topic addl = do
    id ← gets (λ s. s.session_id)
    if id == 0 then pure false else if ltb 2 addl then pure false else do
      request ← gets (λ s. s.request_id)
      modify (λ s. record s { request_id = next_request_id request })
      pack mp (
          pack_array (4 + addl)
          ∷ pack_int (code_value publish_code)
          ∷ pack_uint64 request
          ∷ pack_map 0
          ∷ pack_str topic
          ∷ [])
      pure true

  unfoldable pub publish : Text → Action C (Unit {0})
  unfolding prepare_publish
  publish topic = do ready ← prepare_publish topic 0; if ready then send else pure tt

  unfoldable pub publish_args : Text → List O → Action C (Unit {0})
  unfolding publish prepare_publish pack_vec
  publish_args topic args = if length args == 0 then publish topic else do
    ready ← prepare_publish topic 1
    if ready then pack mp (pack_vec args) >> send else pure tt

  unfoldable pub publish_kwargs : Text → List O → Kwargs O → Action C (Unit {0})
  unfolding publish_args prepare_publish pack_vec pack_kwargs
  publish_kwargs topic args kw = if length kw == 0 then publish_args topic args else do
    ready ← prepare_publish topic 2
    if ready then pack mp (pack_vec args) >> pack mp (pack_kwargs kw) >> send else pure tt

  -- provide_impl, for an endpoint of each of the four types.
  unfoldable pub provide : Text → Endpoint C → Action C (Unit {0})
  provide procedure e = do
    id ← gets (λ s. s.session_id)
    if id == 0 then raise no_session_error else do
      request ← gets (λ s. s.request_id)
      modify (λ s. record s {
        request_id = next_request_id request;
        pending_procs = emplace request e s.pending_procs;
      })
      pack mp (
          pack_array 4
          ∷ pack_int (code_value register)
          ∷ pack_uint64 request
          ∷ pack_map 0
          ∷ pack_str procedure
          ∷ [])
      send
