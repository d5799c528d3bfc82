-- ===== src/Session/Calls.antt =====
-- ls_autobahn.cpp: the messages that run the user's code.
use basicmatch.Base.{ℕ, ◌||◌, List, [], ◌∷◌, codes, length, ◌==◌, ltb}
use basicmatch.Session.Branch.{if◌then◌else◌, if_some, if_any}
use basicmatch.Session.State.{
  positive_integer, array, dictionary, Msgpack, Packed, pack_array, pack_map, pack_int, pack_uint64,
  pack_object, Kwargs, Endpoint, endpoint, endpoint_v, endpoint_m, endpoint_vm, Action, User, pure,
  gets, require, or_undefined, catch_all, ◌>>=◌, ◌>>◌,
}
use basicmatch.Session.Packing.{yield, code_value, pack_vec, pack_kwargs, pack, send}
use basicmatch.Session.Checks.{get_elem?, or_bogus, checked, converted}

-- [YIELD, INVOCATION.Request|id, Options|dict, ...]: the header is packed before the call.
unfoldable pub yield_header : {O : Type 0} → ℕ → ℕ → List (Packed O)
yield_header size request_id =
    pack_array size ∷ pack_int (code_value yield) ∷ pack_uint64 request_id ∷ pack_map 0 ∷ []

-- EVENT and INVOCATION messages: with Arguments|list, and with ArgumentsKw|dict.
module _ {O C : Type 0} (mp : Msgpack O) where
  unfoldable pub event_kwargs : List O → Action C (Kwargs O)
  event_kwargs msg =
      if ltb 5 (length msg)
      then (do
        kw ←
            checked mp 5 dictionary
              (codes "invalid EVENT message structure - EVENT.Arguments must be a list") msg
        converted (mp.as_kwargs kw))
      else pure []

  unfoldable pub event_arguments : List O → Action C (List O × Kwargs O)
  unfolding event_kwargs
  event_arguments msg =
      if ltb 4 (length msg)
      then (do
        args ←
            checked mp 4 array
              (codes "invalid EVENT message structure - EVENT.Arguments must be a list") msg
        raw_args ← converted (mp.as_vector args)
        raw_kwargs ← event_kwargs msg
        pure (raw_args, raw_kwargs))
      else pure ([], [])

  unfoldable pub invoked_kwargs : List O → Action C (Kwargs O)
  invoked_kwargs msg =
      if ltb 5 (length msg)
      then (do kw ← or_undefined (get_elem? msg 5); converted (mp.as_kwargs kw))
      else pure []

  unfoldable pub invoked_arguments : List O → Action C (List O × Kwargs O)
  unfolding invoked_kwargs
  invoked_arguments msg =
      if ltb 4 (length msg)
      then (do
        args ←
            checked mp 4 array
              (codes "invalid INVOCATION message structure - INVOCATION.Arguments must be a list")
              msg
        raw_args ← converted (mp.as_vector args)
        raw_kwargs ← invoked_kwargs msg
        pure (raw_args, raw_kwargs))
      else pure ([], [])

  -- What a RESULT's callback is called with: the first of YIELD.Arguments, or object().
  unfoldable pub result_argument : List O → Action C O
  result_argument msg =
      if ltb 3 (length msg)
      then (do
        args ←
            checked mp 3 array
              (codes "invalid RESULT message structure - YIELD.Arguments must be a list") msg
        raw_args ← converted (mp.as_vector args)
        if_any raw_args pure (pure mp.nil))
      else pure mp.nil

module _ {O C : Type 0} (mp : Msgpack O) (user : User O C) where
  -- An EVENT without a subscription is skipped. What a handler throws is caught.
  unfoldable pub event : List O → Action C (Unit {0})
  unfolding event_arguments
  event msg = do
    is_leaving ← gets (λ s. s.leaving)
    if is_leaving then pure tt else do
      require ((length msg == 4) || (length msg == 5) || (length msg == 6))
          (codes "invalid EVENT message structure - length must be 4, 5 or 6")
      subscription ←
          checked mp 1 positive_integer
            (codes "invalid EVENT message structure - SUBSCRIBED.Subscription must be an integer")
            msg
      subscription_id ← converted (mp.as_uint64 subscription)
      found ← gets (λ s. s.subscriptions subscription_id)
      if_some found
          (λ cb. do
            publication ←
                checked mp 2 positive_integer
                  (codes
                    "invalid EVENT message structure - PUBLISHED.Publication|id must be an integer")
                  msg
            details ←
                checked mp 3 dictionary
                  (codes "invalid EVENT message structure - Details must be a dictionary") msg
            (args, kw) ← event_arguments mp msg
            catch_all (user.on_event cb args kw))
          (pure tt)

  unfoldable pub call_result : List O → Action C (Unit {0})
  unfolding result_argument
  call_result msg = do
    is_leaving ← gets (λ s. s.leaving)
    if is_leaving then pure tt else do
      require ((length msg == 3) || (length msg == 4) || (length msg == 5))
          (codes "invalid RESULT message structure - length must be 3, 4 or 5")
      request ←
          checked mp 1 positive_integer
            (codes "invalid RESULT message structure - CALL.Request must be an integer") msg
      request_id ← converted (mp.as_uint64 request)
      found ← gets (λ s. s.calls request_id)
      cb ← or_bogus found (codes "bogus RESULT message for non-pending request ID")
      details ←
          checked mp 2 dictionary
            (codes "invalid RESULT message structure - Details must be a dictionary") msg
      argument ← result_argument mp msg
      user.on_result cb argument

  unfoldable pub invoke : ℕ → Endpoint C → List O → Kwargs O → Action C (Unit {0})
  unfolding yield_header pack_vec pack_kwargs
  invoke request_id (endpoint c) args kw = do
    pack mp (yield_header 4 request_id)
    pack mp (pack_array 1 ∷ [])
    o ← user.on_call c args kw
    pack mp (pack_object o ∷ [])
    send
  invoke request_id (endpoint_v c) args kw = do
    pack mp (yield_header 4 request_id)
    os ← user.on_call_v c args kw
    pack mp (pack_vec os)
    send
  invoke request_id (endpoint_m c) args kw = do
    pack mp (yield_header 5 request_id)
    pack mp (pack_array 0 ∷ [])
    m ← user.on_call_m c args kw
    pack mp (pack_kwargs m)
    send
  invoke request_id (endpoint_vm c) args kw = do
    pack mp (yield_header 5 request_id)
    (os, m) ← user.on_call_vm c args kw
    pack mp (pack_vec os)
    pack mp (pack_kwargs m)
    send

  unfoldable pub invoked : List O → Action C (Unit {0})
  unfolding invoked_arguments invoke
  invoked msg = do
    require ((length msg == 4) || (length msg == 5) || (length msg == 6))
        (codes "invalid INVOCATION message structure - length must be 4, 5 or 6")
    request ←
        checked mp 1 positive_integer
          (codes "invalid INVOCATION message structure - INVOCATION.Request must be an integer") msg
    request_id ← converted (mp.as_uint64 request)
    registration ←
        checked mp 2 positive_integer
          (codes
            "invalid INVOCATION message structure - INVOCATION.Registration must be an integer")
          msg
    registration_id ← converted (mp.as_uint64 registration)
    found ← gets (λ s. s.procs registration_id)
    proc ← or_bogus found (codes "bogus INVOCATION message for non-registered registration ID")
    details ←
        checked mp 3 dictionary
          (codes "invalid INVOCATION message structure - Details must be a dictionary") msg
    (args, kw) ← invoked_arguments mp msg
    catch_all (invoke request_id proc args kw)
