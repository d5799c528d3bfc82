-- ===== src/Session/Registers.antt =====
-- ls_autobahn.cpp: the answers to subscriptions and registrations, and the errors.
use basicmatch.Base.{◌||◌, List, codes, erase, put, length, ◌==◌, ltb}
use basicmatch.Session.Branch.{if◌then◌else◌}
use basicmatch.Session.State.{
  positive_integer, str, array, dictionary, Msgpack, Action, pure, when, gets, modify, require,
  ◌>>=◌, ◌>>◌, emplace,
}
use basicmatch.Session.Packing.{call_code, code_value}
use basicmatch.Session.Checks.{is_request_type, or_bogus, checked, converted}

module _ {O C : Type 0} (mp : Msgpack O) where
  unfoldable pub subscribed : List O → Action C (Unit {0})
  subscribed msg = do
    is_leaving ← gets (λ s. s.leaving)
    if is_leaving then pure tt else do
      require (length msg == 3) (codes "invalid SUBSCRIBED message structure - length must be 3")
      request ←
          checked mp 1 positive_integer
            (codes "invalid SUBSCRIBED message structure - SUBSCRIBED.Request must be an integer")
            msg
      request_id ← converted (mp.as_uint64 request)
      found ← gets (λ s. s.pending_subscriptions request_id)
      cb ← or_bogus found (codes "bogus SUBSCRIBED message for non-pending request ID")
      sub ←
          checked mp 2 positive_integer
            (codes
              "invalid SUBSCRIBED message structure - SUBSCRIBED.Subscription must be an integer")
            msg
      subscription_id ← converted (mp.as_uint64 sub)
      modify (λ s. record s {
        subscriptions = emplace subscription_id cb s.subscriptions;
        pending_subscriptions = erase request_id s.pending_subscriptions;
      })

  unfoldable pub registered : List O → Action C (Unit {0})
  registered msg = do
    is_leaving ← gets (λ s. s.leaving)
    if is_leaving then pure tt else do
      require (length msg == 3) (codes "invalid REGISTERED message structure - length must be 3")
      request ←
          checked mp 1 positive_integer
            (codes "invalid REGISTERED message structure - REGISTERED.Request must be an integer")
            msg
      request_id ← converted (mp.as_uint64 request)
      found ← gets (λ s. s.pending_procs request_id)
      proc ← or_bogus found (codes "bogus REGISTERED message for non-pending request ID")
      registration ←
          checked mp 2 positive_integer
            (codes
              "invalid REGISTERED message structure - REGISTERED.Registration must be an integer")
            msg
      registration_id ← converted (mp.as_uint64 registration)
      modify (λ s. record s {
        procs = put registration_id proc s.procs;
        pending_procs = erase request_id s.pending_procs;
      })

  -- Arguments|list and ArgumentsKw|dict, where they are there.
  unfoldable pub error_arguments : List O → Action C (Unit {0})
  error_arguments msg = do
    when (ltb 5 (length msg)) (
        checked mp 5 array (codes "invalid ERROR message structure - Arguments must be a list") msg
        >> pure tt)
    when (ltb 6 (length msg)) (
        checked mp 6 dictionary
          (codes "invalid ERROR message structure - ArgumentsKw must be a dictionary") msg
        >> pure tt)

  -- An ERROR changes nothing: its texts go to the error stream.
  unfoldable pub error : List O → Action C (Unit {0})
  unfolding error_arguments
  error msg = do
    require ((length msg == 5) || (length msg == 6) || (length msg == 7))
        (codes "invalid ERROR message structure - length must be 5, 6 or 7")
    type ←
        checked mp 1 positive_integer
          (codes "invalid ERROR message structure - REQUEST.Type must be an integer") msg
    request_type ← converted (mp.as_int type)
    require (is_request_type request_type) (
        codes
          "invalid ERROR message - ERROR.Type must one of CALL, REGISTER, UNREGISTER, SUBSCRIBE, UNSUBSCRIBE")
    request ←
        checked mp 2 positive_integer
          (codes "invalid ERROR message structure - REQUEST.Request must be an integer") msg
    request_id ← converted (mp.as_uint64 request)
    details ←
        checked mp 3 dictionary
          (codes "invalid ERROR message structure - Details must be a dictionary") msg
    uri ← checked mp 4 str (codes "invalid ERROR message - Error must be a string (URI)") msg
    text ← converted (mp.as_string uri)
    error_arguments msg
    found ← gets (λ s. s.calls request_id)
    when (request_type == code_value call_code)
        (or_bogus found (codes "bogus ERROR message for non-pending CALL request ID") >> pure tt)
