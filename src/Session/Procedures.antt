-- ===== src/Session/Procedures.antt =====
-- From providing a procedure to the answers to its invocations.
use basicmatch.Base.{
  ℕ, false, List, [], ◌∷◌, ◌==◌, ◌≡◌, ◌∙◌, none, some, IdMap, put, erase, Text, arith, ap, refl,
}
use basicmatch.Session.State.{
  Msgpack, Packed, pack_array, pack_map, pack_int, pack_uint64, pack_str, pack_object, emplace,
  array, dictionary, Kwargs, Endpoint, endpoint, Session, returned, threw, Error, User, Action,
  catch_all,
}
use basicmatch.Session.Packing.{next_request_id, pack_all, send_buffer}
use basicmatch.Session.Overloads.{with_message, send_buffer-with_message}
use basicmatch.Session.Requests.{provide}
use basicmatch.Session.Registers.{registered}
use basicmatch.Session.Calls.{invoked, invoke, yield_header}
use basicmatch.Session.Subscriptions.{IsId, emplace_self, erase_self}

put_self : {V : Type 0} (k : ℕ) (v : V) (m : IdMap V) → put k v m k ≡ some v
put_self k v m = ground arith

-- [REGISTER, Request|id, Options|dict, Procedure|uri]
abbrev pub registration_of : {O : Type 0} → ℕ → Text → List (Packed O)
registration_of request procedure =
    pack_array 4 ∷ pack_int 64 ∷ pack_uint64 request ∷ pack_map 0 ∷ pack_str procedure ∷ []

module _ {O C : Type 0} (mp : Msgpack O) where
  -- A session that has asked for a procedure's registration, and one that has got the answer.
  abbrev pub offered : Text → Endpoint C → Session C → Session C
  offered procedure e s = with_message mp (registration_of s.request_id procedure) (record s {
    request_id = next_request_id s.request_id;
    pending_procs = emplace s.request_id e s.pending_procs;
  })

  abbrev pub installed : Text → Endpoint C → ℕ → Session C → Session C
  installed procedure e id s =
      let t = offered procedure e s in
      record t { procs = put id e t.procs; pending_procs = erase s.request_id t.pending_procs }

  provide-send_buffer :
      (procedure : Text) (e : Endpoint C) (s : Session C)
      → (s.session_id == 0) ≡ false
      → provide mp procedure e s
        ≡ returned tt (
            send_buffer (record s {
              request_id = next_request_id s.request_id;
              pending_procs = emplace s.request_id e s.pending_procs;
              buf = pack_all mp (registration_of s.request_id procedure) s.buf;
            }))
  unfolding provide
  provide-send_buffer procedure e s h = ground (arith, h)

  provide-offered :
      (procedure : Text) (e : Endpoint C) (s : Session C)
      → (s.session_id == 0) ≡ false
      → s.stopped ≡ false
      → provide mp procedure e s ≡ returned tt (offered procedure e s)
  provide-offered procedure e s h k =
      provide-send_buffer procedure e s h
      ∙ ap (returned tt) (
          send_buffer-with_message mp (registration_of s.request_id procedure)
            (record s {
              request_id = next_request_id s.request_id;
              pending_procs = emplace s.request_id e s.pending_procs;
            })
            k)

  registered-pending :
      (code request registration : O) (r id : ℕ) (e : Endpoint C) (t : Session C)
      → t.leaving ≡ false
      → t.pending_procs r ≡ some e
      → IsId mp request r
      → IsId mp registration id
      → registered mp (code ∷ request ∷ registration ∷ []) t
        ≡ returned tt
            (record t { procs = put id e t.procs; pending_procs = erase r t.pending_procs })
  unfolding registered
  registered-pending code request registration r id e t h1 h2 h3 h4 =
      ground (arith, h1, h2, h3.kind, h3.value, h4.kind, h4.value)

module _ {C : Type 0} where
  catch-returned :
      (m : Action C (Unit {0})) (u v : Session C)
      → m u ≡ returned tt v
      → catch_all m u ≡ returned tt v
  catch-returned m u v h = ground (arith, h)

  catch-threw :
      (m : Action C (Unit {0})) (u v : Session C) (e : Error)
      → m u ≡ threw e v
      → catch_all m u ≡ returned tt v
  catch-threw m u v e h = ground (arith, h)

module _ {O C : Type 0} (mp : Msgpack O) (user : User O C) where
  -- The session while the user's code runs: [YIELD, Request|id, Options|dict, [ is packed.
  abbrev pub begun : ℕ → Session C → Session C
  begun call u = record u {
    buf =
        pack_all mp (pack_array 4 ∷ pack_int 70 ∷ pack_uint64 call ∷ pack_map 0 ∷ pack_array 1 ∷ [])
          u.buf;
  }

  packed : ℕ → Session C → Session C
  packed call u = record u {
    buf = pack_all mp (pack_array 1 ∷ []) (pack_all mp (yield_header 4 call) u.buf);
  }

  packed-begun : (call : ℕ) (u : Session C) → packed call u ≡ begun call u
  unfolding packed pack_all yield_header
  packed-begun call u = refl

  invoke-returned :
      (call : ℕ) (c : C) (args : List O) (kw : Kwargs O) (o : O) (u v : Session C)
      → user.on_call c args kw (packed call u) ≡ returned o v
      → invoke mp user call (endpoint c) args kw u
        ≡ returned tt (send_buffer (record v { buf = pack_all mp (pack_object o ∷ []) v.buf }))
  unfolding invoke packed
  invoke-returned call c args kw o u v h = ground (arith, h)

  invoke-threw :
      (call : ℕ) (c : C) (args : List O) (kw : Kwargs O) (error : Error) (u v : Session C)
      → user.on_call c args kw (packed call u) ≡ threw error v
      → invoke mp user call (endpoint c) args kw u ≡ threw error v
  unfolding invoke packed
  invoke-threw call c args kw error u v h = ground (arith, h)

  invoked-found :
      (code request registration details args : O) (call id : ℕ) (e : Endpoint C)
      (raw_args : List O) (u : Session C)
      → u.procs id ≡ some e
      → IsId mp request call
      → IsId mp registration id
      → mp.type_of details ≡ dictionary
      → mp.type_of args ≡ array
      → mp.as_vector args ≡ some raw_args
      → invoked mp user (code ∷ request ∷ registration ∷ details ∷ args ∷ []) u
        ≡ catch_all (invoke mp user call e raw_args []) u
  unfolding invoked
  invoked-found code request registration details args call id e raw_args u h1 h2 h3 h4 h5 h6 =
      ground (arith, h1, h2.kind, h2.value, h3.kind, h3.value, h4, h5, h6)

  -- On a session that has been joined, is not stopped and not being left, with no registration
  -- pending under its next request id: providing a procedure with an endpoint_t hands a REGISTER to
  -- the socket, the server's answer makes the endpoint the procedure `id` and ends the wait, and an
  -- invocation of `id` with Arguments runs the endpoint with them, when the buffer has the header of
  -- a YIELD for the invocation. Where the endpoint returns an object, and leaves a session that is
  -- not stopped, what it left in the buffer with the object behind it is handed to the socket.
  pub invoked-provide :
      (procedure : Text) (c : C) (s v : Session C)
      (code request registration call_code call details args o : O) (id call_id : ℕ)
      (raw_args : List O)
      → (s.session_id == 0) ≡ false
      → s.stopped ≡ false
      → s.leaving ≡ false
      → s.pending_procs s.request_id ≡ none
      → IsId mp request s.request_id
      → IsId mp registration id
      → IsId mp call call_id
      → mp.type_of details ≡ dictionary
      → mp.type_of args ≡ array
      → mp.as_vector args ≡ some raw_args
      → user.on_call c raw_args [] (begun call_id (installed mp procedure (endpoint c) id s))
        ≡ returned o v
      → v.stopped ≡ false
      → let t = offered mp procedure (endpoint c) s in
        let u = installed mp procedure (endpoint c) id s in
        (provide mp procedure (endpoint c) s ≡ returned tt t)
        × (registered mp (code ∷ request ∷ registration ∷ []) t ≡ returned tt u)
        × (u.pending_procs s.request_id ≡ none)
        × (u.procs id ≡ some (endpoint c))
        × (invoked mp user (call_code ∷ call ∷ registration ∷ details ∷ args ∷ []) u
            ≡ returned tt (with_message mp (pack_object o ∷ []) v))
  invoked-provide procedure c s v code request registration call_code call details args o id call_id
        raw_args joined runs stays new_request is_request is_registration is_call k1 k2 k3 user_code
        still =
      let t = offered mp procedure (endpoint c) s in
      let u = installed mp procedure (endpoint c) id s in
      let found = put_self id (endpoint c) s.procs in
      (
        provide-offered mp procedure (endpoint c) s joined runs,
        registered-pending mp code request registration s.request_id id (endpoint c) t stays
            (emplace_self s.request_id (endpoint c) s.pending_procs new_request) is_request
            is_registration,
        erase_self s.request_id t.pending_procs,
        found,
        invoked-found call_code call registration details args call_id id (endpoint c) raw_args u
              found is_call is_registration k1 k2 k3
            ∙ catch-returned (invoke mp user call_id (endpoint c) raw_args []) u _ (
                invoke-returned call_id c raw_args [] o u v
                  (ap (user.on_call c raw_args []) (packed-begun call_id u) ∙ user_code))
            ∙ ap (returned tt) (send_buffer-with_message mp (pack_object o ∷ []) v still),
      )

  -- An invocation with Arguments of an endpoint_t that throws: where the
  -- endpoint leaves the session as it got it, the exception is caught, nothing is handed to the
  -- socket, and the buffer is left with the begun YIELD behind what it held: the array of four, the
  -- code, the request id, the options and the head of the arguments.
  pub invoked-threw :
      (c : C) (code call registration details args : O) (id call_id : ℕ) (raw_args : List O)
      (u : Session C) (error : Error)
      → u.procs id ≡ some (endpoint c)
      → IsId mp call call_id
      → IsId mp registration id
      → mp.type_of details ≡ dictionary
      → mp.type_of args ≡ array
      → mp.as_vector args ≡ some raw_args
      → user.on_call c raw_args [] (begun call_id u) ≡ threw error (begun call_id u)
      → invoked mp user (code ∷ call ∷ registration ∷ details ∷ args ∷ []) u
        ≡ returned tt (record u {
          buf =
              pack_all mp
                (pack_array 4 ∷ pack_int 70 ∷ pack_uint64 call_id ∷ pack_map 0 ∷ pack_array 1 ∷ [])
                u.buf;
        })
  invoked-threw c code call registration details args id call_id raw_args u error h1 h2 h3 h4 h5 h6
        h7 =
      invoked-found code call registration details args call_id id (endpoint c) raw_args u h1 h2 h3
        h4 h5 h6
      ∙ catch-threw (invoke mp user call_id (endpoint c) raw_args []) u (begun call_id u) error (
          invoke-threw call_id c raw_args [] error u (begun call_id u)
            (ap (user.on_call c raw_args []) (packed-begun call_id u) ∙ h7))
