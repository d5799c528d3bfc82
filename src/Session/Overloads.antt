-- ===== src/Session/Overloads.antt =====
-- The overloads of call and publish as one description of the message.
use basicmatch.Base.{
  ℕ, ◌+◌, ltb, true, false, List, length, [], ◌∷◌, ◌++◌, ◌==◌, ◌≡◌, ◌∙◌, Text, arith, refl,
}
use basicmatch.Session.Buffer.{Buffer, clear_buffer, serial, serial_size, tcp_send}
use basicmatch.Session.State.{
  Msgpack, Packed, pack_array, pack_map, pack_int, pack_uint64, pack_str, Kwargs, Session, Action,
  returned, emplace, pure, ◌>>=◌, ◌>>◌,
}
use basicmatch.Session.Branch.{if◌then◌else◌}
use basicmatch.Session.Packing.{
  code_value, call_code, next_request_id, pack_vec, pack_kwargs, write_all, pack_all, send_buffer,
  pack, send,
}
use basicmatch.Session.Requests.{prepare_call, call, call_args, call_kwargs}

-- Arguments|list is there where there are arguments of either kind, ArgumentsKw|dict where there are
-- keyword arguments.
abbrev pub argument_count : {O : Type 0} → Kwargs O → List O → ℕ
argument_count [] [] = 0
argument_count [] (o ∷ os) = 1
argument_count (p ∷ kw) args = 2

abbrev pub argument_part : {O : Type 0} → Kwargs O → List O → List (Packed O)
argument_part [] [] = []
argument_part [] (o ∷ os) = pack_vec (o ∷ os)
argument_part (p ∷ kw) args = pack_vec args ++ pack_kwargs (p ∷ kw)

-- [CALL, Request|id, Options|dict, Procedure|uri, ...] and
-- [PUBLISH, Request|id, Options|dict, Topic|uri, ...]
abbrev pub wamp_message : {O : Type 0} → ℕ → ℕ → Text → List O → Kwargs O → List (Packed O)
wamp_message code request uri args kw =
    (pack_array (4 + argument_count kw args)
      ∷ pack_int code
      ∷ pack_uint64 request
      ∷ pack_map 0
      ∷ pack_str uri
      ∷ [])
    ++ argument_part kw args

module _ {O : Type 0} (mp : Msgpack O) where
  pub pack_all-append :
      (ps qs : List (Packed O)) (b : Buffer)
      → pack_all mp (ps ++ qs) b ≡ pack_all mp qs (pack_all mp ps b)
  unfolding pack_all
  pack_all-append [] qs b = refl
  pack_all-append (p ∷ ps) qs b = pack_all-append ps qs (write_all (mp.writes p) b)

-- A session that has handed one message to its socket, packed behind what its buffer held, with the
-- size in front, and has emptied the buffer.
abbrev pub with_message : {O C : Type 0} → Msgpack O → List (Packed O) → Session C → Session C
with_message mp ps s =
    let b = pack_all mp ps s.buf in
    record s { buf = clear_buffer b; sent = s.sent ++ tcp_send (serial b) (serial_size b) ∷ [] }

module _ {O C : Type 0} (mp : Msgpack O) where
  pub send_buffer-with_message :
      (ps : List (Packed O)) (s : Session C)
      → s.stopped ≡ false
      → send_buffer (record s { buf = pack_all mp ps s.buf }) ≡ with_message mp ps s
  unfolding send_buffer
  send_buffer-with_message ps s h = rw h refl

  bind-returned :
      {A B : Type 0} (m : Action C A) (f : A → Action C B) (a : A) (s t : Session C)
      → m s ≡ returned a t
      → (m >>= f) s ≡ f a t
  bind-returned m f a s t h = rw (◌>>=◌, h) refl

  prepare_call-ready :
      (rp : Text) (addl : ℕ) (cb : C) (s : Session C)
      → (s.session_id == 0) ≡ false
      → ltb 2 addl ≡ false
      → prepare_call mp rp addl cb s
        ≡ returned true (record s {
          request_id = next_request_id s.request_id;
          calls = emplace s.request_id cb s.calls;
          buf =
              pack_all mp
                (pack_array (4 + addl)
                  ∷ pack_int (code_value call_code)
                  ∷ pack_uint64 s.request_id
                  ∷ pack_map 0
                  ∷ pack_str rp
                  ∷ [])
                s.buf;
        })
  unfolding prepare_call
  prepare_call-ready rp addl cb s h k = ground (arith, h, k)

  -- Behind the test of an overload.
  call_args-send :
      (rp : Text) (args : List O) (cb : C) (s : Session C)
      → (length args == 0) ≡ false
      → call_args mp rp args cb s
        ≡ (prepare_call mp rp 1 cb >>= λ ready.
              if ready then pack mp (pack_vec args) >> send else pure tt)
            s
  unfolding call_args
  call_args-send rp args cb s h = rw h refl

  call_kwargs-send :
      (rp : Text) (args : List O) (kw : Kwargs O) (cb : C) (s : Session C)
      → (length kw == 0) ≡ false
      → call_kwargs mp rp args kw cb s
        ≡ (prepare_call mp rp 2 cb >>= λ ready.
              if ready
              then pack mp (pack_vec args) >> pack mp (pack_kwargs kw) >> send
              else pure tt)
            s
  unfolding call_kwargs
  call_kwargs-send rp args kw cb s h = rw h refl

  pub call_kwargs-send_buffer :
      (rp : Text) (args : List O) (kw : Kwargs O) (cb : C) (s : Session C)
      → (s.session_id == 0) ≡ false
      → call_kwargs mp rp args kw cb s
        ≡ returned tt (
            send_buffer (record s {
              request_id = next_request_id s.request_id;
              calls = emplace s.request_id cb s.calls;
              buf = pack_all mp (wamp_message (code_value call_code) s.request_id rp args kw) s.buf;
            }))
  unfolding call_kwargs call_args call prepare_call pack_all
  call_kwargs-send_buffer rp [] [] cb s h = ground (arith, h)
  call_kwargs-send_buffer rp (o ∷ os) [] cb s h =
      let some_args : (length (o ∷ os) == 0) ≡ false = ground arith in
      call_args-send rp (o ∷ os) cb s some_args
      ∙ bind-returned (prepare_call mp rp 1 cb)
          (λ ready. if ready then pack mp (pack_vec (o ∷ os)) >> send else pure tt) true s _
          (prepare_call-ready rp 1 cb s h refl)
  call_kwargs-send_buffer rp args (p ∷ kw) cb s h =
      let some_kw : (length (p ∷ kw) == 0) ≡ false = ground arith in
      call_kwargs-send rp args (p ∷ kw) cb s some_kw
      ∙ bind-returned (prepare_call mp rp 2 cb)
          (λ ready.
            if ready
            then pack mp (pack_vec args) >> pack mp (pack_kwargs (p ∷ kw)) >> send
            else pure tt)
          true s _ (prepare_call-ready rp 2 cb s h refl)
      ∙ rw (pack_all-append mp (pack_vec args) (pack_kwargs (p ∷ kw))) refl
