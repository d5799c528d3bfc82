-- ===== src/Tests/Sessions.antt =====
-- A session with a small instance of msgpack, and the theorems of sessions at it.
use basicmatch.Base.{
  ℕ, ◌+◌, ◌≤◌, ◌<◌, ◌^◌, List, [], ◌∷◌, ◌≡◌, some, none, codes, Ensures, arith, refl, length, true,
  empty_map, put,
}
use basicmatch.Session.Buffer.{Buffer, tcp_send, serial}
use basicmatch.Session.State.{
  pack_int, pack_uint64, pack_map, pack_array, pack_str, pack_object, endpoint, Session, returned,
  user_error, catch_all,
}
use basicmatch.Session.Packing.{subscribed_code, pack_all}
use basicmatch.Session.Requests.{subscribe, call_kwargs, provide}
use basicmatch.Session.Registers.{subscribed, registered}
use basicmatch.Session.Calls.{event, invoked}
use basicmatch.Session.Handlers.{handle_code, goodbye}
use basicmatch.Session.Receive.{recv_cb}
use basicmatch.Session.Kept.{IsKeeping}
use basicmatch.Session.Run.{Input, subscribing, publishing, received, run}
use basicmatch.Session.Stopped.{IsSilent, run-stop_session}
use basicmatch.Session.Errors.{IsAtomic, handle_code-IsAtomic}
use basicmatch.Session.Overloads.{with_message}
use basicmatch.Session.Bounds.{IsInside, pack_growth, pack_all-IsInside}
use basicmatch.Session.Ends.{Ends, IsEnding, IsForward, recv_cb-Ends}
use basicmatch.Session.Frames.{on_frames, sent_bytes, recv_cb-sent_bytes}
use basicmatch.Session.Subscriptions.{IsId, event-subscribe}
use basicmatch.Session.Procedures.{begun, offered, installed, invoked-provide, invoked-threw}
use basicmatch.Session.Closing.{IsEmptied, goodbye_and_out, IsClosed, goodbye-clear}
use basicmatch.Tests.Sample.{
  sample, calm, fresh_buffer, joined_session, Sample, num, word, nums, table, sample_type,
}
use basicmatch.Session.Calls.{call_result}
use basicmatch.Session.Results.{call_result-call_kwargs}

abbrev stopped_one : Session ℕ
stopped_one = record joined_session { stopped = true }

abbrev inputs : List (Input Sample ℕ)
inputs = subscribing (codes "t") 1 ∷ publishing (codes "t") [] [] ∷ received (nums (6 ∷ [])) ∷ []

calm-IsKeeping : IsKeeping (IsSilent []) calm
calm-IsKeeping = record {
  join = λ c id s h. h;
  end = λ c why s h. h;
  event = λ c args kw s h. h;
  result = λ c o s h. h;
  call = λ c args kw s h. ground (arith, h);
  call_v = λ c args kw s h. h;
  call_m = λ c args kw s h. h;
  call_vm = λ c args kw s h. h;
}

run-stop_session_example : Ensures (IsSilent []) (run sample calm inputs stopped_one)
run-stop_session_example =
    run-stop_session sample calm [] calm-IsKeeping inputs stopped_one (refl, refl)

handle_code-IsAtomic_example :
    IsAtomic joined_session
      (handle_code sample calm subscribed_code (num 33 ∷ num 8 ∷ num 2 ∷ []) joined_session)
handle_code-IsAtomic_example =
    handle_code-IsAtomic sample calm subscribed_code (num 33 ∷ num 8 ∷ num 2 ∷ []) joined_session
      refl

num-IsId : (n : ℕ) → IsId sample (num n) n
unfolding sample_type
num-IsId n = record { kind = refl; value = refl }

event-subscribe_example :
    (t u : Session ℕ) × (subscribe sample (codes "t") 3 joined_session ≡ returned tt t)
    × (subscribed sample (num 33 ∷ num 4 ∷ num 12 ∷ []) t ≡ returned tt u)
    × (u.pending_subscriptions 4 ≡ none)
    × (event sample calm
          (num 33 ∷ num 12 ∷ num 1 ∷ table [] ∷ nums (5 ∷ []) ∷ table ((codes "k", 6) ∷ []) ∷ [])
          u
        ≡ catch_all (calm.on_event 3 (num 5 ∷ []) ((codes "k", num 6) ∷ [])) u)
unfolding sample_type
event-subscribe_example =
    event-subscribe sample calm (codes "t") 3 joined_session (num 33) (num 4) (num 12) (num 1)
      (table []) (nums (5 ∷ [])) (table ((codes "k", 6) ∷ [])) 12 (num 5 ∷ [])
      ((codes "k", num 6) ∷ []) refl refl refl refl (num-IsId 4) (num-IsId 12) refl refl refl refl
      refl refl

abbrev with_procedure : Session ℕ
with_procedure = installed sample (codes "p") (endpoint 3) 12 joined_session

invoked-provide_example :
    (provide sample (codes "p") (endpoint 3) joined_session
      ≡ returned tt (offered sample (codes "p") (endpoint 3) joined_session))
    × (registered sample
          (num 65 ∷ num 4 ∷ num 12 ∷ [])
          (offered sample (codes "p") (endpoint 3) joined_session)
        ≡ returned tt with_procedure)
    × (with_procedure.pending_procs 4 ≡ none)
    × (with_procedure.procs 12 ≡ some (endpoint 3))
    × (invoked sample calm (num 68 ∷ num 21 ∷ num 12 ∷ table [] ∷ nums (5 ∷ []) ∷ []) with_procedure
        ≡ returned tt
            (with_message sample (pack_object (num 5) ∷ []) (begun sample calm 21 with_procedure)))
unfolding sample_type
invoked-provide_example =
    invoked-provide sample calm (codes "p") 3 joined_session (begun sample calm 21 with_procedure)
      (num 65) (num 4) (num 12) (num 68) (num 21) (table []) (nums (5 ∷ [])) (num 5) 12 21
      (num 5 ∷ []) refl refl refl refl (num-IsId 4) (num-IsId 12) (num-IsId 21) refl refl refl refl
      refl

abbrev offering : Session ℕ
offering = record joined_session { procs = put 12 (endpoint 9) empty_map }

invoked-threw_example :
    invoked sample calm (num 68 ∷ num 21 ∷ num 12 ∷ table [] ∷ nums (5 ∷ []) ∷ []) offering
    ≡ returned tt (record offering {
      buf =
          pack_all sample
            (pack_array 4 ∷ pack_int 70 ∷ pack_uint64 21 ∷ pack_map 0 ∷ pack_array 1 ∷ [])
            fresh_buffer;
    })
unfolding sample_type
invoked-threw_example =
    invoked-threw sample calm 9 (num 68) (num 21) (num 12) (table []) (nums (5 ∷ [])) 12 21
      (num 5 ∷ []) offering user_error refl (num-IsId 21) (num-IsId 12) refl refl refl refl

abbrev answered : Session ℕ
answered = with_message sample (goodbye_and_out sample calm) joined_session

goodbye-clear_example :
    (v : Session ℕ) × (goodbye sample calm
        (num 6 ∷ table [] ∷ word (codes "bye") ∷ [])
        joined_session
      ≡ returned tt v)
    × IsEmptied v
    × (v.sent ≡ answered.sent)
    × (v.buf ≡ answered.buf)
    × IsClosed sample v
goodbye-clear_example =
    goodbye-clear sample calm (num 6) (table []) (word (codes "bye")) (codes "bye") joined_session
      answered refl refl refl refl

pack_all-IsInside_example :
    IsInside (pack_all sample (pack_array 1 ∷ pack_str (codes "topic") ∷ []) fresh_buffer)
    × ((pack_all sample (pack_array 1 ∷ pack_str (codes "topic") ∷ []) fresh_buffer).bufsize
        ≤ 260 + pack_growth sample (pack_array 1 ∷ pack_str (codes "topic") ∷ []))
pack_all-IsInside_example =
    pack_all-IsInside sample (pack_array 1 ∷ pack_str (codes "topic") ∷ []) fresh_buffer
      (omega arith) (omega arith)

sample-IsForward : IsForward sample
sample-IsForward = record {
  forward = λ buf size off next obj h. ground (arith, h);
  inside = λ buf size off next obj h. ground (arith, h);
}

calm-IsEnding : IsEnding calm
calm-IsEnding = record {
  join = λ c id s. tt;
  end = λ c why s. tt;
  event = λ c args kw s. tt;
  result = λ c o s. tt;
  call = λ c args kw s. ground arith;
  call_v = λ c args kw s. tt;
  call_m = λ c args kw s. tt;
  call_vm = λ c args kw s. tt;
}

recv_cb-Ends_example : Ends (recv_cb sample calm 9 (0 ∷ 0 ∷ 0 ∷ 1 ∷ 7 ∷ 0 ∷ []) 6 joined_session)
recv_cb-Ends_example =
    recv_cb-Ends sample calm sample-IsForward calm-IsEnding 9 (0 ∷ 0 ∷ 0 ∷ 1 ∷ 7 ∷ 0 ∷ []) 6
      joined_session (omega arith) (omega arith)

abbrev packed : List Buffer
packed =
    record { bufsize = 260; bytes = 1 ∷ 2 ∷ [] } ∷ record { bufsize = 260; bytes = 3 ∷ [] } ∷ []

packed_short : length (sent_bytes packed) < 2 ^ 16
unfolding tcp_send serial
packed_short = omega arith

recv_cb-sent_bytes_example :
    recv_cb sample calm 3 (sent_bytes packed) (length (sent_bytes packed)) joined_session
    ≡ on_frames sample calm ((1 ∷ 2 ∷ []) ∷ (3 ∷ []) ∷ []) joined_session
recv_cb-sent_bytes_example =
    recv_cb-sent_bytes sample calm packed 3 joined_session (omega arith, (omega arith, tt))
      packed_short (omega arith)

abbrev calling_once : Session ℕ
calling_once = record joined_session { calls = put 4 3 empty_map }

call_result-call_kwargs_example :
    (t : Session ℕ) × (call_kwargs sample (codes "p") [] [] 3 joined_session ≡ returned tt t)
    × (t.calls 4 ≡ some 3)
    × (call_result sample calm (num 50 ∷ num 4 ∷ table [] ∷ nums (5 ∷ []) ∷ []) t
        ≡ calm.on_result 3 (num 5) t)
    × (call_result sample calm (num 50 ∷ num 4 ∷ table [] ∷ nums (6 ∷ 7 ∷ []) ∷ []) calling_once
        ≡ calm.on_result 3 (num 6) calling_once)
unfolding sample_type
call_result-call_kwargs_example =
    call_result-call_kwargs sample calm (codes "p") 3 [] [] joined_session calling_once (num 50)
      (num 4) (table []) (nums (5 ∷ [])) (num 5) (table []) (nums (6 ∷ 7 ∷ [])) (num 6) []
      (num 7 ∷ []) refl refl refl (num-IsId 4) refl refl refl refl refl refl refl refl
