-- ===== src/Session/Closing.antt =====
-- The end of a session that the server closes.
use basicmatch.Base.{ℕ, ap, ◌∙◌, none, false, List, [], ◌∷◌, ◌≡◌, some, Text, codes, arith, refl}
use basicmatch.Session.State.{
  Msgpack, Packed, pack_array, pack_int, pack_map, pack_str, Kwargs, Endpoint, Session, returned,
  threw, no_session_error, User,
}
use basicmatch.Session.Packing.{pack_all, send_buffer}
use basicmatch.Session.Requests.{
  goodbye_message, leave, subscribe, call_kwargs, publish_kwargs, provide,
}
use basicmatch.Session.Overloads.{with_message, send_buffer-with_message}
use basicmatch.Session.Handlers.{goodbye, clear}

-- What a session that is not joined does with what the program asks of it.
pub record IsClosed {O C : Type 0} (mp : Msgpack O) (s : Session C) : Type 0 where
  pub no_subscribe : (topic : Text) (cb : C) → subscribe mp topic cb s ≡ returned tt s
  pub no_call :
      (rp : Text) (args : List O) (kw : Kwargs O) (cb : C)
      → call_kwargs mp rp args kw cb s ≡ returned tt s
  pub no_publish :
      (topic : Text) (args : List O) (kw : Kwargs O)
      → publish_kwargs mp topic args kw s ≡ returned tt s
  pub no_provide :
      (procedure : Text) (e : Endpoint C) → provide mp procedure e s ≡ threw no_session_error s
  pub no_leave : (why : Text) → leave mp why s ≡ threw no_session_error s

-- A session that is not joined and waits for nothing.
pub record IsEmptied {C : Type 0} (s : Session C) : Type 0 where
  pub session_id : s.session_id ≡ 0
  pub pending_subscriptions : (i : ℕ) → s.pending_subscriptions i ≡ none
  pub subscriptions : (i : ℕ) → s.subscriptions i ≡ none
  pub calls : (i : ℕ) → s.calls i ≡ none
  pub pending_procs : (i : ℕ) → s.pending_procs i ≡ none
  pub procs : (i : ℕ) → s.procs i ≡ none

module _ {O C : Type 0} (mp : Msgpack O) (user : User O C) where
  cleared-IsClosed : (u : Session C) → IsClosed mp (clear u)
  unfolding subscribe call_kwargs publish_kwargs provide leave clear
  cleared-IsClosed u = record {
    no_subscribe = λ topic cb. refl;
    no_call = λ rp args kw cb. ground arith;
    no_publish = λ topic args kw. ground arith;
    no_provide = λ procedure e. refl;
    no_leave = λ why. refl;
  }

  goodbye_cleared :
      (code details why : O) (txt : Text) (s u : Session C)
      → s.leaving ≡ false
      → mp.as_string why ≡ some txt
      → user.on_end s.secb txt (
          send_buffer (record s {
            buf = pack_all mp (goodbye_message (codes "wamp.error.goodbye_and_out")) s.buf;
          }))
        ≡ returned tt u
      → goodbye mp user (code ∷ details ∷ why ∷ []) s ≡ returned tt (clear u)
  unfolding goodbye send_buffer
  goodbye_cleared code details why txt s u h1 h2 h3 = ground (arith, h1, h2, h3)

  cleared-IsEmptied : (u : Session C) → IsEmptied (clear u)
  unfolding clear
  cleared-IsEmptied u = record {
    session_id = refl;
    pending_subscriptions = λ i. refl;
    subscriptions = λ i. refl;
    calls = λ i. refl;
    pending_procs = λ i. refl;
    procs = λ i. refl;
  }

  -- [GOODBYE, Details|dict, Reason|uri]
  abbrev pub goodbye_and_out : List (Packed O)
  goodbye_and_out =
      pack_array 3 ∷ pack_int 6 ∷ pack_map 0 ∷ pack_str (codes "wamp.error.goodbye_and_out") ∷ []

  -- A GOODBYE with a reason that a session receives which is neither stopped nor leaving: the session
  -- hands a GOODBYE of its own to the socket, then runs the callback for its end with the reason.
  -- Where the callback returns, the session ends with the id 0 and no entry in any of its five
  -- registers, with nothing more sent or packed than the callback has, and what the program then
  -- asks of it sends nothing and changes nothing: leaving and providing throw, the rest does nothing.
  pub goodbye-clear :
      (code details why : O) (txt : Text) (s u : Session C)
      → s.stopped ≡ false
      → s.leaving ≡ false
      → mp.as_string why ≡ some txt
      → user.on_end s.secb txt (with_message mp goodbye_and_out s) ≡ returned tt u
      → (v : Session C) × (goodbye mp user (code ∷ details ∷ why ∷ []) s ≡ returned tt v)
        × IsEmptied v
        × (v.sent ≡ u.sent)
        × (v.buf ≡ u.buf)
        × IsClosed mp v
  unfolding clear goodbye_message
  goodbye-clear code details why txt s u h0 h1 h2 h3 = (
    clear u,
    goodbye_cleared code details why txt s u h1 h2
        (ap (user.on_end s.secb txt) (send_buffer-with_message mp goodbye_and_out s h0) ∙ h3),
    cleared-IsEmptied u,
    refl,
    refl,
    cleared-IsClosed u,
  )
