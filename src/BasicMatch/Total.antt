-- ===== src/BasicMatch/Total.antt =====
-- The server meets no undefined behaviour, whatever bytes its clients send.
use mathlib.Core.Option
use basicmatch.Base.{
  ℕ, true, false, some, List, [], ◌∷◌, ◌++◌, map, Text, drop, arith, All, Ensures, Ensures-some,
  ◌≡◌, refl, ap, sym, ◌∙◌, inl, inr, Bool-cases, Option-cases,
}
use basicmatch.Types.{OrderAction}
use basicmatch.Engine.{Engine, execute, get_book, store_book}
use basicmatch.Engine.Orderly.{AreOrderly, Fits, execute-AreOrderly, get_book-stored_AreOrderly}
use basicmatch.Engine.Replies.{IsReply, execute-IsReply}
use basicmatch.Engine.Registry.Tracked.{IsTracked, looked_up-IsTracked}
use basicmatch.Engine.Registry.Total.{IsRequest, execute_total}
use basicmatch.Serializer.{
  parse_submit, parse_cancel, parse_words, words, deserialize, serialize, convert, invalid_input,
}
use basicmatch.Match.{Event}
use basicmatch.Wire.{c_string}
use basicmatch.Msg.{WireLevel, has_msg, has_type, read_snap_request}
use basicmatch.Recv.Safe.{HasEnd, drop-EndsNul, has_nul-EndsNul, KeptBy, Safely, recv_loop-Safely}
use basicmatch.Recv.{Handled, advance, stop}
use basicmatch.Recv.Ends.{IsChecking, has_msg-size}
use basicmatch.BasicMatch.{
  Server, action, event_bytes, handle_text, handle_msg, client_message, client_recv_cb,
  request_message, snap_request_recv_cb, client_callback, handle_snap_request,
}
use basicmatch.BasicMatch.Lines.{parse_words-Fits}

pub record IsSafe (e : Engine) : Type 0 where
  pub orderly : AreOrderly e.books
  pub tracked : IsTracked e

module _ (show_price : ℕ → Text) where
  convert_total : (a : OrderAction) → IsReply a → (text : Text) × (convert show_price a ≡ some text)
  unfolding convert
  convert_total (OrderAction.error i) h = (_, refl)
  convert_total (OrderAction.cancel id) h = (_, refl)
  convert_total (OrderAction.filled o) h = (_, refl)
  convert_total (OrderAction.printed o) h = (_, refl)
  convert_total (OrderAction.submit o) h = absurd h
  convert_total OrderAction.print_all h = absurd h

  serialize_total :
      (rs : List OrderAction)
      → All IsReply rs
      → (lines : List Text) × (serialize show_price rs ≡ some lines)
  unfolding serialize Option.bind
  serialize_total [] h = ([], refl)
  serialize_total (r ∷ rs) h =
      let (text, k) = convert_total r h.0 in
      let (lines, e) = serialize_total rs h.1 in (text ∷ lines, rw (k, e) refl)

module _ (stod : Text → ℕ) where
  parse_words-IsRequest : (ws : List Text) → Ensures IsRequest (parse_words stod ws)
  unfolding parse_words parse_submit parse_cancel
  parse_words-IsRequest (w ∷ []) = ground arith
  parse_words-IsRequest (w ∷ id ∷ []) = ground arith
  parse_words-IsRequest (w ∷ id ∷ symbol ∷ side ∷ qty ∷ price ∷ []) = ground arith
  parse_words-IsRequest _ = tt

module _ (stod : Text → ℕ) (show_price : ℕ → Text) where
  -- What a line that has been read does.
  executed_total :
      (a : OrderAction) (e : Engine)
      → Fits a
      → IsRequest a
      → IsSafe e
      → (x : Engine × List Text × List Event) × (Option.bind (execute a e) (λ (e', out).
            Option.map (λ lines. (e', lines, out.events)) (serialize show_price out.results))
          ≡ some x)
        × IsSafe x.0
  unfolding Option.bind
  executed_total a e f h s =
      let (x, k, t) = execute_total a e h s.orderly s.tracked in
      let q =
        Ensures-some (λ x. AreOrderly x.0.books) (execute a e) k
          (execute-AreOrderly a e f s.orderly) in
      let replies =
        Ensures-some (λ x. All IsReply x.1.results) (execute a e) k (execute-IsReply a e) in
      let (lines, l) = serialize_total show_price x.1.results replies in
      ((x.0, lines, x.1.events), rw (k, l) refl, record { orderly = q; tracked = t })

  pub action_total :
      (line : Text) (e : Engine)
      → IsSafe e
      → (x : Engine × List Text × List Event) × (action stod show_price line e ≡ some x)
        × IsSafe x.0
  unfolding action deserialize
  action_total line e s = elim (Option-cases (parse_words stod (words line))) [
    | inl n ↦
        let (text, k) = convert_total show_price invalid_input tt in
        ((e, text ∷ [], []), rw (n, deserialize) (ap (Option.map (λ t. (e, t ∷ [], []))) k), s)
    | inr (a, k) ↦
        let ws = words line in
        let f = Ensures-some Fits (parse_words stod ws) k (parse_words-Fits stod ws) in
        let h = Ensures-some IsRequest (parse_words stod ws) k (parse_words-IsRequest stod ws) in
        let (x, r, t) = executed_total a e f h s in (x, rw (k, deserialize) r, t)
  ]

  pub handle_text_total :
      (line : Text) (s : Server)
      → IsSafe s.engine
      → (s' : Server) × (handle_text stod show_price line s ≡ some s') × IsSafe s'.engine
  unfolding handle_text
  handle_text_total line s h =
      let (x, k, t) = action_total line s.engine h in
      let s' : Server = record s {
        engine = x.0;
        sent = s.sent ++ map event_bytes x.2;
        printed = s.printed ++ x.1;
      } in
      (s', rw k refl, t)

  client_message-KeptBy :
      (buf : List ℕ) (bytes : ℕ) (s : Server)
      → HasEnd bytes buf
      → IsSafe s.engine
      → KeptBy (λ s. IsSafe s.engine) (client_message stod show_price buf bytes s)
  unfolding client_message handle_msg
  client_message-KeptBy buf bytes s m h = elim (Bool-cases (has_msg buf bytes)) [
    | inl z ↦
        let (s', k, t) = handle_text_total (c_string (drop 2 buf)) s h in
        let nul = has_nul-EndsNul (drop 2 buf) (drop-EndsNul 2 buf (omega (arith, m.1)) m.0) in
        rw (z, nul, client_message, k) t
    | inr z ↦ rw (z, client_message) tt
  ]

-- A book that is looked up is stored as it is.
looked_up-IsSafe :
    (symbol : Text) (e : Engine)
    → IsSafe e
    → IsSafe (record e { books = store_book (get_book symbol e.books) e.books })
looked_up-IsSafe symbol e h = record {
  orderly = get_book-stored_AreOrderly symbol e.books h.orderly;
  tracked = looked_up-IsTracked symbol e h.tracked;
}

request_message-KeptBy :
    (junk : List WireLevel) (client : ℕ) (buf : List ℕ) (bytes : ℕ) (s : Server)
    → HasEnd bytes buf
    → IsSafe s.engine
    → KeptBy (λ s. IsSafe s.engine) (request_message junk client buf bytes s)
unfolding request_message handle_snap_request
request_message-KeptBy junk client buf bytes s e h =
    elim (Option-cases (read_snap_request buf bytes)) [
      | inl n ↦ rw (n, request_message) (ground (arith, h))
      | inr (m, k) ↦
          let nul = has_nul-EndsNul (drop 14 buf) (drop-EndsNul 14 buf (omega (arith, e.1)) e.0) in
          rw (k, nul, request_message) (looked_up-IsSafe m.symbol s.engine h)
    ]

checks-size :
    (h : List ℕ → ℕ → Server → Handled Server)
    → ((buf : List ℕ) (bytes : ℕ) (s : Server) → has_msg buf bytes ≡ false → h buf bytes s ≡ stop)
    → IsChecking h
checks-size h stops buf bytes s s' e = elim (Bool-cases (has_msg buf bytes)) [
  | inl z ↦ has_msg-size buf bytes z
  | inr z ↦ absurd (advance-ne-stop s' (sym e ∙ stops buf bytes s z))
]
  where
    advance-ne-stop : (s' : Server) → advance s' ≡ stop → ⊥
    advance-ne-stop s' e = cc

client_message-IsChecking :
    (stod : Text → ℕ) (show_price : ℕ → Text) → IsChecking (client_message stod show_price)
unfolding client_message
client_message-IsChecking stod show_price =
    checks-size (client_message stod show_price) (λ buf bytes s z. rw z refl)

request_message-IsChecking :
    (junk : List WireLevel) (client : ℕ) → IsChecking (request_message junk client)
unfolding request_message read_snap_request has_type
request_message-IsChecking junk client =
    checks-size (request_message junk client) (λ buf bytes s z. ground (arith, z))

-- From a server whose books are in order and registered: whatever bytes come on a client's
-- connection or on one for snapshots, where behind them the memory of the buffer has at least 15
-- bytes more and ends with a NUL, and however many rounds the loop makes, the callback reads inside
-- that memory and meets no address that leads nowhere and no failed assertion, and where it ends the
-- books are in order and registered again. Without a NUL, the text of a message is read past the memory.
pub client_callback-Safely :
    (stod : Text → ℕ) (show_price : ℕ → Text) (junk : List WireLevel) (client fuel : ℕ)
    (buf : List ℕ) (bytes : ℕ) (s : Server)
    → HasEnd bytes buf
    → IsSafe s.engine
    → Ensures
        (Safely (λ s. IsSafe s.engine))
        (client_callback stod show_price junk client fuel buf bytes s)
unfolding client_callback client_recv_cb snap_request_recv_cb
client_callback-Safely stod show_price junk client fuel buf bytes s m h =
    elim (Option-cases (s.clients client)) [
      | inl n ↦ rw (n, client_callback) tt
      | inr (true, k) ↦
          rw (k, client_callback)
            (recv_loop-Safely (λ s. IsSafe s.engine) (request_message junk client)
              (request_message-IsChecking junk client) (request_message-KeptBy junk client) fuel buf
              bytes s m h)
      | inr (false, k) ↦
          rw (k, client_callback)
            (recv_loop-Safely (λ s. IsSafe s.engine) (client_message stod show_price)
              (client_message-IsChecking stod show_price) (client_message-KeptBy stod show_price)
              fuel buf bytes s m h)
    ]
