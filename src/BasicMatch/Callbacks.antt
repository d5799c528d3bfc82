-- ===== src/BasicMatch/Callbacks.antt =====
-- basic_match.cpp and engine.h: the engine's delegates, and the server's methods behind them.
use mathlib.Core.Option
use basicmatch.Base.{
  ℕ, ◌≡◌, ◌++◌, List, [], ◌∷◌, Option, none, some, map, Text, take, refl, ap, ◌∙◌, sym,
  append_assoc, append-nil, inl, inr, Option-cases,
}
use basicmatch.Types.{Side}
use basicmatch.Delegate.{Delegate, unset, bound, invoke}
use basicmatch.Wire.{fixed_str}
use basicmatch.Match.{Event, fill_event, submit_event, cancel_event}
use basicmatch.Msg.{
  Trade, Submit, Cancel, trade_bytes, submit_bytes, cancel_bytes, side_byte, msg_size,
}
use basicmatch.BasicMatch.{Server, event_bytes, action, handle_text}

-- The arguments of fill_cb_t and cancel_cb_t, and of submit_cb_t.
pub record Filled : Type 0 where
  pub symbol : Text
  pub txn_id : ℕ
  pub qty : ℕ
  pub price : ℕ

pub record Submitted : Type 0 where
  pub symbol : Text
  pub txn_id : ℕ
  pub id : ℕ
  pub side : Side
  pub qty : ℕ
  pub price : ℕ

pub record Callbacks (S : Type 0) : Type 0 where
  pub fill_cb : Delegate S Filled (Unit {0})
  pub submit_cb : Delegate S Submitted (Unit {0})
  pub cancel_cb : Delegate S Filled (Unit {0})

-- Engine(): no delegate is bound.
abbrev pub no_callbacks : {S : Type 0} → Callbacks S
no_callbacks = record { fill_cb = unset; submit_cb = unset; cancel_cb = unset }

module _ {S : Type 0} (cbs : Callbacks S) where
  -- One call of the engine; `none` is the exception of a delegate that is not bound.
  unfoldable pub call_back : Event → S → Option S
  unfolding invoke
  call_back (fill_event symbol txn_id qty price) s =
      Option.map (λ x. x.0)
        (invoke cbs.fill_cb s
          (record { symbol = symbol; txn_id = txn_id; qty = qty; price = price }))
  call_back (submit_event symbol txn_id id side qty price) s =
      Option.map (λ x. x.0)
        (invoke cbs.submit_cb s (record {
          symbol = symbol;
          txn_id = txn_id;
          id = id;
          side = side;
          qty = qty;
          price = price;
        }))
  call_back (cancel_event symbol txn_id qty price) s =
      Option.map (λ x. x.0)
        (invoke cbs.cancel_cb s
          (record { symbol = symbol; txn_id = txn_id; qty = qty; price = price }))

  unfoldable pub call_all : List Event → S → Option S
  unfolding Option.bind
  call_all [] s = some s
  call_all (e ∷ es) s = Option.bind (call_back e s) (call_all es)

-- send(sock, m): as many bytes of the message as its size field says.
unfoldable pub send_msg : List ℕ → Server → Server
unfolding msg_size
send_msg m s = record s { sent = s.sent ++ take (msg_size m) m ∷ [] }

unfoldable pub on_fill : Server → Filled → Server × Unit {0}
unfolding send_msg event_bytes
on_fill s a = (send_msg (event_bytes (fill_event a.symbol a.txn_id a.qty a.price)) s, tt)

unfoldable pub on_submit : Server → Submitted → Server × Unit {0}
unfolding send_msg event_bytes
on_submit s a =
    (send_msg (event_bytes (submit_event a.symbol a.txn_id a.id a.side a.qty a.price)) s, tt)

unfoldable pub on_cancel : Server → Filled → Server × Unit {0}
unfolding send_msg event_bytes
on_cancel s a = (send_msg (event_bytes (cancel_event a.symbol a.txn_id a.qty a.price)) s, tt)

-- engine_({this, &on_fill}, {this, &on_submit}, {this, &on_cancel})
abbrev pub server_callbacks : Callbacks Server
server_callbacks = record {
  fill_cb = bound on_fill;
  submit_cb = bound on_submit;
  cancel_cb = bound on_cancel;
}

-- The size field is the size of the message.
take-fixed_str : (n : ℕ) (s : Text) → take (ℕ.suc n) (fixed_str n s) ≡ fixed_str n s
unfolding fixed_str
take-fixed_str ℕ.zero s = refl
take-fixed_str (ℕ.suc n) [] = ap (◌∷◌ 0) (take-fixed_str n [])
take-fixed_str (ℕ.suc n) (c ∷ s) = ap (◌∷◌ c) (take-fixed_str n s)

trade-whole : (m : Trade) → take (msg_size (trade_bytes m)) (trade_bytes m) ≡ trade_bytes m
unfolding msg_size trade_bytes
trade-whole m = rw (take-fixed_str 15 m.symbol) refl

submit-whole : (m : Submit) → take (msg_size (submit_bytes m)) (submit_bytes m) ≡ submit_bytes m
unfolding msg_size submit_bytes
submit-whole m = rw (take-fixed_str 15 m.symbol) refl

cancel-whole : (m : Cancel) → take (msg_size (cancel_bytes m)) (cancel_bytes m) ≡ cancel_bytes m
unfolding msg_size cancel_bytes
cancel-whole m = rw (take-fixed_str 15 m.symbol) refl

call_back-event_bytes :
    (e : Event) (s : Server)
    → call_back server_callbacks e s ≡ some (record s { sent = s.sent ++ event_bytes e ∷ [] })
unfolding call_back on_fill on_submit on_cancel event_bytes
call_back-event_bytes (fill_event symbol t q p) s =
    ap (λ b. some (record s { sent = s.sent ++ b ∷ [] }))
      (trade-whole (record { txn_id = t; qty = q; price = p; symbol = symbol }))
call_back-event_bytes (submit_event symbol t id side q p) s =
    ap (λ b. some (record s { sent = s.sent ++ b ∷ [] }))
      (submit-whole (record {
        txn_id = t;
        id = id;
        qty = q;
        price = p;
        side = side_byte side;
        symbol = symbol;
      }))
call_back-event_bytes (cancel_event symbol t q p) s =
    ap (λ b. some (record s { sent = s.sent ++ b ∷ [] }))
      (cancel-whole (record { txn_id = t; qty = q; price = p; symbol = symbol }))

call_all-event_bytes :
    (es : List Event) (s : Server)
    → call_all server_callbacks es s ≡ some (record s { sent = s.sent ++ map event_bytes es })
unfolding call_all Option.bind
call_all-event_bytes [] s = ap (λ l. some (record s { sent = l })) (sym (append-nil s.sent))
call_all-event_bytes (e ∷ es) s =
    let next : Server = record s { sent = s.sent ++ event_bytes e ∷ [] } in
    rw (call_back-event_bytes e s) (
      call_all-event_bytes es next
      ∙ ap (λ l. some (record s { sent = l }))
          (append_assoc s.sent (event_bytes e ∷ []) (map event_bytes es)))

-- The server that handles a line, with the engine's callbacks called through its delegates, one
-- after the other: each is bound, and what is sent, printed and kept is what the handler of a line
-- does.
pub call_all-handle_text :
    (stod : Text → ℕ) (show_price : ℕ → Text) (line : Text) (s : Server)
    → Option.bind (action stod show_price line s.engine) (λ (e, lines, events).
      Option.map
        (λ (s' : Server). record s' { engine = e; printed = s.printed ++ lines })
        (call_all server_callbacks events s))
      ≡ handle_text stod show_price line s
unfolding handle_text Option.bind
call_all-handle_text stod show_price line s =
    elim (Option-cases (action stod show_price line s.engine)) [
      | inl n ↦ rw n refl
      | inr ((e, lines, events), k) ↦ rw (k, call_all-event_bytes events s) refl
    ]

-- Without delegates the first callback throws.
pub call_all-unset :
    {S : Type 0} (e : Event) (es : List Event) (s : S) → call_all no_callbacks (e ∷ es) s ≡ none
unfolding call_all call_back Option.bind
call_all-unset (fill_event symbol t q p) es s = refl
call_all-unset (submit_event symbol t id side q p) es s = refl
call_all-unset (cancel_event symbol t q p) es s = refl
