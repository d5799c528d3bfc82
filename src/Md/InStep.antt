-- ===== src/Md/InStep.antt =====
-- The engine and a feed handler that gets the messages of its callbacks.
use basicmatch.Base.{
  ℕ, ◌+◌, ◌<◌, ◌^◌, ◌≡◌, ◌∙◌, Bool, false, List, [], ◌∷◌, some, arith, refl, sym, map, length, ap,
  All,
}
use basicmatch.Types.{Side, ActionType, OrderInfo, trade}
use basicmatch.Match.{Event, fill_event, submit_event, cancel_event, next64}
use basicmatch.Engine.{Engine, handle_submit}
use basicmatch.Engine
use basicmatch.Engine.Numbers.{IsNumbered, txn_of, handle_submit-CountsAt}
use basicmatch.LevelBook.{LevelBook}
use basicmatch.Md.{Md, Deferred, Effect, get_book}
use basicmatch.Md.Sync.{
  on_actions, apply_all, IsPublication, IsConsecutive, last_txn, on_actions-IsConsecutive,
}

-- The action that a handler takes from the message of a callback.
abbrev pub action_of : Event → Deferred
action_of (fill_event s t q p) = record {
  txn_id = t;
  action = trade;
  side = Side.none;
  qty = q;
  price = p;
}
action_of (submit_event s t i d q p) = record {
  txn_id = t;
  action = ActionType.submit;
  side = d;
  qty = q;
  price = p;
}
action_of (cancel_event s t q p) = record {
  txn_id = t;
  action = ActionType.cancel;
  side = Side.none;
  qty = q;
  price = p;
}

txn_id-action_of : (e : Event) → (action_of e).txn_id ≡ txn_of e
txn_id-action_of (fill_event s t q p) = refl
txn_id-action_of (submit_event s t i d q p) = refl
txn_id-action_of (cancel_event s t q p) = refl

-- Numbers that do not wrap are those of a feed without gaps.
numbered-IsConsecutive :
    (t u t' : ℕ) (es : List Event)
    → u ≡ t + 1
    → t + length es + 1 < 2 ^ 64
    → IsNumbered u es t'
    → IsConsecutive t (map action_of es) × (last_txn t (map action_of es) + 1 ≡ t')
numbered-IsConsecutive t u t' [] k h n = (tt, sym k ∙ n)
numbered-IsConsecutive t u t' (e ∷ es) k h n =
    let d = (action_of e).txn_id in
    let same : d ≡ t + 1 = txn_id-action_of e ∙ n.0 ∙ k in
    let next : next64 u ≡ d + 1 = unfold next64 in omega (arith, same, k, h) in
    let (c, l) = numbered-IsConsecutive d (next64 u) t' es next (omega (arith, same, h)) n.1 in
    ((same, omega (arith, same, h), c), l)

-- A handler that is not recovering and expects the next number of an order's book: the callbacks of
-- the order, where they do not run out of numbers and the handler's level book can be changed by
-- them, change that book and make it send publications alone, so that no snapshot is asked for, and
-- then the handler again expects the book's next number.
pub on_actions-handle_submit :
    (connects : Bool) (o : OrderInfo) (e : Engine) (md : Md) (b : LevelBook)
    → md.recovering ≡ false
    → md.txn_id + 1 ≡ (Engine.get_book o.symbol e.books).txn_id
    → md.txn_id + length (handle_submit o e).1.events + 1 < 2 ^ 64
    → apply_all (map action_of (handle_submit o e).1.events) (get_book o.symbol md.books) ≡ some b
    → (md' : Md) × (out : List Effect) × (on_actions connects o.symbol
          (map action_of (handle_submit o e).1.events)
          md
        ≡ some (md', out))
      × (md'.recovering ≡ false)
      × (md'.txn_id + 1 ≡ (Engine.get_book o.symbol (handle_submit o e).0.books).txn_id)
      × (get_book o.symbol md'.books ≡ b)
      × All IsPublication out
on_actions-handle_submit connects o e md b r k h f =
    let counted = (handle_submit-CountsAt o e).0 in
    let (c, l) =
      numbered-IsConsecutive md.txn_id (Engine.get_book o.symbol e.books).txn_id
        (Engine.get_book o.symbol (handle_submit o e).0.books).txn_id (handle_submit o e).1.events
        (sym k) h counted in
    let (md', out, d, r', t, g, pubs) =
      on_actions-IsConsecutive connects o.symbol (map action_of (handle_submit o e).1.events) md b r
        (omega (arith, h)) c f in
    (md', out, d, r', ap (λ n. n + 1) t ∙ l, g, pubs)
