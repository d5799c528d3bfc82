-- ===== src/Tests/Feed.antt =====
-- The theorems of the feed handler at short feeds.
use mathlib.Core.Option
use basicmatch.Base.{ℕ, List, [], ◌∷◌, ◌++◌, ◌≡◌, some, Text, codes, refl, arith, true, false}
use basicmatch.Types.{Side, ActionType, trade}
use basicmatch.LevelBook.{LevelBook, new_level_book, submit, trade_at}
use basicmatch.Md.{Md, Deferred, Effect, empty_md, get_book, deferred_of, sub64, apply_action}
use basicmatch.Md.Sync.{IsPublication, on_actions, apply_all, on_actions-IsConsecutive}
use basicmatch.Md.Gaps.{on_actions-gap}
use basicmatch.Md.{pub_recover, send_request}
use basicmatch.Base.{All, map, length, ◌+◌, ◌<◌, ◌^◌}
use basicmatch.Types.{OrderInfo}
use basicmatch.Match.{submit_event}
use basicmatch.Engine.{empty_engine, handle_submit}
use basicmatch.Engine
use basicmatch.Md.InStep.{action_of, on_actions-handle_submit}

abbrev ibm : Text
ibm = codes "IBM"

abbrev entered : ℕ → ℕ → ℕ → Deferred
entered txn_id qty price = record {
  txn_id = txn_id;
  action = ActionType.submit;
  side = Side.buy;
  qty = qty;
  price = price;
}

abbrev traded_at : ℕ → ℕ → ℕ → Deferred
traded_at txn_id qty price = record {
  txn_id = txn_id;
  action = trade;
  side = Side.none;
  qty = qty;
  price = price;
}

abbrev feed : List Deferred
feed = entered 1 14 98 ∷ entered 2 6 97 ∷ traded_at 3 4 98 ∷ []

abbrev level_book : LevelBook
level_book = (submit Side.buy 97 6 (submit Side.buy 98 10 (new_level_book ibm)).0).0

abbrev final_book : LevelBook
final_book = record level_book { book_id = 3 }

followed : apply_all feed (get_book ibm []) ≡ some final_book
unfolding apply_all get_book apply_action Option.bind submit trade_at new_level_book
    basicmatch.Book.ahead
followed = refl

on_actions-IsConsecutive_example :
    (md' : Md) × (out : List Effect) × (on_actions true ibm feed empty_md ≡ some (md', out))
    × (md'.recovering ≡ false)
    × (md'.txn_id ≡ 3)
    × (get_book ibm md'.books ≡ final_book)
    × All IsPublication out
on_actions-IsConsecutive_example =
    on_actions-IsConsecutive true ibm feed empty_md final_book refl (omega arith)
      (refl, omega arith, (refl, omega arith, (refl, omega arith, tt))) followed

on_actions-gap_example :
    (md' : Md) × (on_actions true ibm (entered 5 14 98 ∷ feed) empty_md
      ≡ some (
        md',
        pub_recover true ∷ send_request (record { levels = 16; symbol = codes "IBM" }) ∷ [],
      ))
    × (md'.recovering ≡ true)
    × (md'.txn_id ≡ 0)
    × (md'.books ≡ [])
    × (deferred_of ibm md'.deferred ≡ deferred_of ibm [] ++ feed)
unfolding sub64
on_actions-gap_example = on_actions-gap true ibm (entered 5 14 98) feed empty_md refl (omega arith)

abbrev bid : OrderInfo
bid = record { id = 1; symbol = ibm; side = Side.buy; qty = 14; price = 98 }

abbrev bid_book : LevelBook
bid_book = (submit Side.buy 98 14 (new_level_book ibm)).0

bid-events : (handle_submit bid empty_engine).1.events ≡ submit_event ibm 1 1 Side.buy 14 98 ∷ []
unfolding handle_submit basicmatch.Engine.get_book Engine.accept Engine.settle
    basicmatch.Match.match basicmatch.Book.side_levels basicmatch.Book.opposite Engine.rest_order
bid-events = refl

bid-followed :
    apply_all (map action_of (handle_submit bid empty_engine).1.events) (get_book ibm [])
    ≡ some bid_book
unfolding apply_all get_book apply_action Option.bind submit
bid-followed = rw bid-events refl

bid-next : 1 ≡ (Engine.get_book ibm []).txn_id
unfolding basicmatch.Engine.get_book
bid-next = refl

bid-count : 0 + length (handle_submit bid empty_engine).1.events + 1 < 2 ^ 64
bid-count = rw bid-events (omega arith)

on_actions-handle_submit_example :
    (md' : Md) × (out : List Effect) × (on_actions true ibm
        (map action_of (handle_submit bid empty_engine).1.events)
        empty_md
      ≡ some (md', out))
    × (md'.recovering ≡ false)
    × (md'.txn_id + 1 ≡ (Engine.get_book ibm (handle_submit bid empty_engine).0.books).txn_id)
    × (get_book ibm md'.books ≡ bid_book)
    × All IsPublication out
on_actions-handle_submit_example =
    on_actions-handle_submit true bid empty_engine empty_md bid_book refl bid-next bid-count
      bid-followed
