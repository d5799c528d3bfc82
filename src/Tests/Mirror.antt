-- ===== src/Tests/Mirror.antt =====
-- A feed handler that follows an order which trades and rests.
use basicmatch.Base.{
  ℕ, ◌+◌, ◌<◌, ◌^◌, ◌≡◌, List, [], ◌∷◌, some, length, Text, codes, refl, arith, false, true, map,
}
use basicmatch.Types.{Side, OrderInfo, crosses}
use basicmatch.Book.{
  Node, Book, new_book, add_order, place, own, push_order, opposite, set_side, side_levels,
}
use basicmatch.Match.{match, match_level, after_level, fill}
use basicmatch.Match.Orderly.{IsOrderly}
use basicmatch.Engine.{Engine, empty_engine, handle_submit}
use basicmatch.Engine
use basicmatch.LevelBook.{half, LevelBook, submit, new_level_book}
use basicmatch.Md.{Md, Effect, empty_md, get_book}
use basicmatch.LevelBook.Refines.{quantity}
use basicmatch.LevelBook.Small.{HasSpace}
use basicmatch.Md.Sync.{on_actions}
use basicmatch.Md.InStep.{action_of}
use basicmatch.Md.Shown.{HasFinite, with_txn_id-Shows, Shows, new_book-Shows, rested-Shows}
use basicmatch.Md.Followed.{HasRoom, on_actions-Shows}

abbrev ibm : Text
ibm = codes "IBM"

abbrev resting_sell : Node
resting_sell = record {
  ref = 0;
  order = record { id = 1; symbol = ibm; side = Side.sell; qty = 5; price = 99 };
}

-- A buy of 8 at 100: 5 of it trade at 99, and 3 rest.
abbrev buy : OrderInfo
buy = record { id = 2; symbol = ibm; side = Side.buy; qty = 8; price = 100 }

abbrev book : Book
book = record { symbol = ibm; txn_id = 2; sells = (99, resting_sell ∷ []) ∷ []; buys = [] }

abbrev engine : Engine
engine = record empty_engine { books = book ∷ []; next_ref = 1 }

abbrev level_book : LevelBook
level_book = (submit Side.sell 99 5 (new_level_book ibm)).0

abbrev handler : Md
handler = record empty_md { txn_id = 1; books = level_book ∷ [] }

book-IsOrderly : IsOrderly (Engine.get_book ibm engine.books)
unfolding Engine.get_book Engine.find_book basicmatch.Base.Text-discrete
book-IsOrderly = record {
  sells = ground arith;
  buys = tt;
  sells_sorted = (tt, tt);
  buys_sorted = tt;
  uncrossed = (tt, tt);
}

book-HasFinite : HasFinite (Engine.get_book ibm engine.books)
unfolding Engine.get_book Engine.find_book basicmatch.Base.Text-discrete
book-HasFinite = ground arith

book-HasRoom : HasRoom (Engine.get_book ibm engine.books) 8
unfolding Engine.get_book Engine.find_book basicmatch.Base.Text-discrete
book-HasRoom Side.buy p = ground arith
book-HasRoom Side.sell p = ground arith
book-HasRoom Side.none p = ground arith

empty-HasSpace : HasSpace (half Side.sell (new_level_book ibm)).slots
unfolding half new_level_book basicmatch.LevelBook.last_slot
empty-HasSpace = ground arith

empty-HasRoom : quantity Side.sell 99 (new_level_book ibm) + 5 < 2 ^ 32
unfolding new_level_book
empty-HasRoom = ground arith

shown : Shows (Engine.get_book ibm engine.books) (get_book ibm handler.books)
unfolding Engine.get_book Engine.find_book get_book basicmatch.Md.find_book submit
    basicmatch.Base.Text-discrete basicmatch.Book.ahead add_order place own push_order set_side
    side_levels new_book
shown = with_txn_id-Shows 2 (add_order resting_sell (new_book ibm)) level_book (
    rested-Shows resting_sell (new_book ibm) (new_level_book ibm) (ground arith) (ground arith)
      empty-HasSpace empty-HasRoom (new_book-Shows ibm))

free : HasSpace (half Side.buy (get_book ibm handler.books)).slots
unfolding get_book basicmatch.Md.find_book submit half new_level_book basicmatch.Base.Text-discrete
    basicmatch.LevelBook.last_slot basicmatch.LevelBook.tell basicmatch.LevelBook.add
    basicmatch.LevelBook.add_half basicmatch.LevelBook.after_scan basicmatch.LevelBook.add_slots
free = ground arith

next_number : 2 ≡ (Engine.get_book ibm engine.books).txn_id
unfolding Engine.get_book Engine.find_book basicmatch.Base.Text-discrete
next_number = refl

enough_numbers : 1 + length (handle_submit buy engine).1.events + 1 < 2 ^ 64
unfolding handle_submit Engine.accept Engine.is_some Engine.settle Engine.rest_order Engine.get_book
    Engine.find_book match match_level after_level fill opposite side_levels crosses
    Engine.filled_order set_side
enough_numbers = ground arith

on_actions-Shows_example :
    (md' : Md) × (out : List Effect) × (on_actions true ibm
        (map action_of (handle_submit buy engine).1.events)
        handler
      ≡ some (md', out))
    × (md'.recovering ≡ false)
    × (md'.txn_id + 1 ≡ (Engine.get_book ibm (handle_submit buy engine).0.books).txn_id)
    × Shows (Engine.get_book ibm (handle_submit buy engine).0.books) (get_book ibm md'.books)
on_actions-Shows_example =
    on_actions-Shows true buy engine handler book-IsOrderly book-HasFinite (ground arith)
      (ground arith) book-HasRoom shown free refl next_number enough_numbers
