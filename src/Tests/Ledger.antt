-- ===== src/Tests/Ledger.antt =====
-- The engine's registers and quantities at small sessions.
use basicmatch.Base.{
  ℕ, ◌+◌, ◌≡◌, ◌||◌, true, false, List, [], ◌∷◌, some, Text, codes, arith, refl, ltb, sum_of, All,
  Ensures,
}
use basicmatch.Types.{OrderInfo, Side, OrderAction, submit, cancel, error, crosses}
use basicmatch.Book.{ahead}
use basicmatch.Match.Queue.{quantity}
use basicmatch.Match.Split.{is_split}
use basicmatch.Engine.{
  Engine, Executed, empty_engine, execute, run, handle_submit, reply, duplicate_id,
}
use basicmatch.Engine.Orderly.{AreOrderly, execute-AreOrderly}
use basicmatch.Engine.Registry.Tracked.{IsTracked}
use basicmatch.Engine.Registry.Submitted.{handle_submit-IsTracked}
use basicmatch.Engine.Registry.Total.{empty-IsTracked}
use basicmatch.Engine.Registry.Volume.{volume, moved}
use basicmatch.Engine.Conserved.{taken, execute-Conserves, brought_in, reported, run-volume}
use basicmatch.Engine.Reports.{Answers, execute-Answers}
use basicmatch.Engine.Used.{is_used}
use basicmatch.Engine.Accepted.{met, handle_submit-is_used, run-duplicate_id}

abbrev order : ℕ → Side → ℕ → ℕ → OrderInfo
order id side qty price = record {
  id = id;
  symbol = codes "IBM";
  side = side;
  qty = qty;
  price = price;
}

-- A sell of 10 rests.
abbrev one_sell : Engine
one_sell = (handle_submit (order 1 Side.sell 10 100) empty_engine).0

one_sell-IsTracked : IsTracked one_sell
one_sell-IsTracked = handle_submit-IsTracked (order 1 Side.sell 10 100) empty_engine empty-IsTracked

one_sell-AreOrderly : AreOrderly one_sell.books
unfolding execute
one_sell-AreOrderly =
    execute-AreOrderly (submit (order 1 Side.sell 10 100)) empty_engine (omega arith) tt

abbrev four : OrderInfo
four = order 2 Side.buy 4 100

execute-Conserves_example :
    (x : Executed) × (execute (submit four) one_sell ≡ some x)
    × IsTracked x.0
    × (volume x.0.books + sum_of moved x.1.events
        ≡ volume one_sell.books + taken (submit four) one_sell)
execute-Conserves_example =
    execute-Conserves (submit four) one_sell tt (omega arith) one_sell-AreOrderly one_sell-IsTracked

execute-Answers_example : Ensures (Answers (submit four) one_sell) (execute (submit four) one_sell)
execute-Answers_example = execute-Answers (submit four) one_sell

abbrev requests : List OrderAction
requests = submit (order 1 Side.sell 10 100) ∷ submit four ∷ cancel 1 ∷ []

run-volume_example :
    (e : Engine) × (run requests empty_engine ≡ some e)
    × (volume e.books + reported requests empty_engine ≡ brought_in requests empty_engine)
run-volume_example = run-volume requests (omega arith, (omega arith, (tt, tt))) (tt, (tt, (tt, tt)))

four-unknown : is_used 2 one_sell.orders one_sell.completed ≡ false
unfolding handle_submit basicmatch.Engine.is_some basicmatch.Engine.accept basicmatch.Engine.settle
    basicmatch.Match.match basicmatch.Book.side_levels basicmatch.Book.opposite
    basicmatch.Engine.get_book basicmatch.Engine.rest_order
four-unknown = refl

four-is_split :
    (ltb (sum_of quantity (met four one_sell)) 4 || is_split 4 (met four one_sell)) ≡ true
unfolding handle_submit basicmatch.Engine.get_book crosses basicmatch.Book.side_levels
    basicmatch.Book.opposite basicmatch.Engine.accept basicmatch.Engine.settle
    basicmatch.Match.match basicmatch.Engine.rest_order basicmatch.Base.Text-discrete
    basicmatch.Book.add_order basicmatch.Book.push_order
four-is_split = refl

handle_submit-is_used_example :
    let e' = (handle_submit four one_sell).0 in
    is_used 2 e'.orders e'.completed
    ≡ (ltb (sum_of quantity (met four one_sell)) 4 || is_split 4 (met four one_sell))
handle_submit-is_used_example =
    handle_submit-is_used four one_sell (omega arith) (omega arith) one_sell-AreOrderly
      one_sell-IsTracked four-unknown

run-duplicate_id_example :
    (e' : Engine) × (run (submit four ∷ cancel 1 ∷ []) one_sell ≡ some e')
    × (handle_submit (order 2 Side.sell 7 101) e'
        ≡ reply e' (error (record { id = 2; msg = duplicate_id })))
run-duplicate_id_example =
    run-duplicate_id four (order 2 Side.sell 7 101) one_sell (cancel 1 ∷ []) (omega arith)
      (omega arith) one_sell-AreOrderly one_sell-IsTracked four-unknown four-is_split refl (tt, tt)
      (tt, tt)
