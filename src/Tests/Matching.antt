-- ===== src/Tests/Matching.antt =====
-- Orders through the engine, and the theorems of matching at small books.
use basicmatch.Base.{
  ℕ, List, [], ◌∷◌, ◌++◌, ◌≡◌, ◌-◌, Text, codes, All, arith, sum_of, map, Ensures, empty_map, false,
}
use basicmatch.Types.{OrderInfo, Side, OrderAction, submit, cancel}
use basicmatch.Book.{Node, Levels, ahead}
use basicmatch.Engine.{Engine, empty_engine, execute, run}
use basicmatch.Engine.Orderly.{Fits, AreOrderly, run-AreOrderly}
use basicmatch.Engine.Numbers.{CountsAt, execute-CountsAt}
use basicmatch.Match.{Run, match}
use basicmatch.Match.Queue.{queue, crossing, beyond, quantity, trades, remaining, trade_of}
use basicmatch.Match.Priority.{match_priority}

abbrev ibm : Text
ibm = codes "IBM"

abbrev order : ℕ → Side → ℕ → ℕ → OrderInfo
order id side qty price = record { id = id; symbol = ibm; side = side; qty = qty; price = price }

abbrev session : List OrderAction
session =
    submit (order 1 Side.sell 10 100)
    ∷ submit (order 2 Side.sell 5 99)
    ∷ submit (order 3 Side.buy 12 100)
    ∷ cancel 1
    ∷ []

abbrev fits : All Fits session
fits = (omega arith, (omega arith, (omega arith, (tt, tt))))

-- The book of a sell of 10 at 100 and one of 5 at 99, in the order of the prices.
abbrev node : ℕ → OrderInfo → Node
node ref o = record { ref = ref; order = o }

abbrev sells : Levels
sells =
    (99, node 1 (order 2 Side.sell 5 99) ∷ []) ∷ (100, node 0 (order 1 Side.sell 10 100) ∷ []) ∷ []

abbrev start : Run
start = record { orders = empty_map; completed = λ _. false; txn_id = 3; results = []; events = [] }

match_priority_example :
    let o = order 3 Side.buy 12 100 in
    let (r', o', ls') = match o sells start in
    let hit = queue (crossing o sells) in
    (o' ≡ record o { qty = 12 - sum_of quantity hit })
    × (map trade_of r'.events ≡ map trade_of start.events ++ trades 12 hit)
    × (queue ls' ≡ remaining 12 hit ++ queue (beyond o sells))
match_priority_example =
    match_priority (order 3 Side.buy 12 100) sells start (omega arith)
      ((omega arith, omega arith), ((omega arith, omega arith), tt))

run-AreOrderly_example : Ensures (λ e. AreOrderly e.books) (run session empty_engine)
run-AreOrderly_example = run-AreOrderly session fits

abbrev resting : Engine
resting = record {
  orders = empty_map;
  completed = λ _. false;
  books = record { symbol = ibm; txn_id = 3; sells = sells; buys = [] } ∷ [];
  next_ref = 2;
}

resting-AreOrderly : AreOrderly resting.books
unfolding ahead
resting-AreOrderly = (
  record {
    sells = ground arith;
    buys = tt;
    sells_sorted = ground arith;
    buys_sorted = tt;
    uncrossed = (tt, (tt, tt));
  },
  tt,
)

execute-CountsAt_example :
    Ensures
      (λ x. (s : Text) × CountsAt s resting x)
      (execute (submit (order 3 Side.buy 12 100)) resting)
execute-CountsAt_example = execute-CountsAt (submit (order 3 Side.buy 12 100)) resting
