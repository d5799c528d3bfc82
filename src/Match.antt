-- ===== src/Match.antt =====
-- engine.cpp: `fill` and `match`, and what they write besides the levels and the order.
pub mod Queue
pub mod Level
pub mod Priority
pub mod Shape
pub mod Split
pub mod Orderly
use basicmatch.Base.{
  ℕ, ◌+◌, ◌-◌, ◌%◌, ◌^◌, not, ◌||◌, List, [], ◌∷◌, ◌++◌, Text, ltb, ◌==◌, if◌then◌else◌, IdMap,
  IdSet, erase, insert,
}
use basicmatch.Types.{Side, OrderInfo, OrderAction, filled, crosses}
use basicmatch.Book.{Node, Levels}

-- The calls of fill_cb_, submit_cb_ and cancel_cb_, in order.
pub data Event : Type 0 where
  fill_event : Text → ℕ → ℕ → ℕ → Event
  submit_event : Text → ℕ → ℕ → Side → ℕ → ℕ → Event
  cancel_event : Text → ℕ → ℕ → ℕ → Event

-- What a call of `match` writes besides the levels and the order.
pub record Run : Type 0 where
  pub orders : IdMap ℕ
  pub completed : IdSet
  pub txn_id : ℕ
  pub results : List OrderAction
  pub events : List Event

-- uint16_t subtraction and uint64_t increment.
unfoldable pub sub16 : ℕ → ℕ → ℕ
sub16 a b = (a + 2 ^ 16 - b) % 2 ^ 16

unfoldable pub next64 : ℕ → ℕ
next64 a = (a + 1) % 2 ^ 64

-- The report of a fill carries the fill's quantity and price.
unfoldable pub report : OrderInfo → ℕ → ℕ → OrderAction
report o qty price = filled (record o { qty = qty; price = price })

-- The new state, `small` and `large`.
unfoldable pub fill : OrderInfo → OrderInfo → ℕ → ℕ → Run → Run × OrderInfo × OrderInfo
unfolding sub16 report
fill small large price txn_id r =
    let fill_qty = small.qty in
    let large' : OrderInfo = record large { qty = sub16 large.qty fill_qty } in
    let small' : OrderInfo = record small { qty = 0 } in
    (
      record r {
        orders = erase small.id r.orders;
        completed = insert small.id r.completed;
        results = r.results ++ report small' fill_qty price ∷ report large' fill_qty price ∷ [];
        events = r.events ++ fill_event large.symbol txn_id fill_qty price ∷ [];
      },
      small',
      large',
    )

-- txn_id++ as the argument of `fill`.
unfoldable pub bump_txn : Run → Run
unfolding next64
bump_txn r = record r { txn_id = next64 r.txn_id }

-- The inner loop, over the nodes of the first level. The list that it returns is empty when the
-- loop has popped the last node; the loop does not run at a level that is empty at the start.
unfoldable pub match_level : OrderInfo → ℕ → List Node → Run → Run × OrderInfo × List Node
unfolding fill bump_txn
match_level o p [] r = (r, o, [])
match_level o p (n ∷ ns) r =
    let partial = fill o n.order p r.txn_id (bump_txn r) in
    let complete = fill n.order o p r.txn_id (bump_txn r) in
    let rest = match_level complete.2 p ns complete.0 in
    if o.qty == 0
    then (r, o, n ∷ ns)
    else if ltb o.qty n.order.qty
    then (partial.0, partial.1, record n { order = partial.2 } ∷ ns)
    else rest

-- What the outer loop does after the inner one: with the level erased it goes on with the next,
-- and it stops at a level that is left, where the order has no quantity any more.
unfoldable pub after_level :
    ℕ → Levels → Run × OrderInfo × List Node → Run × OrderInfo × Levels → Run × OrderInfo × Levels
after_level p ls (r, o, []) next = next
after_level p ls (r, o, n ∷ ns) next = (r, o, (p, n ∷ ns) ∷ ls)

-- The outer loop, over the levels from the best price.
unfoldable pub match : OrderInfo → Levels → Run → Run × OrderInfo × Levels
unfolding match_level after_level
match o [] r = (r, o, [])
match o ((p, l) ∷ ls) r =
    let here = match_level o p l r in
    let next = match here.1 ls here.0 in
    let all = after_level p ls here next in
    if o.qty == 0 || not (crosses o p) then (r, o, (p, l) ∷ ls) else all
