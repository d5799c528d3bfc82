-- ===== src/Engine.antt =====
-- engine.h and engine.cpp: submitting, cancelling, printing, and the registers of orders.
pub mod Orderly
pub mod Registry
pub mod Replies
pub mod Reports
pub mod Conserved
pub mod Used
pub mod Accepted
pub mod Numbers
use mathlib.Core.Option
use mathlib.Core.List.{flat_map}
use basicmatch.Base.{
  ℕ, ◌+◌, Bool, true, false, ◌||◌, List, [], ◌∷◌, ◌++◌, Option, none, some, Text, Text-discrete,
  ite, ◌==◌, if◌then◌else◌, IdMap, IdSet, empty_map, put, erase, insert, codes, or_else,
}
use basicmatch.Types.{
  Side, OrderInfo, OrderAction, error, cancel, submit, filled, printed, print_all,
}
use basicmatch.Book.{
  Node, Level, Levels, Book, new_book, own, opposite, add_order, remove_side, dump, side_levels,
  set_side,
}
use basicmatch.Match.{Event, cancel_event, submit_event, Run, next64, match}

pub record Engine : Type 0 where
  pub orders : IdMap ℕ
  pub completed : IdSet
  pub books : List Book
  pub next_ref : ℕ

-- The results and the callbacks of one call.
pub record Output : Type 0 where
  pub results : List OrderAction
  pub events : List Event

abbrev pub empty_engine : Engine
empty_engine = record { orders = empty_map; completed = λ _. false; books = []; next_ref = 0 }

-- The messages of the errors, as in the source.
abbrev pub no_order_found : Text
no_order_found = codes "no order found for id"

abbrev pub duplicate_id : Text
duplicate_id = codes "duplciate order id"

abbrev pub invalid_qty : Text
invalid_qty = codes "invalid [0] qty for order"

unfoldable pub find_book : Text → List Book → Option Book
find_book s [] = none
find_book s (b ∷ bs) = ite (Text-discrete b.symbol s) (some b) (find_book s bs)

-- The books with the one of this symbol replaced, or with this one added.
unfoldable pub store_book : Book → List Book → List Book
store_book b [] = b ∷ []
store_book b (c ∷ cs) = ite (Text-discrete c.symbol b.symbol) (b ∷ cs) (c ∷ store_book b cs)

-- The book of the symbol, a new one if there is none; `store_book` writes it back.
unfoldable pub get_book : Text → List Book → Book
unfolding find_book new_book
get_book s bs = Option.get_or (find_book s bs) (new_book s)

-- *it: the order in the node at an address, with `none` for a node that is not there.
unfoldable pub deref_nodes : ℕ → List Node → Option OrderInfo
deref_nodes r [] = none
deref_nodes r (n ∷ ns) = if n.ref == r then some n.order else deref_nodes r ns

unfoldable pub deref_levels : ℕ → Levels → Option OrderInfo
unfolding deref_nodes
deref_levels r [] = none
deref_levels r ((p, l) ∷ ls) = or_else (deref_nodes r l) (deref_levels r ls)

unfoldable pub deref : ℕ → List Book → Option OrderInfo
unfolding deref_levels
deref r [] = none
deref r (b ∷ bs) = or_else (deref_levels r b.sells) (or_else (deref_levels r b.buys) (deref r bs))

abbrev pub Executed : Type 0
Executed = Engine × Output

abbrev pub reply : Engine → OrderAction → Executed
reply e a = (e, record { results = a ∷ []; events = [] })

-- `none` is undefined behaviour: an iterator that points at no node, or not into the level where
-- it is erased. Otherwise an id that is not resting is an error.
unfoldable pub cancel_at : ℕ → ℕ → OrderInfo → Engine → Option Executed
unfolding get_book store_book next64 own
cancel_at order_id ref o e =
    let book = get_book o.symbol e.books in
    let counted : Book = record book { txn_id = next64 book.txn_id } in
    Option.map
      (λ book'. (
        record e {
          orders = erase order_id e.orders;
          completed = insert order_id e.completed;
          books = store_book book' e.books;
        },
        record {
          results = cancel order_id ∷ [];
          events = cancel_event o.symbol book.txn_id o.qty o.price ∷ [];
        },
      ))
      (remove_side (own o.side) o.price ref counted)

unfoldable pub handle_cancel : ℕ → Engine → Option Executed
unfolding cancel_at deref
handle_cancel order_id e = elim (e.orders order_id) [
  | none ↦ some (reply e (error (record { id = order_id; msg = no_order_found })))
  | some ref ↦ Option.bind (deref ref e.books) (λ o. cancel_at order_id ref o e)
]

unfoldable pub is_some {ℓ} : {A : Type ℓ} → Option A → Bool
is_some none = false
is_some (some a) = true

-- The order that is left is put into the book, and its node's address into the register.
unfoldable pub rest_order : Run → OrderInfo → Book → Engine → Executed
unfolding store_book next64
rest_order r o book e =
    let node : Node = record { ref = e.next_ref; order = o } in
    let placed = add_order node book in
    (
      record {
        orders = put o.id e.next_ref r.orders;
        completed = r.completed;
        books = store_book (record placed { txn_id = next64 r.txn_id }) e.books;
        next_ref = e.next_ref + 1;
      },
      record {
        results = r.results;
        events = r.events ++ submit_event o.symbol r.txn_id o.id o.side o.qty o.price ∷ [];
      },
    )

-- The order was filled: the book is written back with what is left of its levels.
unfoldable pub filled_order : Run → Book → Engine → Executed
unfolding store_book
filled_order r book e = (
  record {
    orders = r.orders;
    completed = r.completed;
    books = store_book (record book { txn_id = r.txn_id }) e.books;
    next_ref = e.next_ref;
  },
  record { results = r.results; events = r.events },
)

-- After matching: the levels are the book's, and an order with quantity left is put into it.
unfoldable pub settle : Side → Book → Engine → Run × OrderInfo × Levels → Executed
unfolding set_side
settle s book e (r, o, levels) =
    let book' = set_side s levels book in
    if o.qty == 0 then filled_order r book' e else rest_order r o book' e

abbrev pub start_run : Engine → Book → Run
start_run e book = record {
  orders = e.orders;
  completed = e.completed;
  txn_id = book.txn_id;
  results = [];
  events = [];
}

unfoldable pub accept : OrderInfo → Engine → Executed
accept o e =
    let book = get_book o.symbol e.books in
    settle (opposite o.side) book e
      (match o (side_levels (opposite o.side) book) (start_run e book))

unfoldable pub handle_submit : OrderInfo → Engine → Executed
unfolding is_some
handle_submit o e =
    if is_some (e.orders o.id) || e.completed o.id
    then reply e (error (record { id = o.id; msg = duplicate_id }))
    else if o.qty == 0
    then reply e (error (record { id = o.id; msg = invalid_qty }))
    else accept o e

-- The results start empty: `BasicMatch::action` clears them. A type that is none of the three runs
-- into the assertion, which is `none` as well.
unfoldable pub execute : OrderAction → Engine → Option Executed
unfolding handle_submit handle_cancel accept settle get_book match opposite side_levels filled_order
    rest_order
execute (submit o) e = some (handle_submit o e)
execute (cancel id) e = handle_cancel id e
execute print_all e = some (e, record { results = flat_map dump e.books; events = [] })
execute _ e = none

-- The engine after a list of actions, in order.
unfoldable pub run : List OrderAction → Engine → Option Engine
run [] e = some e
run (a ∷ rest) e = Option.bind (execute a e) (λ x. run rest x.0)
