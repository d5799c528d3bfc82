-- ===== src/Book.antt =====
-- book.h and book.cpp: the orders of one symbol, in two maps from price to a queue of orders.
pub mod Order
use mathlib.Core.Option
use mathlib.Core.List.{reverse, flat_map}
use basicmatch.Base.{
  ℕ, Bool, List, [], ◌∷◌, ◌++◌, Option, none, some, map, Text, ltb, ◌==◌, if◌then◌else◌,
}
use basicmatch.Types.{Side, OrderInfo, OrderAction, printed}

-- A list node of a level. `ref` is its address, which is what an iterator to it holds.
pub record Node : Type 0 where
  pub ref : ℕ
  pub order : OrderInfo

-- The nodes of one price, oldest first.
abbrev pub Level : Type 0
Level = ℕ × List Node

-- One of the two std::map, in its iteration order.
abbrev pub Levels : Type 0
Levels = List Level

pub record Book : Type 0 where
  pub symbol : Text
  pub txn_id : ℕ
  pub sells : Levels
  pub buys : Levels

-- The map's key order: sells_ by std::less, buys_ by std::greater.
unfoldable pub ahead : Side → ℕ → ℕ → Bool
ahead Side.buy a b = ltb b a
ahead _ a b = ltb a b

unfoldable pub new_book : Text → Book
new_book symbol = record { symbol = symbol; txn_id = 1; sells = []; buys = [] }

-- levels[price].push_back(node)
unfoldable pub push_order : Side → ℕ → Node → Levels → Levels
push_order s p n [] = (p, n ∷ []) ∷ []
push_order s p n ((q, l) ∷ ls) =
    if p == q
    then (q, l ++ n ∷ []) ∷ ls
    else if ahead s p q
    then (p, n ∷ []) ∷ (q, l) ∷ ls
    else (q, l) ∷ push_order s p n ls

unfoldable pub side_levels : Side → Book → Levels
side_levels Side.buy b = b.buys
side_levels _ b = b.sells

unfoldable pub set_side : Side → Levels → Book → Book
set_side Side.buy ls b = record b { buys = ls }
set_side _ ls b = record b { sells = ls }

-- (side == BUY) ? buys_ : sells_, as the side of that map.
unfoldable pub own : Side → Side
own Side.buy = Side.buy
own _ = Side.sell

-- A buy is matched against sells_, any other order against buys_.
unfoldable pub opposite : Side → Side
opposite Side.buy = Side.sell
opposite _ = Side.buy

unfoldable pub place : Side → Node → Book → Book
unfolding side_levels set_side
place s n b = set_side s (push_order s n.order.price n (side_levels s b)) b

-- The book's part of `add_order`; the caller records the iterator in its map of orders.
unfoldable pub add_order : Node → Book → Book
unfolding own place
add_order n b = place (own n.order.side) n b

-- level.erase(it), with `none` for an iterator that is not into this list.
unfoldable pub erase_node : ℕ → List Node → Option (List Node)
erase_node r [] = none
erase_node r (n ∷ ns) = if n.ref == r then some ns else Option.map (◌∷◌ n) (erase_node r ns)

-- A level that has become empty is erased.
unfoldable pub keep_level : ℕ → List Node → Levels → Levels
keep_level p [] ls = ls
keep_level p (n ∷ ns) ls = (p, n ∷ ns) ∷ ls

-- `none` where find(price) is end(), or the node is not in the level that it finds.
unfoldable pub remove_order : ℕ → ℕ → Levels → Option Levels
unfolding erase_node keep_level
remove_order p r [] = none
remove_order p r ((q, l) ∷ ls) =
    if p == q
    then Option.map (λ l'. keep_level q l' ls) (erase_node r l)
    else Option.map (◌∷◌ (q, l)) (remove_order p r ls)

-- remove_buy or remove_sell, by the side of the order.
unfoldable pub remove_side : Side → ℕ → ℕ → Book → Option Book
unfolding side_levels set_side
remove_side s p r b = Option.map (λ ls. set_side s ls b) (remove_order p r (side_levels s b))

abbrev pub print_level : Level → List OrderAction
print_level (p, l) = map (λ n. printed n.order) l

-- Sells from the highest price down, then buys from the highest price down.
unfoldable pub dump : Book → List OrderAction
dump b = flat_map print_level (reverse b.sells) ++ flat_map print_level b.buys
