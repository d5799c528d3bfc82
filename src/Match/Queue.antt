-- ===== src/Match/Queue.antt =====
-- What matching promises, said without its loops: the resting orders in priority order, each of
-- which gets what is left of the incoming quantity, up to its own.
use Prim.Native.Nat.{min}
use basicmatch.Base.{ℕ, ◌-◌, List, [], ◌∷◌, ◌++◌, map, ◌==◌, if◌then◌else◌}
use basicmatch.Types.{OrderInfo, crosses}
use basicmatch.Book.{Node, Level, Levels}
use basicmatch.Book.Order.{IsQty}
use basicmatch.Match.{Event, fill_event, submit_event, cancel_event}

-- A resting order with the price of its level.
abbrev pub Entry : Type 0
Entry = ℕ × Node

abbrev pub entries : Level → List Entry
entries (p, l) = map (λ n. (p, n)) l

abbrev pub queue : Levels → List Entry
queue [] = []
queue (l ∷ ls) = entries l ++ queue ls

-- The levels that the order crosses, before the first that it does not, and the others.
abbrev pub crossing : OrderInfo → Levels → Levels
crossing o [] = []
crossing o ((p, l) ∷ ls) = if crosses o p then (p, l) ∷ crossing o ls else []

abbrev pub beyond : OrderInfo → Levels → Levels
beyond o [] = []
beyond o ((p, l) ∷ ls) = if crosses o p then beyond o ls else (p, l) ∷ ls

abbrev pub quantity : Entry → ℕ
quantity (p, n) = n.order.qty

-- A trade: the price of the level and the quantity.
abbrev pub Trade : Type 0
Trade = ℕ × ℕ

abbrev add_trade : ℕ → ℕ → List Trade → List Trade
add_trade p q ts = if q == 0 then ts else (p, q) ∷ ts

abbrev pub trades : ℕ → List Entry → List Trade
trades q [] = []
trades q ((p, n) ∷ es) = add_trade p (min q n.order.qty) (trades (q - n.order.qty) es)

abbrev pub lower : ℕ → Node → Node
lower k n = record n { order = record (n.order) { qty = k } }

abbrev add_entry : ℕ → Node → ℕ → List Entry → List Entry
add_entry p n k es = if k == 0 then es else (p, lower k n) ∷ es

-- The resting orders that are left, each with what is left of it.
abbrev pub remaining : ℕ → List Entry → List Entry
remaining q [] = []
remaining q ((p, n) ∷ es) = add_entry p n (n.order.qty - q) (remaining (q - n.order.qty) es)

-- The quantity of an entry is one of an accepted order.
abbrev pub HasQty : Entry → Type 0
HasQty e = IsQty (quantity e)

abbrev pub trade_of : Event → Trade
trade_of (fill_event s t q p) = (p, q)
trade_of (submit_event s t i d q p) = (p, q)
trade_of (cancel_event s t q p) = (p, q)
