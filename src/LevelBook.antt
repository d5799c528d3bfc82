-- ===== src/LevelBook.antt =====
-- level_book.h: the best levels of each side in an array, and the other levels in a map.
pub mod Held
pub mod Print
pub mod Adding
pub mod Removing
pub mod Small
pub mod Steps
pub mod Refines
use mathlib.Core.Option
use basicmatch.Base.{
  ℕ, ◌+◌, ◌-◌, ◌%◌, ◌^◌, Bool, true, false, List, [], ◌∷◌, ◌++◌, Option, none, some, Text, take,
  replicate, ltb, ◌==◌, if◌then◌else◌,
}
use basicmatch.Types.{ActionType, trade, Side, neg_infinity, infinity}
use basicmatch.Book.{ahead}

pub record Level : Type 0 where
  pub qty : ℕ
  pub price : ℕ

-- The array of one side and its outer map, in the map's key order.
pub record Half : Type 0 where
  pub slots : List Level
  pub outer : List (ℕ × ℕ)

pub record LevelBook : Type 0 where
  pub book_id : ℕ
  pub symbol : Text
  pub sells : Half
  pub buys : Half

-- The calls of level_update_cb_ and snapshot_cb_. The book that a callback reads is the new one.
pub data BookEvent : Type 0 where
  level_update : ℕ → Side → ℕ → ℕ → ActionType → BookEvent
  snapshot : ℕ → BookEvent

abbrev pub t_levels : ℕ
t_levels = 4

-- The price of a slot that holds nothing: beyond every other price of its side.
abbrev pub far : Side → ℕ
far Side.buy = neg_infinity
far _ = infinity

unfoldable pub empty_slots : Side → List Level
empty_slots s = replicate t_levels (record { qty = 0; price = far s })

unfoldable pub new_half : Side → Half
unfolding empty_slots
new_half s = record { slots = empty_slots s; outer = (far s, 0) ∷ [] }

unfoldable pub new_level_book : Text → LevelBook
unfolding new_half
new_level_book symbol = record {
  book_id = 0;
  symbol = symbol;
  sells = new_half Side.sell;
  buys = new_half Side.buy;
}

-- uint32_t and uint64_t arithmetic.
unfoldable pub add32 : ℕ → ℕ → ℕ
add32 a b = (a + b) % 2 ^ 32

unfoldable pub sub32 : ℕ → ℕ → ℕ
sub32 a b = (a + 2 ^ 32 - b) % 2 ^ 32

unfoldable pub next_id : ℕ → ℕ
next_id a = (a + 1) % 2 ^ 64

-- outer.erase(++outer.begin(), outer.end()): the first entry stays.
unfoldable pub clear_half : Side → Half → Half
unfolding empty_slots
clear_half s h = record { slots = empty_slots s; outer = take 1 h.outer }

unfoldable pub clear : LevelBook → LevelBook
unfolding clear_half next_id
clear b = record b {
  book_id = next_id b.book_id;
  sells = clear_half Side.sell b.sells;
  buys = clear_half Side.buy b.buys;
}

-- outer[price] = f(outer[price]), where a missing entry is made with 0.
unfoldable pub outer_update : Side → ℕ → (ℕ → ℕ) → List (ℕ × ℕ) → List (ℕ × ℕ)
outer_update s p f [] = (p, f 0) ∷ []
outer_update s p f ((k, v) ∷ m) =
    if p == k
    then (k, f v) ∷ m
    else if ahead s p k
    then (p, f 0) ∷ (k, v) ∷ m
    else (k, v) ∷ outer_update s p f m

-- The array without its last slot, and that slot.
unfoldable pub drop_last : Level → List Level → List Level
drop_last l [] = []
drop_last l (m ∷ ms) = l ∷ drop_last m ms

unfoldable pub last_slot : Level → List Level → Level
last_slot l [] = l
last_slot l (m ∷ ms) = last_slot m ms

-- What a scan of the array did: changed the slot of the price, or put a new one before a slot.
pub data Scan : Type 0 where
  changed : List Level → Scan
  inserted : List Level → Level → Scan

abbrev pub behind_slot : Level → Scan → Scan
behind_slot l (changed ls) = changed (l ∷ ls)
behind_slot l (inserted ls last) = inserted (l ∷ ls) last

-- The loop of `add_buy` and `add_sell` over the slots, with `none` if it finds none. An insertion
-- shifts the slots from there on, and drops the last.
unfoldable pub add_slots : Side → ℕ → ℕ → List Level → Option Scan
unfolding add32 drop_last last_slot
add_slots s p q [] = none
add_slots s p q (l ∷ ls) =
    if ahead s l.price p
    then Option.map (behind_slot l) (add_slots s p q ls)
    else if p == l.price
    then some (changed (record l { qty = add32 l.qty q } ∷ ls))
    else some (inserted (record { qty = q; price = p } ∷ drop_last l ls) (last_slot l ls))

-- The slot that drops out goes to the outer map if it holds anything.
unfoldable pub keep_dropped : Side → Level → List (ℕ × ℕ) → List (ℕ × ℕ)
unfolding outer_update
keep_dropped s l m = if l.qty == 0 then m else outer_update s l.price (λ _. l.qty) m

-- What a callback is told: a change of one level, all the levels, or nothing.
pub data Told : Type 0 where
  told_level told_all told_nothing : Told

unfoldable pub after_scan : Side → ℕ → ℕ → Half → Option Scan → Half × Told
unfolding outer_update keep_dropped add32
after_scan s p q h none =
    (record h { outer = outer_update s p (λ v. add32 v q) h.outer }, told_nothing)
after_scan s p q h (some (changed ls)) = (record h { slots = ls }, told_level)
after_scan s p q h (some (inserted ls d)) =
    (record { slots = ls; outer = keep_dropped s d h.outer }, told_all)

-- The changes that `add_buy` and `add_sell` make.
unfoldable pub add_half : Side → ℕ → ℕ → Half → Half × Told
add_half s p q h = after_scan s p q h (add_slots s p q h.slots)

-- The loop of `remove_buy` and `remove_sell`: the slots with the price's slot changed, or the slots
-- without it once it holds nothing.
pub data Cut : Type 0 where
  lowered : List Level → Cut
  erased : List Level → Cut

abbrev pub behind_cut : Level → Cut → Cut
behind_cut l (lowered ls) = lowered (l ∷ ls)
behind_cut l (erased ls) = erased (l ∷ ls)

unfoldable pub cut_slots : ℕ → ℕ → List Level → Option Cut
unfolding sub32
cut_slots p q [] = none
cut_slots p q (l ∷ ls) =
    if l.price == p
    then some
        (if sub32 l.qty q == 0 then erased ls else lowered (record l { qty = sub32 l.qty q } ∷ ls))
    else Option.map (behind_cut l) (cut_slots p q ls)

-- The first outer level moves into the last slot, and leaves the map if it holds anything. `none`
-- where the map is empty: begin() is read there all the same.
unfoldable pub promote : List Level → List (ℕ × ℕ) → Option Half
promote ls [] = none
promote ls ((k, v) ∷ m) = some (record {
  slots = ls ++ record { qty = v; price = k } ∷ [];
  outer = if v == 0 then (k, v) ∷ m else m;
})

unfoldable pub after_cut : Side → ℕ → ℕ → Half → Option Cut → Option (Half × Told)
unfolding outer_update promote sub32
after_cut s p q h none =
    some (record h { outer = outer_update s p (λ v. sub32 v q) h.outer }, told_nothing)
after_cut s p q h (some (lowered ls)) = some (record h { slots = ls }, told_level)
after_cut s p q h (some (erased ls)) = Option.map (λ h'. (h', told_all)) (promote ls h.outer)

-- The changes that `remove_buy` and `remove_sell` make.
unfoldable pub remove_half : Side → ℕ → ℕ → Half → Option (Half × Told)
remove_half s p q h = after_cut s p q h (cut_slots p q h.slots)

unfoldable pub half : Side → LevelBook → Half
half Side.buy b = b.buys
half _ b = b.sells

unfoldable pub set_half : Side → Half → LevelBook → LevelBook
set_half Side.buy h b = record b { buys = h }
set_half _ h b = record b { sells = h }

-- book_id_ is counted up where the array changes; the quantity of a callback is a uint16_t.
unfoldable pub tell : Side → ℕ → ℕ → ActionType → LevelBook → Told → LevelBook × List BookEvent
unfolding next_id
tell s p q t b told_nothing = (b, [])
tell s p q t b told_level = (
  record b { book_id = next_id b.book_id },
  level_update (next_id b.book_id) s (q % 2 ^ 16) p t ∷ [],
)
tell s p q t b told_all =
    (record b { book_id = next_id b.book_id }, snapshot (next_id b.book_id) ∷ [])

-- add_buy and add_sell.
unfoldable pub add : Side → ℕ → ℕ → LevelBook → LevelBook × List BookEvent
unfolding add_half add_slots after_scan half set_half tell
add s p q b =
    let (h, told) = add_half s p q (half s b) in tell s p q ActionType.submit (set_half s h b) told

-- remove_buy and remove_sell.
unfoldable pub remove : Side → ℕ → ℕ → ActionType → LevelBook → Option (LevelBook × List BookEvent)
unfolding remove_half cut_slots after_cut half set_half tell
remove s p q t b =
    Option.map (λ (h, told). tell s p q t (set_half s h b) told) (remove_half s p q (half s b))

-- The price of the first slot.
abbrev pub best : Side → List Level → ℕ
best s [] = far s
best s (l ∷ ls) = l.price

unfoldable pub submit : Side → ℕ → ℕ → LevelBook → LevelBook × List BookEvent
unfolding add
submit Side.buy p q b = add Side.buy p q b
submit _ p q b = add Side.sell p q b

unfoldable pub trade_at : ℕ → ℕ → LevelBook → Option (LevelBook × List BookEvent)
unfolding remove
trade_at p q b =
    if p == best Side.sell b.sells.slots
    then remove Side.sell p q trade b
    else remove Side.buy p q trade b

unfoldable pub cancel : ℕ → ℕ → LevelBook → Option (LevelBook × List BookEvent)
unfolding remove
cancel p q b =
    if ltb p (best Side.sell b.sells.slots)
    then remove Side.buy p q ActionType.cancel b
    else remove Side.sell p q ActionType.cancel b
