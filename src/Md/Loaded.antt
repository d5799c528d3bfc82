-- ===== src/Md/Loaded.antt =====
-- md.cpp: a snapshot's levels, put into a level book.
use basicmatch.Base.{
  ℕ, ◌+◌, ◌<◌, ◌^◌, ◌≡◌, ◌==◌, ◌&&◌, not, Bool, true, false, List, [], ◌∷◌, All, arith, refl, ap,
  ◌∙◌, sum_of, take, Bool-cases, inl, inr, if◌then◌else◌,
}
use basicmatch.Types.{Side}
use basicmatch.Msg.{WireLevel}
use basicmatch.LevelBook.{
  LevelBook, Half, far, clear, clear_half, submit, add, empty_slots, new_half, new_level_book,
}
use basicmatch.LevelBook.Held.{held}
use basicmatch.LevelBook.Refines.{
  IsSoundBook, new_level_book-IsSoundBook, quantity, set_quantity, submit-refines,
}
use basicmatch.Md.{load_levels}
use basicmatch.Md.Sync.{add-symbol}

-- The levels of a message: those before the first without a side.
abbrev pub listed : List WireLevel → List WireLevel
listed [] = []
listed (l ∷ ls) = if l.side == 0 then [] else l ∷ listed ls

abbrev pub wire_side : WireLevel → Side
wire_side l = if l.side == b'B' then Side.buy else Side.sell

-- The quantity of one level, where it is of the side and at the price.
abbrev pub wire_qty : Side → ℕ → WireLevel → ℕ
wire_qty Side.buy p l = if l.side == b'B' && (l.price == p) then l.qty else 0
wire_qty _ p l = if not (l.side == b'B') && (l.price == p) then l.qty else 0

abbrev pub wire_held : Side → ℕ → List WireLevel → ℕ
wire_held s p = sum_of (wire_qty s p)

-- The price of a level that can rest.
abbrev pub IsPriced : WireLevel → Type 0
IsPriced l = (l.price == far (wire_side l)) ≡ false

-- A book after one level more.
abbrev AddsWire : WireLevel → LevelBook → LevelBook → Type 0
AddsWire l b b' =
    IsSoundBook b' × ((s : Side) (p : ℕ) → quantity s p b' ≡ quantity s p b + wire_qty s p l)

bought :
    (l : WireLevel) (b : LevelBook)
    → (l.side == b'B') ≡ true
    → (s : Side) (p : ℕ)
    → set_quantity Side.buy l.price (quantity Side.buy l.price b + l.qty) b s p
      ≡ quantity s p b + wire_qty s p l
bought l b z Side.none p = ground (arith, z)
bought l b z Side.buy p = ground (arith, z)
bought l b z Side.sell p = ground (arith, z)

sold :
    (l : WireLevel) (b : LevelBook)
    → (l.side == b'B') ≡ false
    → (s : Side) (p : ℕ)
    → set_quantity Side.sell l.price (quantity Side.sell l.price b + l.qty) b s p
      ≡ quantity s p b + wire_qty s p l
sold l b z Side.none p = ground (arith, z)
sold l b z Side.buy p = ground (arith, z)
sold l b z Side.sell p = ground (arith, z)

add_wire :
    (l : WireLevel) (b : LevelBook)
    → IsPriced l
    → quantity (wire_side l) l.price b + l.qty < 2 ^ 32
    → IsSoundBook b
    → AddsWire l b (add (wire_side l) l.price l.qty b).0
unfolding submit
add_wire l b n f k = elim (Bool-cases (l.side == b'B')) [
  | inl z ↦
      let (g, e) = submit-refines Side.buy l.price l.qty b (rw z at n) (rw z at f) k in
      rw z (g, λ s p. e s p ∙ bought l b z s p)
  | inr z ↦
      let (g, e) = submit-refines Side.sell l.price l.qty b (rw z at n) (rw z at f) k in
      rw z (g, λ s p. e s p ∙ sold l b z s p)
]

own_wire : (l : WireLevel) → wire_qty (wire_side l) l.price l ≡ l.qty
own_wire l = elim (Bool-cases (l.side == b'B')) [
  | inl z ↦ rw z (ground (arith, z))
  | inr z ↦ rw z (ground (arith, z))
]

-- A snapshot's levels, at prices that are not infinite, are added to a sound book where no sum goes
-- over 32 bits: it stays sound, and holds in addition what the levels list.
pub load_levels-listed :
    (r : Bool) (ls : List WireLevel) (b : LevelBook)
    → All IsPriced (listed ls)
    → ((s : Side) (p : ℕ) → quantity s p b + wire_held s p (listed ls) < 2 ^ 32)
    → IsSoundBook b
    → IsSoundBook (load_levels r ls b).0
      × ((s : Side) (p : ℕ)
          → quantity s p (load_levels r ls b).0 ≡ quantity s p b + wire_held s p (listed ls))
unfolding load_levels
load_levels-listed r [] b n f k = (k, λ s p. omega arith)
load_levels-listed r (l ∷ ls) b n f k = elim (Bool-cases (l.side == 0)) [
  | inl z ↦ rw z (k, λ s p. omega arith)
  | inr z ↦
      let n' : IsPriced l × All IsPriced (listed ls) = rw z at n in
      let f' : (s : Side) (p : ℕ)
          → quantity s p b + (wire_qty s p l + wire_held s p (listed ls)) < 2 ^ 32 =
        rw z at f in
      let (g, e) = add_wire l b n'.0 (omega (arith, f' (wire_side l) l.price, own_wire l)) k in
      let b' = (add (wire_side l) l.price l.qty b).0 in
      let (g', e') = load_levels-listed r ls b' n'.1 (λ s p. omega (arith, e s p, f' s p)) g in
      rw z (g', λ s p. omega (arith, e s p, e' s p))
]

-- No level of the book is outside its arrays.
abbrev pub IsPlain : LevelBook → Type 0
IsPlain b = (b.sells.outer ≡ (far Side.sell, 0) ∷ []) × (b.buys.outer ≡ (far Side.buy, 0) ∷ [])

clear_half-new_half :
    (s : Side) (h : Half) → h.outer ≡ (far s, 0) ∷ [] → clear_half s h ≡ new_half s
unfolding clear_half new_half
clear_half-new_half s h e = ap (λ o. record { slots = empty_slots s; outer = take 1 o }) e

-- Such a book is sound when it is cleared, and holds nothing.
pub clear-IsSoundBook :
    (b : LevelBook)
    → IsPlain b
    → IsSoundBook (clear b) × ((s : Side) (p : ℕ) → quantity s p (clear b) ≡ 0)
unfolding clear new_level_book
clear-IsSoundBook b (e, f) =
    let k = (new_level_book-IsSoundBook b.symbol Side.buy 0).0 in
    let sells = clear_half-new_half Side.sell b.sells e in
    let buys = clear_half-new_half Side.buy b.buys f in
    (record { buys = rw buys k.buys; sells = rw sells k.sells }, λ s p. nothing p sells buys s)
  where
    nothing :
        (p : ℕ)
        → clear_half Side.sell b.sells ≡ new_half Side.sell
        → clear_half Side.buy b.buys ≡ new_half Side.buy
        → (s : Side) → quantity s p (clear b) ≡ 0
    nothing p sells buys Side.none =
        ap (held p) sells ∙ (new_level_book-IsSoundBook b.symbol Side.none p).1
    nothing p sells buys Side.buy =
        ap (held p) buys ∙ (new_level_book-IsSoundBook b.symbol Side.buy p).1
    nothing p sells buys Side.sell =
        ap (held p) sells ∙ (new_level_book-IsSoundBook b.symbol Side.sell p).1

-- A book keeps its symbol.
pub clear-symbol : (b : LevelBook) → (clear b).symbol ≡ b.symbol
unfolding clear
clear-symbol b = refl

pub load_levels-symbol :
    (r : Bool) (ls : List WireLevel) (b : LevelBook) → (load_levels r ls b).0.symbol ≡ b.symbol
unfolding load_levels
load_levels-symbol r [] b = refl
load_levels-symbol r (l ∷ ls) b = elim (Bool-cases (l.side == 0)) [
  | inl z ↦ rw z refl
  | inr z ↦
      let s = wire_side l in
      rw z (load_levels-symbol r ls (add s l.price l.qty b).0 ∙ add-symbol s l.price l.qty b)
]
