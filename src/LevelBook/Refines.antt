-- ===== src/LevelBook/Refines.antt =====
-- A level book is two maps from price to quantity: the operations on the book are those on the maps.
use basicmatch.Base.{
  ℕ, ap, ◌∙◌, ◌-◌, Bool, true, not, ◌&&◌, if◌then◌else◌, ◌+◌, ◌<◌, ◌≤◌, ◌^◌, ◌≡◌, ◌==◌, false,
  arith, refl, some, List, Text,
}
use basicmatch.Types.{Side, ActionType}
use basicmatch.LevelBook.{
  LevelBook, Half, BookEvent, Told, told_level, told_all, told_nothing, tell, add, submit, remove,
  far, add_half, new_level_book,
}
use basicmatch.LevelBook.Held.{held, IsSound}
use basicmatch.LevelBook.Adding.{add_half-IsAdded}
use basicmatch.LevelBook.Removing.{remove_half-IsRemoved}

abbrev pub quantity : Side → ℕ → LevelBook → ℕ
quantity Side.buy p b = held p b.buys
quantity _ p b = held p b.sells

pub record IsSoundBook (b : LevelBook) : Type 0 where
  pub buys : IsSound Side.buy b.buys
  pub sells : IsSound Side.sell b.sells

-- A new book is sound and holds nothing.
pub new_level_book-IsSoundBook :
    (symbol : Text) (s : Side) (p : ℕ)
    → IsSoundBook (new_level_book symbol) × (quantity s p (new_level_book symbol) ≡ 0)
unfolding new_level_book
new_level_book-IsSoundBook symbol s p =
    (record { buys = ground arith; sells = ground arith }, none_held s)
  where
    none_held : (s : Side) → quantity s p (new_level_book symbol) ≡ 0
    none_held Side.none = ground arith
    none_held Side.buy = ground arith
    none_held Side.sell = ground arith

abbrev pub is_buy : Side → Bool
is_buy Side.buy = true
is_buy _ = false

-- What is held after a change by which a price of a side holds `v`.
abbrev pub set_quantity : Side → ℕ → ℕ → LevelBook → Side → ℕ → ℕ
set_quantity s p v b s' p' =
    if is_buy s
    then (if is_buy s' && (p == p') then v else quantity s' p' b)
    else (if not (is_buy s') && (p == p') then v else quantity s' p' b)

-- Counting the change and calling back leave the levels alone.
pub tell-quantity :
    (s : Side) (p q : ℕ) (t : ActionType) (b : LevelBook) (told : Told)
    → let b' = (tell s p q t b told).0 in (b'.buys ≡ b.buys) × (b'.sells ≡ b.sells)
unfolding tell
tell-quantity s p q t b told_level = (refl, refl)
tell-quantity s p q t b told_all = (refl, refl)
tell-quantity s p q t b told_nothing = (refl, refl)

-- A book with one half replaced by one that holds another quantity at a price.
with_buys :
    (p v : ℕ) (b c : LevelBook) (h : Half)
    → c.buys ≡ h
    → c.sells ≡ b.sells
    → ((p' : ℕ) → held p' h ≡ (if p == p' then v else held p' b.buys))
    → (s' : Side) (p' : ℕ) → quantity s' p' c ≡ set_quantity Side.buy p v b s' p'
with_buys p v b c h e f k Side.none p' = ap (held p') f
with_buys p v b c h e f k Side.buy p' = ap (held p') e ∙ k p'
with_buys p v b c h e f k Side.sell p' = ap (held p') f

with_sells :
    (p v : ℕ) (b c : LevelBook) (h : Half)
    → c.sells ≡ h
    → c.buys ≡ b.buys
    → ((p' : ℕ) → held p' h ≡ (if p == p' then v else held p' b.sells))
    → (s' : Side) (p' : ℕ) → quantity s' p' c ≡ set_quantity Side.sell p v b s' p'
with_sells p v b c h e f k Side.none p' = ap (held p') e ∙ k p'
with_sells p v b c h e f k Side.buy p' = ap (held p') f
with_sells p v b c h e f k Side.sell p' = ap (held p') e ∙ k p'

-- The side that an operation on `s` works on.
abbrev pub side_of : Side → Side
side_of Side.buy = Side.buy
side_of _ = Side.sell

-- The state and what is held after an operation that sets a quantity.
abbrev pub Sets : Side → ℕ → ℕ → LevelBook → LevelBook → Type 0
Sets s p v b c =
    IsSoundBook c × ((s' : Side) (p' : ℕ) → quantity s' p' c ≡ set_quantity s p v b s' p')

module _ (p v q : ℕ) (t : ActionType) (b : LevelBook) (k : IsSoundBook b) (h : Half)
    (told : Told) where
  tell-buys :
      IsSound Side.buy h
      → ((p' : ℕ) → held p' h ≡ (if p == p' then v else held p' b.buys))
      → Sets Side.buy p v b (tell Side.buy p q t (record b { buys = h }) told).0
  tell-buys g e =
      let c = tell Side.buy p q t (record b { buys = h }) told in
      let (i, j) = tell-quantity Side.buy p q t (record b { buys = h }) told in
      (record { buys = rw i g; sells = rw j k.sells }, with_buys p v b c.0 h i j e)

  tell-sells :
      IsSound Side.sell h
      → ((p' : ℕ) → held p' h ≡ (if p == p' then v else held p' b.sells))
      → Sets Side.sell p v b (tell Side.sell p q t (record b { sells = h }) told).0
  tell-sells g e =
      let c = tell Side.sell p q t (record b { sells = h }) told in
      let (i, j) = tell-quantity Side.sell p q t (record b { sells = h }) told in
      (record { buys = rw i k.buys; sells = rw j g }, with_sells p v b c.0 h j i e)

added_sell :
    (p q : ℕ) (b : LevelBook)
    → (p == far Side.sell) ≡ false
    → held p b.sells + q < 2 ^ 32
    → IsSoundBook b
    → Sets Side.sell p (held p b.sells + q) b (add Side.sell p q b).0
unfolding add
added_sell p q b n f k =
    let (g, e) = add_half-IsAdded Side.sell p q b.sells k.sells n f in
    tell-sells p (held p b.sells + q) q ActionType.submit b k (add_half Side.sell p q b.sells).0
      (add_half Side.sell p q b.sells).1 g (λ p'. ground (arith, e p'))

removed_buy :
    (p q : ℕ) (t : ActionType) (b : LevelBook)
    → (p == far Side.buy) ≡ false
    → held p b.buys < 2 ^ 32
    → q ≤ held p b.buys
    → IsSoundBook b
    → (out : LevelBook × List BookEvent) × (remove Side.buy p q t b ≡ some out)
      × Sets Side.buy p (held p b.buys - q) b out.0
unfolding remove
removed_buy p q t b n f le k =
    let (out, i, r) = remove_half-IsRemoved Side.buy p q b.buys k.buys n f le in
    (
      tell Side.buy p q t (record b { buys = out.0 }) out.1,
      rw i refl,
      tell-buys p (held p b.buys - q) q t b k out.0 out.1 r.0 (λ p'. ground (arith, r.1 p')),
    )

removed_sell :
    (p q : ℕ) (t : ActionType) (b : LevelBook)
    → (p == far Side.sell) ≡ false
    → held p b.sells < 2 ^ 32
    → q ≤ held p b.sells
    → IsSoundBook b
    → (out : LevelBook × List BookEvent) × (remove Side.sell p q t b ≡ some out)
      × Sets Side.sell p (held p b.sells - q) b out.0
unfolding remove
removed_sell p q t b n f le k =
    let (out, i, r) = remove_half-IsRemoved Side.sell p q b.sells k.sells n f le in
    (
      tell Side.sell p q t (record b { sells = out.0 }) out.1,
      rw i refl,
      tell-sells p (held p b.sells - q) q t b k out.0 out.1 r.0 (λ p'. ground (arith, r.1 p')),
    )

-- Adding to a sound book, at a price that is not infinite and with a sum that fits 32 bits, leaves
-- it sound, and the side holds the quantity more at the price; nothing else that is held changes.
pub submit-refines :
    (s : Side) (p q : ℕ) (b : LevelBook)
    → (p == far (side_of s)) ≡ false
    → quantity s p b + q < 2 ^ 32
    → IsSoundBook b
    → let b' = (submit s p q b).0 in
      IsSoundBook b'
      × ((s' : Side) (p' : ℕ) → quantity s' p' b' ≡ set_quantity s p (quantity s p b + q) b s' p')
unfolding submit add
submit-refines Side.buy p q b n f k =
    let (g, e) = add_half-IsAdded Side.buy p q b.buys k.buys n f in
    tell-buys p (quantity Side.buy p b + q) q ActionType.submit b k (add_half Side.buy p q b.buys).0
      (add_half Side.buy p q b.buys).1 g (λ p'. ground (arith, e p'))
submit-refines Side.none p q b n f k = added_sell p q b n f k
submit-refines Side.sell p q b n f k = added_sell p q b n f k

-- Removing no more than a side holds at a price is defined, keeps the book sound, and takes the
-- quantity from the side at that price; nothing else that is held changes.
pub remove-refines :
    (s : Side) (p q : ℕ) (t : ActionType) (b : LevelBook)
    → (p == far (side_of s)) ≡ false
    → quantity s p b < 2 ^ 32
    → q ≤ quantity s p b
    → IsSoundBook b
    → (out : LevelBook × List BookEvent) × (remove (side_of s) p q t b ≡ some out)
      × Sets s p (quantity s p b - q) b out.0
remove-refines Side.buy p q t b n f le k = removed_buy p q t b n f le k
remove-refines Side.none p q t b n f le k = removed_sell p q t b n f le k
remove-refines Side.sell p q t b n f le k = removed_sell p q t b n f le k
