-- ===== src/Md/Shown.antt =====
-- engine.cpp and level_book.h: what a level book holds, and what rests in the book that it follows.
use mathlib.Core.Option
use basicmatch.Base.{
  ℕ, ◌+◌, ◌<◌, ◌^◌, ◌≡◌, ◌==◌, false, [], ◌∷◌, some, map, All, arith, refl, ap, ◌∙◌, sum_of,
  sum_of-append, Text, if◌then◌else◌,
}
use basicmatch.Types.{Side, infinity}
use basicmatch.Book.{
  Node, Levels, Book, new_book, own, opposite, push_order, place, add_order, set_side, side_levels,
  ahead,
}
use basicmatch.Match.{submit_event}
use basicmatch.Md.{apply_action}
use basicmatch.Md.Sync.{apply_all}
use basicmatch.Md.InStep.{action_of}
use basicmatch.Md.Mirrored.{Mirrors}
use basicmatch.LevelBook.{LevelBook, new_level_book, half, submit, far}
use basicmatch.LevelBook.Held.{held}
use basicmatch.LevelBook.Refines.{IsSoundBook, new_level_book-IsSoundBook, quantity, set_quantity}
use basicmatch.LevelBook.Small.{IsNear, HasSpace}
use basicmatch.LevelBook.Steps.{IsSmallBook, Changes, submit_small}
use basicmatch.Engine.Registry.Volume.{qty_of}
use basicmatch.BasicMatch.Snapshot.{level_qty, resting}

-- A level book of at most four levels a side that holds what rests in a book.
pub record Shows (k : Book) (b : LevelBook) : Type 0 where
  pub sound : IsSoundBook b
  pub small : IsSmallBook b
  pub holds : (s : Side) (p : ℕ) → quantity s p b ≡ resting s p k

push_order-level_qty :
    (s : Side) (p p' : ℕ) (n : Node) (ls : Levels)
    → sum_of (level_qty p') (push_order s p n ls)
      ≡ sum_of (level_qty p') ls + (if p == p' then qty_of n else 0)
unfolding push_order
push_order-level_qty s p p' n [] = ground arith
push_order-level_qty s p p' n ((q, l) ∷ ls) =
    ground (arith, push_order-level_qty s p p' n ls, sum_of-append qty_of l (n ∷ []))

module _ (n : Node) (k : Book) (b : LevelBook)
    (h : (s : Side) (p : ℕ) → quantity s p b ≡ resting s p k) where
  pub placed-resting :
      (s s' : Side) (p : ℕ)
      → set_quantity s n.order.price (quantity s n.order.price b + n.order.qty) b s' p
        ≡ resting s' p (place (own s) n k)
  unfolding place own set_side side_levels
  placed-resting Side.buy Side.buy p =
      ground (arith, h Side.buy p, push_order-level_qty Side.buy n.order.price p n k.buys)
  placed-resting Side.buy Side.sell p = h Side.sell p
  placed-resting Side.buy Side.none p = h Side.none p
  placed-resting Side.sell Side.buy p = h Side.buy p
  placed-resting Side.sell Side.sell p =
      ground (arith, h Side.sell p, push_order-level_qty Side.sell n.order.price p n k.sells)
  placed-resting Side.sell Side.none p =
      ground (arith, h Side.sell p, push_order-level_qty Side.sell n.order.price p n k.sells)
  placed-resting Side.none Side.buy p = h Side.buy p
  placed-resting Side.none Side.sell p =
      ground (arith, h Side.sell p, push_order-level_qty Side.sell n.order.price p n k.sells)
  placed-resting Side.none Side.none p =
      ground (arith, h Side.sell p, push_order-level_qty Side.sell n.order.price p n k.sells)

pub changed_book :
    (s : Side) (p v : ℕ) (b c : LevelBook)
    → Changes s p v b c
    → IsSoundBook c
      × IsSmallBook c
      × ((s' : Side) (p' : ℕ) → quantity s' p' c ≡ set_quantity s p v b s' p')
changed_book Side.buy p v b c ((g, e), m, i) = (g, m, e)
changed_book Side.none p v b c ((g, e), m, i) = (g, m, λ s' p'. e s' p')
changed_book Side.sell p v b c ((g, e), m, i) = (g, m, e)

-- Matching changes the side it matches against.
matched-resting :
    (s s' : Side) (p : ℕ) (ls : Levels) (k : Book) (b c : LevelBook)
    → Shows k b
    → Mirrors (opposite s) ls b c
    → quantity s' p c ≡ resting s' p (set_side (opposite s) ls k)
unfolding opposite set_side half
matched-resting Side.buy Side.buy p ls k b c h m = ap (held p) m.other ∙ h.holds Side.buy p
matched-resting Side.buy Side.sell p ls k b c h m = m.holds p
matched-resting Side.buy Side.none p ls k b c h m = m.holds p
matched-resting Side.sell Side.buy p ls k b c h m = m.holds p
matched-resting Side.sell Side.sell p ls k b c h m = ap (held p) m.other ∙ h.holds Side.sell p
matched-resting Side.sell Side.none p ls k b c h m = ap (held p) m.other ∙ h.holds Side.sell p
matched-resting Side.none Side.buy p ls k b c h m = m.holds p
matched-resting Side.none Side.sell p ls k b c h m = ap (held p) m.other ∙ h.holds Side.sell p
matched-resting Side.none Side.none p ls k b c h m = ap (held p) m.other ∙ h.holds Side.sell p

pub matched-Shows :
    (s : Side) (ls : Levels) (k : Book) (b c : LevelBook)
    → Shows k b
    → Mirrors (opposite s) ls b c
    → Shows (set_side (opposite s) ls k) c
matched-Shows s ls k b c h m = record {
  sound = m.sound;
  small = m.small;
  holds = λ s' p. matched-resting s s' p ls k b c h m;
}

-- A price that is not infinite.
abbrev pub IsFinite : ℕ → Type 0
IsFinite p = (0 < p) × (p < infinity)

abbrev pub HasFinite : Book → Type 0
HasFinite k = All (λ m. IsFinite m.0) k.sells × All (λ m. IsFinite m.0) k.buys

pub finite-IsNear :
    (s : Side) (p : ℕ) → IsFinite p → ((p == far (own s)) ≡ false) × IsNear (own s) p
unfolding own ahead far
finite-IsNear Side.none p f = ground arith
finite-IsNear Side.buy p f = ground arith
finite-IsNear Side.sell p f = ground arith

-- The half that an order goes to is not changed by matching it.
pub own_half :
    (s : Side) (ls : Levels) (b c : LevelBook) → Mirrors (opposite s) ls b c → half s c ≡ half s b
unfolding own opposite half
own_half Side.buy ls b c m = m.other
own_half Side.sell ls b c m = m.other
own_half Side.none ls b c m = m.other

pub quantity-half : (s : Side) (p : ℕ) (b : LevelBook) → quantity s p b ≡ held p (half s b)
unfolding own half
quantity-half Side.buy p b = refl
quantity-half Side.sell p b = refl
quantity-half Side.none p b = refl

pub with_txn_id-Shows :
    (t : ℕ) (k : Book) (b : LevelBook) → Shows k b → Shows (record k { txn_id = t }) b
with_txn_id-Shows t k b h = record {
  sound = h.sound;
  small = h.small;
  holds = λ s p. h.holds s p ∙ same s p;
}
  where
    same : (s : Side) (p : ℕ) → resting s p k ≡ resting s p (record k { txn_id = t })
    same Side.buy p = refl
    same Side.sell p = refl
    same Side.none p = refl

-- An order that is put into the book, and its submit.
pub rested-Shows :
    (n : Node) (k : Book) (c : LevelBook)
    → IsFinite n.order.price
    → 0 < n.order.qty
    → HasSpace (half n.order.side c).slots
    → quantity n.order.side n.order.price c + n.order.qty < 2 ^ 32
    → Shows k c
    → Shows (add_order n k) (submit n.order.side n.order.price n.order.qty c).0
unfolding add_order
rested-Shows n k c f z h w g =
    let s = n.order.side in
    let p = n.order.price in
    let (ne, near) = finite-IsNear s p f in
    let (sound, small, e) =
      changed_book s p (quantity s p c + n.order.qty) c (submit s p n.order.qty c).0
        (submit_small c g.small g.sound s p n.order.qty ne near h z w) in
    record {
      sound = sound;
      small = small;
      holds = λ s' p'. e s' p' ∙ placed-resting n k c g.holds s s' p';
    }

pub submitted :
    (sy : Text) (t i q p : ℕ) (d : Side) (b : LevelBook)
    → apply_all (map action_of (submit_event sy t i d q p ∷ [])) b ≡ some (submit d p q b).0
unfolding apply_all apply_action Option.bind
submitted sy t i q p d b = refl

-- At the start, nothing rests and nothing is held.
pub new_book-Shows : (symbol : Text) → Shows (new_book symbol) (new_level_book symbol)
unfolding new_book new_level_book
new_book-Shows symbol = record {
  sound = (new_level_book-IsSoundBook symbol Side.buy 0).0;
  small = record {
    buys = record { outer = refl; tight = ground arith; size = refl };
    sells = record { outer = refl; tight = ground arith; size = refl };
  };
  holds = λ s p. (new_level_book-IsSoundBook symbol s p).1 ∙ none_rest s p;
}
  where
    none_rest : (s : Side) (p : ℕ) → 0 ≡ resting s p (new_book symbol)
    none_rest Side.buy p = refl
    none_rest Side.sell p = refl
    none_rest Side.none p = refl
