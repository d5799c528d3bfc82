-- ===== src/Match/Orderly.antt =====
-- A book in order: its two maps, and every buy below every sell; kept by the book's operations.
use basicmatch.Base.{
  ℕ, ◌<◌, ◌≢◌, List, [], ◌∷◌, All, All-map, All-zip, ◌≡◌, arith, Ensures, Ensures-map, Ensures-both,
}
use basicmatch.Types.{Side, OrderInfo, crosses}
use basicmatch.Book.{
  Node, Level, Levels, Book, ahead, remove_order, remove_side, own, place, set_side,
}
use basicmatch.Book.Order.{
  HasQty, IsLevel, IsSorted, push_order-IsLevel, push_order-keys, push_order-IsSorted,
  remove_order-IsLevel, remove_order-IsSorted,
}
use basicmatch.Match.Shape.{IsDone}

abbrev pub Any : ℕ → Type 0
Any p = Unit

-- Every buy price is below every sell price.
abbrev pub IsUncrossed : Levels → Levels → Type 0
IsUncrossed sells buys = All (λ s. All (λ b. b.0 < s.0) buys) sells

pub record IsOrderly (b : Book) : Type 0 where
  pub sells : All (IsLevel Any) b.sells
  pub buys : All (IsLevel Any) b.buys
  pub sells_sorted : IsSorted Side.sell b.sells
  pub buys_sorted : IsSorted Side.buy b.buys
  pub uncrossed : IsUncrossed b.sells b.buys

pub All-swap {ℓ κ ι} :
    {A : Type ℓ} {B : Type κ} (R : A → B → Type ι) (xs : List A) (ys : List B)
    → All (λ x. All (λ y. R x y) ys) xs
    → All (λ y. All (λ x. R x y) xs) ys
All-swap R xs [] h = tt
All-swap R xs (y ∷ ys) h = (All-map (λ x k. k.0) xs h, All-swap R xs ys (All-map (λ x k. k.1) xs h))

module _ (K : ℕ → Type 0) where
  pub with_keys : (ls : Levels) → All (λ m. K m.0) ls → All (IsLevel Any) ls → All (IsLevel K) ls
  with_keys [] h k = tt
  with_keys ((p, l) ∷ ls) h k = ((h.0, k.0.1, k.0.2), with_keys ls h.1 k.1)

  keys : (ls : Levels) → All (IsLevel K) ls → All (λ m. K m.0) ls
  keys ls = All-map (λ m k. k.0) ls

  no_keys : (ls : Levels) → All (IsLevel K) ls → All (IsLevel Any) ls
  no_keys ls = All-map (λ m k. (tt, k.1, k.2)) ls

-- An order that is left when matching stops crosses no level of the other side.
pub IsDone-buy :
    (o : OrderInfo) (ls : Levels)
    → o.side ≡ Side.buy
    → 0 < o.qty
    → IsSorted Side.sell ls
    → IsDone o ls
    → All (λ m. o.price < m.0) ls
unfolding crosses ahead
IsDone-buy o [] s q h d = tt
IsDone-buy o ((p, l) ∷ ls) s q h d =
    let first : o.price < p = ground arith in (first, All-map (λ m k. ground arith) ls h.0)

pub IsDone-sell :
    (o : OrderInfo) (ls : Levels)
    → o.side ≢ Side.buy
    → 0 < o.qty
    → IsSorted Side.buy ls
    → IsDone o ls
    → All (λ m. m.0 < o.price) ls
unfolding crosses ahead
IsDone-sell o [] s q h d = tt
IsDone-sell o ((p, l) ∷ ls) s q h d =
    let first : p < o.price = ground arith in (first, All-map (λ m k. ground arith) ls h.0)

-- A price that the other side's levels are all beyond.
abbrev pub IsClear : Side → ℕ → Book → Type 0
IsClear Side.buy p b = All (λ m. p < m.0) b.sells
IsClear _ p b = All (λ m. m.0 < p) b.buys

-- Adding a node whose price crosses no order of the other side.
place-IsOrderly-buy :
    (n : Node) (b : Book)
    → HasQty n
    → IsClear Side.buy n.order.price b
    → IsOrderly b
    → IsOrderly (place Side.buy n b)
unfolding place
place-IsOrderly-buy n b q h k = record {
  sells = k.sells;
  buys = push_order-IsLevel Any Side.buy n.order.price n b.buys tt q k.buys;
  sells_sorted = k.sells_sorted;
  buys_sorted = push_order-IsSorted Side.buy n.order.price n b.buys k.buys_sorted;
  uncrossed =
      All-map (λ m (c, u). push_order-keys (λ p. p < m.0) Side.buy n.order.price n b.buys c u)
        b.sells (All-zip _ _ b.sells h k.uncrossed);
}

place-IsOrderly-sell :
    (n : Node) (b : Book)
    → HasQty n
    → IsClear Side.sell n.order.price b
    → IsOrderly b
    → IsOrderly (place Side.sell n b)
unfolding place
place-IsOrderly-sell n b q h k = record {
  sells = push_order-IsLevel Any Side.sell n.order.price n b.sells tt q k.sells;
  buys = k.buys;
  sells_sorted = push_order-IsSorted Side.sell n.order.price n b.sells k.sells_sorted;
  buys_sorted = k.buys_sorted;
  uncrossed =
      push_order-keys (λ p. All (λ m. m.0 < p) b.buys) Side.sell n.order.price n b.sells h
        k.uncrossed;
}

pub place-IsOrderly :
    (s : Side) (n : Node) (b : Book)
    → HasQty n
    → IsClear (own s) n.order.price b
    → IsOrderly b
    → IsOrderly (place (own s) n b)
unfolding own
place-IsOrderly Side.buy n b = place-IsOrderly-buy n b
place-IsOrderly Side.none n b = place-IsOrderly-sell n b
place-IsOrderly Side.sell n b = place-IsOrderly-sell n b

-- A map's levels replaced by others with the same keys at most.
pub set-IsOrderly-sell :
    (ls : Levels) (b : Book)
    → All (IsLevel (λ p. All (λ m. m.0 < p) b.buys)) ls
    → IsSorted Side.sell ls
    → IsOrderly b
    → IsOrderly (set_side Side.sell ls b)
unfolding set_side
set-IsOrderly-sell ls b h s k = record {
  sells = no_keys _ ls h;
  buys = k.buys;
  sells_sorted = s;
  buys_sorted = k.buys_sorted;
  uncrossed = keys _ ls h;
}

pub set-IsOrderly-buy :
    (ls : Levels) (b : Book)
    → All (IsLevel (λ p. All (λ m. p < m.0) b.sells)) ls
    → IsSorted Side.buy ls
    → IsOrderly b
    → IsOrderly (set_side Side.buy ls b)
unfolding set_side
set-IsOrderly-buy ls b h s k = record {
  sells = k.sells;
  buys = no_keys _ ls h;
  sells_sorted = k.sells_sorted;
  buys_sorted = s;
  uncrossed = All-swap (λ b s. b.0 < s.0) ls b.sells (keys _ ls h);
}

remove-keys :
    (K : ℕ → Type 0) (s : Side) (p ref : ℕ) (ls : Levels)
    → All (λ m. K m.0) ls
    → All (IsLevel Any) ls
    → IsSorted s ls
    → Ensures (λ ls'. All (IsLevel K) ls' × IsSorted s ls') (remove_order p ref ls)
remove-keys K s p ref ls h k g =
    Ensures-both _ _ (remove_order p ref ls) (remove_order-IsLevel K p ref ls (with_keys K ls h k))
      (remove_order-IsSorted s p ref ls g)

remove_side-buy :
    (p ref : ℕ) (b : Book) → IsOrderly b → Ensures IsOrderly (remove_side Side.buy p ref b)
unfolding remove_side
remove_side-buy p ref b k =
    let K = λ (p : ℕ). All (λ (m : Level). p < m.0) b.sells in
    Ensures-map _ IsOrderly (λ ls. set_side Side.buy ls b) (remove_order p ref b.buys)
      (λ ls h. set-IsOrderly-buy ls b h.0 h.1 k)
      (remove-keys K Side.buy p ref b.buys (All-swap (λ s b. b.0 < s.0) b.sells b.buys k.uncrossed)
        k.buys k.buys_sorted)

remove_side-sell :
    (p ref : ℕ) (b : Book) → IsOrderly b → Ensures IsOrderly (remove_side Side.sell p ref b)
unfolding remove_side
remove_side-sell p ref b k =
    let K = λ (p : ℕ). All (λ (m : Level). m.0 < p) b.buys in
    Ensures-map _ IsOrderly (λ ls. set_side Side.sell ls b) (remove_order p ref b.sells)
      (λ ls h. set-IsOrderly-sell ls b h.0 h.1 k)
      (remove-keys K Side.sell p ref b.sells k.uncrossed k.sells k.sells_sorted)

pub remove_side-IsOrderly :
    (s : Side) (p ref : ℕ) (b : Book)
    → IsOrderly b
    → Ensures IsOrderly (remove_side (own s) p ref b)
unfolding own
remove_side-IsOrderly Side.buy = remove_side-buy
remove_side-IsOrderly Side.none = remove_side-sell
remove_side-IsOrderly Side.sell = remove_side-sell
