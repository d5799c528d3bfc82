-- ===== src/Md/Mirrored.antt =====
-- engine.cpp and level_book.h: the fills of an order, as trades of a level book.
use basicmatch.Base.{
  ℕ, ◌+◌, ◌<◌, ◌≤◌, ◌^◌, ◌≡◌, ◌==◌, ◌⊎◌, inl, inr, false, List, [], ◌∷◌, some, All, arith, ap, ◌∙◌,
  sum_of, Bool-cases,
}
use basicmatch.Types.{Side, infinity, neg_infinity}
use basicmatch.Book.{Node, Levels, opposite}
use basicmatch.Book.Order.{Behind}
use basicmatch.LevelBook.{LevelBook, BookEvent, half, trade_at}
use basicmatch.LevelBook.Held.{held}
use basicmatch.LevelBook.Refines.{IsSoundBook}
use basicmatch.LevelBook.Small.{IsNear}
use basicmatch.LevelBook.Steps.{IsSmallBook, trade_buy, trade_sell}
use basicmatch.Engine.Registry.Volume.{qty_of}
use basicmatch.BasicMatch.Snapshot.{level_qty}

-- A level book whose one side holds what levels hold, and whose other side is as it was.
pub record Mirrors (s : Side) (ls : Levels) (before b : LevelBook) : Type 0 where
  pub sound : IsSoundBook b
  pub small : IsSmallBook b
  pub holds : (p : ℕ) → held p (half s b) ≡ sum_of (level_qty p) ls
  pub fits : (p : ℕ) → held p (half s b) < 2 ^ 32
  pub other : half (opposite s) b ≡ half (opposite s) before

-- A trade at the price finds its side: a buy is below every sell.
abbrev pub CanTrade : Side → ℕ → LevelBook → Type 0
CanTrade Side.buy p before =
    ((p == neg_infinity) ≡ false) × (p < infinity) × ((p' : ℕ) → 0 < held p' before.sells → p < p')
CanTrade _ p before = ((p == infinity) ≡ false) × IsNear Side.sell p

-- What is held is at the first level, or behind it.
first_level :
    (s : Side) (p p' : ℕ) (l : List Node) (ls : Levels)
    → All (λ m. Behind s p m.0) ls
    → 0 < sum_of (level_qty p') ((p, l) ∷ ls)
    → (p' ≡ p) ⊎ Behind s p p'
first_level s p p' l [] a z = ground arith
first_level s p p' l ((q, m) ∷ ls) a z = elim (Bool-cases (q == p')) [
  | inl y ↦ inr (ground (arith, a.0, y))
  | inr y ↦ first_level s p p' l ls a.1 (ground (arith, y))
]

module _ (p q : ℕ) (l l' : List Node) (ls : Levels) (before b : LevelBook) (z : 0 < q)
    (e : sum_of qty_of l' + q ≡ sum_of qty_of l) where
  trade_buys :
      CanTrade Side.buy p before
      → Mirrors Side.buy ((p, l) ∷ ls) before b
      → (out : LevelBook × List BookEvent) × (trade_at p q b ≡ some out)
        × Mirrors Side.buy ((p, l') ∷ ls) before out.0
  unfolding half opposite
  trade_buys (n, f, w) k =
      let below =
        λ (p' : ℕ) (y : 0 < held p' b.sells). w p' (omega (arith, y, ap (held p') k.other)) in
      let enough : q ≤ held p b.buys = let here = k.holds p in ground (arith, here, e) in
      let (out, r, (sets, small, same)) =
        trade_buy b k.small k.sound p q n f below z enough (k.fits p) in
      (
        out,
        r,
        record {
          sound = sets.0;
          small = small;
          holds = λ p'.
              let now = sets.1 Side.buy p' in
              let was = k.holds p' in let at_p = k.holds p in ground (arith, now, was, at_p, e);
          fits = λ p'.
              let now = sets.1 Side.buy p' in
              let was = k.fits p' in let at_p = k.fits p in ground (arith, now, was, at_p);
          other = same ∙ k.other;
        },
      )

  module _ (a : All (λ m. Behind Side.sell p m.0) ls) where
    trade_sells :
        CanTrade Side.sell p before
        → Mirrors Side.sell ((p, l) ∷ ls) before b
        → (out : LevelBook × List BookEvent) × (trade_at p q b ≡ some out)
          × Mirrors Side.sell ((p, l') ∷ ls) before out.0
    unfolding half opposite
    trade_sells (n, w) k =
        let first = λ (p' : ℕ) (y : 0 < held p' b.sells).
          first_level Side.sell p p' l ls a (omega (arith, y, k.holds p')) in
        let enough : q ≤ held p b.sells = let here = k.holds p in ground (arith, here, e) in
        let (out, r, (sets, small, same)) =
          trade_sell b k.small k.sound p q n w first z enough (k.fits p) in
        (
          out,
          r,
          record {
            sound = sets.0;
            small = small;
            holds = λ p'.
                let now = sets.1 Side.sell p' in
                let was = k.holds p' in let at_p = k.holds p in ground (arith, now, was, at_p, e);
            fits = λ p'.
                let now = sets.1 Side.sell p' in
                let was = k.fits p' in let at_p = k.fits p in ground (arith, now, was, at_p);
            other = same ∙ k.other;
          },
        )

-- The fills of a side's levels, by the side of the levels.
abbrev pub Trades : Side → Type 0
Trades s =
    (p q : ℕ) (l l' : List Node) (ls : Levels) (before b : LevelBook)
    → 0 < q
    → sum_of qty_of l' + q ≡ sum_of qty_of l
    → All (λ m. Behind s p m.0) ls
    → CanTrade s p before
    → Mirrors s ((p, l) ∷ ls) before b
    → (out : LevelBook × List BookEvent) × (trade_at p q b ≡ some out)
      × Mirrors s ((p, l') ∷ ls) before out.0

pub Trades-buy : Trades Side.buy
Trades-buy p q l l' ls before b z e a = trade_buys p q l l' ls before b z e

pub Trades-sell : Trades Side.sell
Trades-sell p q l l' ls before b z e a = trade_sells p q l l' ls before b z e a
