-- ===== src/Md/Ready.antt =====
-- engine.cpp and level_book.h: what matching an order needs of the levels that it works off.
use basicmatch.Base.{
  ℕ, ◌<◌, ◌^◌, ◌==◌, inl, inr, [], ◌∷◌, All, All-map, All-zip, arith, refl, sum_of, Bool-cases,
}
use basicmatch.Types.{Side}
use basicmatch.Book.{Levels, Book, opposite, side_levels, ahead}
use basicmatch.Book.Order.{IsLevel, IsQty, IsSorted}
use basicmatch.Match.Orderly.{IsOrderly, All-swap, Any}
use basicmatch.Md.Mirrored.{Trades, Mirrors, CanTrade, Trades-buy, Trades-sell}
use basicmatch.LevelBook.{LevelBook, half, far}
use basicmatch.LevelBook.Refines.{quantity}
use basicmatch.Engine.Registry.Volume.{qty_of}
use basicmatch.BasicMatch.Snapshot.{level_qty}
use basicmatch.Md.Shown.{Shows, HasFinite}

uncrossed_price :
    (p p' : ℕ) (ls : Levels) → All (λ m. p < m.0) ls → 0 < sum_of (level_qty p') ls → p < p'
uncrossed_price p p' [] a z = absurd (omega arith)
uncrossed_price p p' ((q, l) ∷ ls) a z = elim (Bool-cases (q == p')) [
  | inl y ↦ ground (arith, a.0, y)
  | inr y ↦ uncrossed_price p p' ls a.1 (ground (arith, y))
]

module _ (k : Book) (b : LevelBook) (g : IsOrderly k) (f : HasFinite k) (h : Shows k b) where
  pub CanTrade-sells : All (λ m. CanTrade Side.sell m.0 b) k.sells
  unfolding ahead far
  CanTrade-sells = All-map (λ m (z, w). ground arith) k.sells f.0

  pub CanTrade-buys : All (λ m. CanTrade Side.buy m.0 b) k.buys
  CanTrade-buys =
      All-map
        (λ m (u, x). (
          ground (arith, x.0),
          x.1,
          λ p' y. uncrossed_price m.0 p' k.sells u (omega (arith, y, h.holds Side.sell p')),
        ))
        k.buys (All-zip _ _ k.buys (All-swap (λ x y. y.0 < x.0) k.sells k.buys g.uncrossed) f.1)

  -- What matching needs of the levels that it works off.
  abbrev pub IsReady : Side → Levels → Type 0
  IsReady s ls =
      All (IsLevel Any) ls
      × All (λ m. All (λ n. IsQty (qty_of n)) m.1) ls
      × All (λ m. CanTrade s m.0 b) ls
      × IsSorted s ls
      × Mirrors s ls b b

  pub ready :
      (s : Side)
      → ((s' : Side) (p : ℕ) → quantity s' p b < 2 ^ 32)
      → IsReady (opposite s) (side_levels (opposite s) k)
  unfolding opposite side_levels half
  ready Side.buy w = (
    g.sells,
    All-map (λ m x. x.2) k.sells g.sells,
    CanTrade-sells,
    g.sells_sorted,
    record {
      sound = h.sound;
      small = h.small;
      holds = h.holds Side.sell;
      fits = w Side.sell;
      other = refl;
    },
  )
  ready Side.none w = (
    g.buys,
    All-map (λ m x. x.2) k.buys g.buys,
    CanTrade-buys,
    g.buys_sorted,
    record {
      sound = h.sound;
      small = h.small;
      holds = h.holds Side.buy;
      fits = w Side.buy;
      other = refl;
    },
  )
  ready Side.sell w = (
    g.buys,
    All-map (λ m x. x.2) k.buys g.buys,
    CanTrade-buys,
    g.buys_sorted,
    record {
      sound = h.sound;
      small = h.small;
      holds = h.holds Side.buy;
      fits = w Side.buy;
      other = refl;
    },
  )

pub opposite-Trades : (s : Side) → Trades (opposite s)
unfolding opposite
opposite-Trades Side.buy = Trades-sell
opposite-Trades Side.sell = Trades-buy
opposite-Trades Side.none = Trades-buy
