-- ===== src/LevelBook/Steps.antt =====
-- The operations of a level book of at most four levels a side, as a feed calls them.
use basicmatch.Base.{
  ℕ, ◌+◌, ◌-◌, ◌<◌, ◌≤◌, ◌^◌, ◌≡◌, ◌==◌, ◌⊎◌, inl, inr, true, false, List, some, arith, Ensures,
  Ensures-map, Ensures-some,
}
use basicmatch.Types.{Side, ActionType, trade, infinity, neg_infinity}
use basicmatch.Book.{own}
use basicmatch.Book.Order.{Behind}
use basicmatch.LevelBook.{
  LevelBook, Half, BookEvent, Told, far, half, best, tell, add, add_half, remove, remove_half,
  submit, trade_at,
}
use basicmatch.LevelBook.Held.{held}
use basicmatch.LevelBook.Refines.{
  IsSoundBook, quantity, Sets, tell-quantity, submit-refines, remove-refines,
}
use basicmatch.LevelBook.Small.{
  IsSmall, HasSpace, IsNear, add_half-IsSmall, remove_half-IsSmall, best-held, best_first,
}

pub record IsSmallBook (b : LevelBook) : Type 0 where
  pub buys : IsSmall Side.buy b.buys
  pub sells : IsSmall Side.sell b.sells

-- A change of the buys, and one of the sells.
abbrev pub Changes : Side → ℕ → ℕ → LevelBook → LevelBook → Type 0
Changes Side.buy p v b c = Sets Side.buy p v b c × IsSmallBook c × (c.sells ≡ b.sells)
Changes _ p v b c = Sets Side.sell p v b c × IsSmallBook c × (c.buys ≡ b.buys)

module _ (b : LevelBook) (k : IsSmallBook b) where
  tell_buys :
      (p q : ℕ) (t : ActionType) (h : Half) (told : Told)
      → IsSmall Side.buy h
      → let c = (tell Side.buy p q t (record b { buys = h }) told).0 in
        IsSmallBook c × (c.sells ≡ b.sells)
  tell_buys p q t h told g =
      let (i, j) = tell-quantity Side.buy p q t (record b { buys = h }) told in
      (record { buys = rw i g; sells = rw j k.sells }, j)

  tell_sells :
      (p q : ℕ) (t : ActionType) (h : Half) (told : Told)
      → IsSmall Side.sell h
      → let c = (tell Side.sell p q t (record b { sells = h }) told).0 in
        IsSmallBook c × (c.buys ≡ b.buys)
  tell_sells p q t h told g =
      let (i, j) = tell-quantity Side.sell p q t (record b { sells = h }) told in
      (record { buys = rw i k.buys; sells = rw j g }, i)

  remove_buys :
      (p q : ℕ) (t : ActionType)
      → 0 < held p b.buys
      → Ensures (λ out. IsSmallBook out.0 × (out.0.sells ≡ b.sells)) (remove Side.buy p q t b)
  unfolding remove
  remove_buys p q t z =
      Ensures-map (λ out. IsSmall Side.buy out.0)
        (λ out. IsSmallBook out.0 × (out.0.sells ≡ b.sells)) _ (remove_half Side.buy p q b.buys)
        (λ out g. tell_buys p q t out.0 out.1 g) (remove_half-IsSmall Side.buy p q b.buys k.buys z)

  remove_sells :
      (p q : ℕ) (t : ActionType)
      → 0 < held p b.sells
      → Ensures (λ out. IsSmallBook out.0 × (out.0.buys ≡ b.buys)) (remove Side.sell p q t b)
  unfolding remove
  remove_sells p q t z =
      Ensures-map (λ out. IsSmall Side.sell out.0)
        (λ out. IsSmallBook out.0 × (out.0.buys ≡ b.buys)) _ (remove_half Side.sell p q b.sells)
        (λ out g. tell_sells p q t out.0 out.1 g)
        (remove_half-IsSmall Side.sell p q b.sells k.sells z)

  module _ (g : IsSoundBook b) where
    -- A price that is below every sell.
    abbrev IsBelow : ℕ → Type 0
    IsBelow p = (p' : ℕ) → 0 < held p' b.sells → p < p'

    below_best : (p : ℕ) → p < infinity → IsBelow p → p < best Side.sell b.sells.slots
    below_best p f n = elim (best-held Side.sell b.sells k.sells) [
      | inl e ↦ rw e f
      | inr z ↦ n (best Side.sell b.sells.slots) z
    ]

    removed_buy_small :
        (p q : ℕ) (t : ActionType)
        → (p == neg_infinity) ≡ false
        → 0 < q
        → q ≤ held p b.buys
        → held p b.buys < 2 ^ 32
        → (out : LevelBook × List BookEvent) × (remove Side.buy p q t b ≡ some out)
          × Changes Side.buy p (held p b.buys - q) b out.0
    removed_buy_small p q t n z le f =
        let (out, e, r) = remove-refines Side.buy p q t b n f le g in
        let (small, same) =
          Ensures-some _ (remove Side.buy p q t b) e (remove_buys p q t (omega arith)) in
        (out, e, (r, small, same))

    removed_sell_small :
        (p q : ℕ) (t : ActionType)
        → (p == infinity) ≡ false
        → 0 < q
        → q ≤ held p b.sells
        → held p b.sells < 2 ^ 32
        → (out : LevelBook × List BookEvent) × (remove Side.sell p q t b ≡ some out)
          × Changes Side.sell p (held p b.sells - q) b out.0
    removed_sell_small p q t n z le f =
        let (out, e, r) = remove-refines Side.sell p q t b n f le g in
        let (small, same) =
          Ensures-some _ (remove Side.sell p q t b) e (remove_sells p q t (omega arith)) in
        (out, e, (r, small, same))

    -- A trade at the best sell goes to the sells, and one below every sell to the buys.
    pub trade_buy :
        (p q : ℕ)
        → (p == neg_infinity) ≡ false
        → p < infinity
        → IsBelow p
        → 0 < q
        → q ≤ held p b.buys
        → held p b.buys < 2 ^ 32
        → (out : LevelBook × List BookEvent) × (trade_at p q b ≡ some out)
          × Changes Side.buy p (held p b.buys - q) b out.0
    unfolding trade_at
    trade_buy p q n f w z le h =
        let low = below_best p f w in
        let other : (p == best Side.sell b.sells.slots) ≡ false = ground arith in
        rw other (removed_buy_small p q trade n z le h)

    pub trade_sell :
        (p q : ℕ)
        → (p == infinity) ≡ false
        → IsNear Side.sell p
        → ((p' : ℕ) → 0 < held p' b.sells → (p' ≡ p) ⊎ Behind Side.sell p p')
        → 0 < q
        → q ≤ held p b.sells
        → held p b.sells < 2 ^ 32
        → (out : LevelBook × List BookEvent) × (trade_at p q b ≡ some out)
          × Changes Side.sell p (held p b.sells - q) b out.0
    unfolding trade_at
    trade_sell p q n r w z le h =
        let first = best_first Side.sell p b.sells k.sells g.sells r (omega arith) w in
        let own_best : (p == best Side.sell b.sells.slots) ≡ true = ground arith in
        rw own_best (removed_sell_small p q trade n z le h)

    -- A new order at a price, where the last slot of its side is free.
    pub submit_small :
        (s : Side) (p q : ℕ)
        → (p == far (own s)) ≡ false
        → IsNear (own s) p
        → HasSpace (half s b).slots
        → 0 < q
        → quantity s p b + q < 2 ^ 32
        → Changes s p (quantity s p b + q) b (submit s p q b).0
    unfolding submit add half own
    submit_small Side.buy p q n r h z f =
        let (g', e) = submit-refines Side.buy p q b n f g in
        let out = add_half Side.buy p q b.buys in
        let (small, same) =
          tell_buys p q ActionType.submit out.0 out.1
            (add_half-IsSmall Side.buy p q b.buys k.buys h r z f) in
        ((g', e), small, same)
    submit_small Side.none p q n r h z f =
        let (g', e) = submit-refines Side.sell p q b n f g in
        let out = add_half Side.sell p q b.sells in
        let (small, same) =
          tell_sells p q ActionType.submit out.0 out.1
            (add_half-IsSmall Side.sell p q b.sells k.sells h r z f) in
        ((g', e), small, same)
    submit_small Side.sell p q n r h z f =
        let (g', e) = submit-refines Side.sell p q b n f g in
        let out = add_half Side.sell p q b.sells in
        let (small, same) =
          tell_sells p q ActionType.submit out.0 out.1
            (add_half-IsSmall Side.sell p q b.sells k.sells h r z f) in
        ((g', e), small, same)
