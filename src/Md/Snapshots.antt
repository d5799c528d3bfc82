-- ===== src/Md/Snapshots.antt =====
-- md.cpp and basic_match.cpp: the server's snapshot of a book, put into a handler's level book.
use mathlib.Core.List.{reverse}
use basicmatch.Base.{
  ℕ, ◌+◌, ◌<◌, ◌≤◌, ◌^◌, ◌≡◌, ◌==◌, false, List, [], ◌∷◌, ◌++◌, map, Text, length, take, All,
  All-map, All-append, All-reverse, All-of_map, arith, refl, ap, ◌∙◌, sym, sum_of, sum_of-append,
  sum_of-reverse, sum_of-map, length-append, length-map, length-reverse, ◌⊎◌, inl, inr, some,
}
use basicmatch.Types.{Side, infinity, neg_infinity}
use basicmatch.Book.{Levels, Book}
use basicmatch.Msg.{WireLevel, SnapResponse, side_byte}
use basicmatch.LevelBook.{clear}
use basicmatch.LevelBook.Refines.{IsSoundBook, quantity}
use basicmatch.Engine.Registry.Volume.{qty_of}
use basicmatch.BasicMatch.{snapshot_of}
use basicmatch.BasicMatch.Snapshot.{
  Carries, IsEnded, wire_of, wire_levels, level_qty, resting, level_total-sum, snapshot_of-Carries,
}
use basicmatch.Md.Loaded.{
  listed, wire_qty, wire_held, IsPriced, IsPlain, clear-IsSoundBook, load_levels-listed,
}
use basicmatch.Md.Sync.{apply_all}
use basicmatch.Md.Recovered.{loaded, on_snapshot-later}
use basicmatch.Md.{Md, Effect, get_book, deferred_of, on_snapshot, load_levels}

HasSide : WireLevel → Type 0
HasSide l = (l.side == 0) ≡ false

listed-IsEnded :
    (ws rest : List WireLevel) → All HasSide ws → IsEnded rest → listed (ws ++ rest) ≡ ws
unfolding HasSide
listed-IsEnded [] [] h e = refl
listed-IsEnded [] (l ∷ ls) h e = ground arith
listed-IsEnded (w ∷ ws) rest h e = rw h.0 (ap (◌∷◌ w) (listed-IsEnded ws rest h.1 e))

-- Each level's total fits where the quantity at each price does.
totals_fit :
    (ls : Levels)
    → ((p : ℕ) → sum_of (level_qty p) ls < 2 ^ 32)
    → All (λ m. sum_of qty_of m.1 < 2 ^ 32) ls
totals_fit [] h = tt
totals_fit ((q, l) ∷ ls) h =
    (let here = h q in ground (arith, here), totals_fit ls (λ p. omega (arith, h p)))

sells_held :
    (s : Side) (p : ℕ) (ls : Levels)
    → All (λ m. sum_of qty_of m.1 < 2 ^ 32) ls
    → sum_of (λ m. wire_qty s p (wire_of Side.sell m)) ls
      ≡ (elim s [ Side.buy ↦ 0 | _ ↦ sum_of (level_qty p) ls ])
unfolding side_byte
sells_held Side.none p [] h = refl
sells_held Side.buy p [] h = refl
sells_held Side.sell p [] h = refl
sells_held Side.none p ((q, l) ∷ ls) h =
    ground (arith, sells_held Side.none p ls h.1, level_total-sum 0 l)
sells_held Side.buy p ((q, l) ∷ ls) h = omega (arith, sells_held Side.buy p ls h.1)
sells_held Side.sell p ((q, l) ∷ ls) h =
    ground (arith, sells_held Side.sell p ls h.1, level_total-sum 0 l)

buys_held :
    (s : Side) (p : ℕ) (ls : Levels)
    → All (λ m. sum_of qty_of m.1 < 2 ^ 32) ls
    → sum_of (λ m. wire_qty s p (wire_of Side.buy m)) ls
      ≡ (elim s [ Side.buy ↦ sum_of (level_qty p) ls | _ ↦ 0 ])
unfolding side_byte
buys_held Side.none p [] h = refl
buys_held Side.buy p [] h = refl
buys_held Side.sell p [] h = refl
buys_held Side.none p ((q, l) ∷ ls) h = omega (arith, buys_held Side.none p ls h.1)
buys_held Side.buy p ((q, l) ∷ ls) h =
    ground (arith, buys_held Side.buy p ls h.1, level_total-sum 0 l)
buys_held Side.sell p ((q, l) ∷ ls) h = omega (arith, buys_held Side.sell p ls h.1)

-- The quantities of a book fit 32 bits.
abbrev pub IsNarrow : Book → Type 0
IsNarrow b = (s : Side) (p : ℕ) → resting s p b < 2 ^ 32

wire_held-wire_levels :
    (b : Book) (s : Side) (p : ℕ) → IsNarrow b → wire_held s p (wire_levels b) ≡ resting s p b
wire_held-wire_levels b s p h =
    let sells = totals_fit b.sells (h Side.sell) in
    let buys = totals_fit b.buys (h Side.buy) in
    let w = wire_qty s p in
    parts s
      (sum_of-append w (map (wire_of Side.sell) (reverse b.sells))
        (map (wire_of Side.buy) (reverse b.buys)))
      (sum_of-map w (wire_of Side.sell) (reverse b.sells)
        ∙ sum_of-reverse (λ m. w (wire_of Side.sell m)) b.sells
        ∙ sells_held s p b.sells sells)
      (sum_of-map w (wire_of Side.buy) (reverse b.buys)
        ∙ sum_of-reverse (λ m. w (wire_of Side.buy m)) b.buys
        ∙ buys_held s p b.buys buys)
  where
    parts :
        (s : Side) {whole sold bought : ℕ}
        → whole ≡ sold + bought
        → sold ≡ (elim s [ Side.buy ↦ 0 | _ ↦ sum_of (level_qty p) b.sells ])
        → bought ≡ (elim s [ Side.buy ↦ sum_of (level_qty p) b.buys | _ ↦ 0 ])
        → whole ≡ resting s p b
    parts Side.none e f g = omega (arith, e, f, g)
    parts Side.buy e f g = omega (arith, e, f, g)
    parts Side.sell e f g = omega (arith, e, f, g)

-- Every price of a book is finite, on the side where infinity is no level.
abbrev pub IsFinite : Book → Type 0
IsFinite b =
    All (λ m. (m.0 == infinity) ≡ false) b.sells × All (λ m. (m.0 == neg_infinity) ≡ false) b.buys

wire_levels-IsPriced : (b : Book) → IsFinite b → All IsPriced (wire_levels b)
unfolding side_byte
wire_levels-IsPriced b (f, g) =
    All-append IsPriced (map (wire_of Side.sell) (reverse b.sells))
      (map (wire_of Side.buy) (reverse b.buys))
      (All-of_map IsPriced (wire_of Side.sell) (reverse b.sells)
        (All-reverse (λ m. IsPriced (wire_of Side.sell m)) b.sells f))
      (All-of_map IsPriced (wire_of Side.buy) (reverse b.buys)
        (All-reverse (λ m. IsPriced (wire_of Side.buy m)) b.buys g))

wire_of-HasSide :
    (ls : Levels) → All (λ m. HasSide (wire_of Side.sell m) × HasSide (wire_of Side.buy m)) ls
unfolding side_byte HasSide
wire_of-HasSide [] = tt
wire_of-HasSide (m ∷ ls) = ((refl, refl), wire_of-HasSide ls)

wire_levels-HasSide : (b : Book) → All HasSide (wire_levels b)
wire_levels-HasSide b =
    All-append HasSide (map (wire_of Side.sell) (reverse b.sells))
      (map (wire_of Side.buy) (reverse b.buys))
      (All-of_map HasSide (wire_of Side.sell) (reverse b.sells)
        (All-map (λ m h. h.0) (reverse b.sells) (wire_of-HasSide (reverse b.sells))))
      (All-of_map HasSide (wire_of Side.buy) (reverse b.buys)
        (All-map (λ m h. h.1) (reverse b.buys) (wire_of-HasSide (reverse b.buys))))

pub length-wire_levels : (b : Book) → length (wire_levels b) ≡ length b.sells + length b.buys
length-wire_levels b = omega (
  arith,
  length-append (map (wire_of Side.sell) (reverse b.sells))
      (map (wire_of Side.buy) (reverse b.buys)),
  length-map (wire_of Side.sell) (reverse b.sells),
  length-map (wire_of Side.buy) (reverse b.buys),
  length-reverse b.sells,
  length-reverse b.buys,
)

-- What a message that carries a book's levels lists.
carried_levels :
    (b : Book) (t : ℕ) (sy : Text) (m : SnapResponse)
    → 0 < length b.sells + length b.buys
    → Carries t sy (wire_levels b) m
    → listed m.levels ≡ wire_levels b
carried_levels b t sy m h c =
    ap listed c.levels
    ∙ listed-IsEnded (wire_levels b) c.rest (wire_levels-HasSide b) (closed c.ended)
  where
    closed : (wire_levels b ≡ []) ⊎ IsEnded c.rest → IsEnded c.rest
    closed (inr e) = e
    closed (inl e) = absurd (omega (arith, h, length-wire_levels b, ap length e))

-- A book of at least one level, with at most as many levels on a side as are asked for and at most
-- 32 in all, its prices finite and the quantity at each price of 32 bits: a handler without actions
-- that wait for the symbol, and without levels of it outside the arrays, that gets the server's
-- snapshot of the book holds on each side and at each price what rests there in the book, has its
-- number, and is not recovering.
pub on_snapshot-snapshot_of :
    (junk : List WireLevel) (n : ℕ) (symbol : Text) (b : Book) (md : Md)
    → length junk ≡ 32
    → length b.sells ≤ n
    → length b.buys ≤ n
    → length b.sells + length b.buys ≤ 32
    → 0 < length b.sells + length b.buys
    → IsFinite b
    → IsNarrow b
    → IsPlain (get_book (take 15 symbol) md.books)
    → deferred_of (take 15 symbol) md.deferred ≡ []
    → (md' : Md) × (out : List Effect) × (on_snapshot (snapshot_of junk n symbol b) md
        ≡ some (md', out))
      × (md'.recovering ≡ false)
      × (md'.txn_id ≡ b.txn_id)
      × IsSoundBook (get_book (take 15 symbol) md'.books)
      × ((s : Side) (p : ℕ) → quantity s p (get_book (take 15 symbol) md'.books) ≡ resting s p b)
unfolding apply_all
on_snapshot-snapshot_of junk n symbol b md j hs hb h z f w k d =
    let sy = take 15 symbol in
    let m = snapshot_of junk n symbol b in
    let c = snapshot_of-Carries junk n symbol b j hs hb h in
    let ls = carried_levels b b.txn_id sy m z c in
    let (g, e) = clear-IsSoundBook (get_book sy md.books) k in
    let priced : All IsPriced (listed m.levels) = rw ls (wire_levels-IsPriced b f) in
    let held = λ (s : Side) (p : ℕ). wire_held-wire_levels b s p w in
    let (sound, q) =
      load_levels-listed md.recovering m.levels (clear (get_book sy md.books)) priced
        (λ s p. rw (ls) (omega (arith, e s p, held s p, w s p))) g in
    let same : loaded m md ≡ (load_levels md.recovering m.levels (clear (get_book sy md.books))).0 =
      ap (λ x. (load_levels md.recovering m.levels (clear (get_book x md.books))).0) c.symbol in
    let nothing : deferred_of m.symbol md.deferred ≡ [] = rw c.symbol d in
    let (md', out, r, i, u, v) = on_snapshot-later m md (loaded m md) (rw nothing refl) in
    let book : get_book sy md'.books
        ≡ (load_levels md.recovering m.levels (clear (get_book sy md.books))).0 =
      ap (λ x. get_book x md'.books) (sym c.symbol) ∙ v ∙ same in
    let sent = λ (s : Side) (p : ℕ). ap (wire_held s p) ls in
    (
      md',
      out,
      r,
      i,
      u ∙ c.txn_id,
      rw book sound,
      λ s p. ap (quantity s p) book ∙ omega (arith, q s p, e s p, sent s p, held s p),
    )
