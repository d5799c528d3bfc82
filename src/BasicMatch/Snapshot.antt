-- ===== src/BasicMatch/Snapshot.antt =====
-- basic_match.cpp: what handle_snap_request puts into its message.
use mathlib.Core.List.{reverse}
use basicmatch.Base.{
  ℕ, suc, zero, ◌+◌, ◌<◌, ◌≤◌, ◌^◌, ◌≡◌, ◌==◌, true, false, List, [], ◌∷◌, ◌++◌, map, Text, length,
  take, set, arith, refl, ap, ◌∙◌, sym, sum_of, append_assoc, append-nil, ◌⊎◌, inl, inr,
  if◌then◌else◌, ltb, length-append, length-reverse, length-map,
}
use basicmatch.Types.{Side}
use basicmatch.Book.{Node, Level, Levels, Book}
use basicmatch.LevelBook.{add32}
use basicmatch.Engine.Registry.Volume.{qty_of}
use basicmatch.Msg.{
  WireLevel, SnapResponse, side_byte, new_snap_response, end_levels, add_level, max_levels,
}
use basicmatch.BasicMatch.{level_total, add_levels, snapshot_of}

-- The array stops here, or has no side here.
abbrev pub IsEnded : List WireLevel → Type 0
IsEnded [] = Unit
IsEnded (l ∷ ls) = l.side ≡ 0

-- The message has these levels, in order, and an end behind them if there are any.
pub record Carries (t : ℕ) (sy : Text) (ws : List WireLevel) (m : SnapResponse) : Type 0 where
  pub txn_id : m.txn_id ≡ t
  pub symbol : m.symbol ≡ sy
  pub rest : List WireLevel
  pub count : m.n_levels ≡ length ws
  pub levels : m.levels ≡ ws ++ rest
  pub whole : length ws + length rest ≡ 32
  pub ended : (ws ≡ []) ⊎ IsEnded rest

set-behind :
    (ws rest : List WireLevel) (r l : WireLevel)
    → set (ws ++ r ∷ rest) (length ws) l ≡ ws ++ l ∷ rest
set-behind [] rest r l = refl
set-behind (w ∷ ws) rest r l = ap (◌∷◌ w) (set-behind ws rest r l)

-- The rest of an array, its first level without a side.
abbrev end_first : List WireLevel → List WireLevel
end_first [] = []
end_first (l ∷ ls) = record l { side = 0 } ∷ ls

end_levels-behind :
    (ws rest : List WireLevel) (l : WireLevel)
    → end_levels (suc (length ws)) (ws ++ l ∷ rest) ≡ ws ++ l ∷ end_first rest
unfolding end_levels
end_levels-behind [] [] l = refl
end_levels-behind [] (r ∷ rest) l = refl
end_levels-behind (w ∷ ws) rest l = ap (◌∷◌ w) (end_levels-behind ws rest l)

length-end_first : (rest : List WireLevel) → length (end_first rest) ≡ length rest
length-end_first [] = refl
length-end_first (l ∷ ls) = refl

IsEnded-end_first : (rest : List WireLevel) → IsEnded (end_first rest)
IsEnded-end_first [] = tt
IsEnded-end_first (l ∷ ls) = refl

-- The end is written where the array is not full.
ended_levels :
    (ws rest filled : List WireLevel) (l : WireLevel) (n : ℕ)
    → n ≡ suc (length ws)
    → filled ≡ ws ++ l ∷ rest
    → n + length rest ≡ 32
    → (if ltb n max_levels then end_levels n filled else filled) ≡ ws ++ l ∷ end_first rest
ended_levels ws [] filled l n e f k = rw (the_end, f) refl
  where
    the_end : ltb n max_levels ≡ false
    the_end = ground arith
ended_levels ws (r ∷ rest) filled l n e f k = rw (more, f, e) (end_levels-behind ws (r ∷ rest) l)
  where
    more : ltb n max_levels ≡ true
    more = ground arith

abbrev pub wire_of : Side → Level → WireLevel
wire_of s (p, l) = record { side = side_byte s; qty = level_total 0 l; price = p }

add_level-Carries :
    (t : ℕ) (symbol : Text) (s : Side) (q p : ℕ) (ws : List WireLevel) (m : SnapResponse)
    → length ws < 32
    → Carries t symbol ws m
    → Carries t symbol
        (ws ++ record { side = side_byte s; qty = q; price = p } ∷ [])
        (add_level s q p m).0
unfolding add_level
add_level-Carries t symbol s q p ws m h c = carried c.rest c.levels c.whole
  where
    carried :
        (rest : List WireLevel)
        → m.levels ≡ ws ++ rest
        → length ws + length rest ≡ 32
        → Carries t symbol
            (ws ++ record { side = side_byte s; qty = q; price = p } ∷ [])
            (add_level s q p m).0
    carried [] e k = absurd (omega (arith, h, k))
    carried (r ∷ rest) e k = rw room (record {
      rest = end_first rest;
      count = omega (arith, c.count, length-append ws (l ∷ []));
      levels =
          ended_levels ws rest _ l (m.n_levels + 1) (omega (arith, c.count))
            (rw (e, c.count) (set-behind ws rest r l)) (omega (arith, c.count, k))
          ∙ sym (append_assoc ws (l ∷ []) (end_first rest));
      whole = omega (arith, k, length-append ws (l ∷ []), length-end_first rest);
      ended = inr (IsEnded-end_first rest);
      txn_id = c.txn_id;
      symbol = c.symbol;
    })
      where
        room : ltb m.n_levels max_levels ≡ true
        room = ground (arith, c.count)

        l : WireLevel
        l = record { side = side_byte s; qty = q; price = p }

add_levels-Carries :
    (t : ℕ) (symbol : Text) (s : Side) (n : ℕ) (ls : Levels) (ws : List WireLevel)
    (m : SnapResponse)
    → length ls ≤ n
    → length ws + length ls ≤ 32
    → Carries t symbol ws m
    → Carries t symbol (ws ++ map (wire_of s) ls) (add_levels s n ls m)
unfolding add_levels
add_levels-Carries t symbol s zero [] ws m h k c = rw (append-nil) c
add_levels-Carries t symbol s zero (l ∷ ls) ws m h k c = absurd (omega arith)
add_levels-Carries t symbol s (suc n) [] ws m h k c = rw (append-nil) c
add_levels-Carries t symbol s (suc n) ((p, l) ∷ ls) ws m h k c =
    let w = wire_of s (p, l) in
    rw (← append_assoc ws (w ∷ []) (map (wire_of s) ls)) (
      add_levels-Carries t symbol s n ls (ws ++ w ∷ []) (add_level s (level_total 0 l) p m).0
        (omega arith) (omega (arith, length-append ws (w ∷ [])))
        (add_level-Carries t symbol s (level_total 0 l) p ws m (omega arith) c))

-- The levels of a book as a message has them: each map from its last level to its first.
abbrev pub wire_levels : Book → List WireLevel
wire_levels b = map (wire_of Side.sell) (reverse b.sells) ++ map (wire_of Side.buy) (reverse b.buys)

new_snap_response-Carries :
    (junk : List WireLevel) (t : ℕ) (symbol : Text)
    → length junk ≡ 32
    → Carries t (take 15 symbol) [] (new_snap_response junk t symbol)
unfolding new_snap_response
new_snap_response-Carries junk t symbol h = record {
  txn_id = refl;
  symbol = refl;
  rest = junk;
  count = refl;
  levels = refl;
  whole = omega (arith, h);
  ended = inl refl;
}

-- Where a book has no more levels on a side than are asked for, and none too many for the message,
-- the message has all of them.
pub snapshot_of-Carries :
    (junk : List WireLevel) (n : ℕ) (symbol : Text) (b : Book)
    → length junk ≡ 32
    → length b.sells ≤ n
    → length b.buys ≤ n
    → length b.sells + length b.buys ≤ 32
    → Carries b.txn_id (take 15 symbol) (wire_levels b) (snapshot_of junk n symbol b)
unfolding snapshot_of
snapshot_of-Carries junk n symbol b j hs hb h =
    let sy = take 15 symbol in
    let sells = length-reverse b.sells in
    let buys = length-reverse b.buys in
    let sold = map (wire_of Side.sell) (reverse b.sells) in
    let first =
      add_levels-Carries b.txn_id sy Side.sell n (reverse b.sells) []
        (new_snap_response junk b.txn_id symbol) (omega (arith, sells)) (omega (arith, sells))
        (new_snap_response-Carries junk b.txn_id symbol j) in
    add_levels-Carries b.txn_id sy Side.buy n (reverse b.buys) sold _ (omega (arith, buys))
      (omega (arith, buys, sells, length-map (wire_of Side.sell) (reverse b.sells))) first

-- The quantity that rests at a price of a side.
abbrev pub level_qty : ℕ → Level → ℕ
level_qty p (q, l) = if q == p then sum_of qty_of l else 0

abbrev pub resting : Side → ℕ → Book → ℕ
resting Side.buy p b = sum_of (level_qty p) b.buys
resting _ p b = sum_of (level_qty p) b.sells

pub level_total-sum :
    (acc : ℕ) (l : List Node)
    → acc + sum_of qty_of l < 2 ^ 32
    → level_total acc l ≡ acc + sum_of qty_of l
unfolding level_total add32
level_total-sum acc [] h = omega arith
level_total-sum acc (n ∷ ns) h = ground (arith, level_total-sum (acc + qty_of n) ns)
