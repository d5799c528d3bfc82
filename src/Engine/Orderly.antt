-- ===== src/Engine/Orderly.antt =====
-- Every book that the engine reaches is in order and not crossed.
use mathlib.Core.Option
use basicmatch.Base.{
  ℕ, ◌<◌, ◌≢◌, ◌^◌, List, [], ◌∷◌, All, ◌≡◌, refl, arith, inl, inr, Bool-cases, ◌==◌, Ensures,
  Ensures-map, ◌≤◌, ◌∙◌, sym, Option-cases, Ensures-bind, Ensures-some, Text,
}
use basicmatch.Types.{Side, OrderInfo, OrderAction, submit, cancel, print_all}
use basicmatch.Book.{
  Node, Level, Levels, Book, remove_side, add_order, own, opposite, side_levels, set_side, new_book,
}
use basicmatch.Book.Order.{IsQty}
use basicmatch.Match.{Run, match, next64}
use basicmatch.Match.Orderly.{
  IsOrderly, All-swap, with_keys, IsDone-buy, IsDone-sell, IsClear, place-IsOrderly,
  set-IsOrderly-sell, set-IsOrderly-buy, remove_side-IsOrderly,
}
use basicmatch.Match.Shape.{match-Kept}
use basicmatch.Engine.{
  Engine, store_book, get_book, accept, rest_order, filled_order, execute, handle_cancel, cancel_at,
  settle, start_run, deref, run, empty_engine,
}

-- The book after matching, and what the order that is left may not cross in it.
MatchOrderly : Side → OrderInfo → Book → Run × OrderInfo × Levels → Type 0
unfolding opposite own
MatchOrderly s o b (r, o', ls) =
    let b' = set_side (opposite s) ls b in
    IsOrderly b'
    × (o'.qty ≤ o.qty)
    × (o'.side ≡ o.side)
    × (0 < o'.qty → IsClear (own s) o'.price b')

module _ (o : OrderInfo) (b : Book) (r : Run) (q : o.qty < 2 ^ 16) (k : IsOrderly b) where
  match-buy : o.side ≡ Side.buy → MatchOrderly Side.buy o b (match o b.sells r)
  unfolding MatchOrderly
  match-buy e =
      let K = λ (p : ℕ). All (λ (m : Level). m.0 < p) b.buys in
      let out = match o b.sells r in
      let m =
        match-Kept Side.sell K o b.sells r q (with_keys K b.sells k.uncrossed k.sells)
          k.sells_sorted in
      (
        set-IsOrderly-sell out.2 b m.levels m.sorted k,
        m.qty_le,
        m.terms.side,
        λ z. unfold set_side in IsDone-buy out.1 out.2 (m.terms.side ∙ e) z m.sorted m.done,
      )

  match-sell : o.side ≢ Side.buy → MatchOrderly Side.sell o b (match o b.buys r)
  unfolding MatchOrderly
  match-sell e =
      let K = λ (p : ℕ). All (λ (m : Level). p < m.0) b.sells in
      let out = match o b.buys r in
      let h = All-swap (λ s b. b.0 < s.0) b.sells b.buys k.uncrossed in
      let m = match-Kept Side.buy K o b.buys r q (with_keys K b.buys h k.buys) k.buys_sorted in
      (
        set-IsOrderly-buy out.2 b m.levels m.sorted k,
        m.qty_le,
        m.terms.side,
        λ z.
            unfold set_side in
            IsDone-sell out.1 out.2 (λ x. e (sym m.terms.side ∙ x)) z m.sorted m.done,
      )

  match-MatchOrderly :
      (s : Side) → o.side ≡ s → MatchOrderly s o b (match o (side_levels (opposite s) b) r)
  unfolding opposite side_levels MatchOrderly
  match-MatchOrderly Side.buy e = match-buy e
  match-MatchOrderly Side.none e = match-sell (λ x. cc)
  match-MatchOrderly Side.sell e = match-sell (λ x. cc)

-- The register of books.
abbrev pub AreOrderly : List Book → Type 0
AreOrderly = All IsOrderly

store_book-AreOrderly :
    (b : Book) (bs : List Book) → IsOrderly b → AreOrderly bs → AreOrderly (store_book b bs)
unfolding store_book
store_book-AreOrderly b [] k h = (k, tt)
store_book-AreOrderly b (c ∷ cs) k h = ground (arith, store_book-AreOrderly b cs k)

new_book-IsOrderly : (s : Text) → IsOrderly (new_book s)
unfolding new_book
new_book-IsOrderly s = record {
  sells = tt;
  buys = tt;
  sells_sorted = tt;
  buys_sorted = tt;
  uncrossed = tt;
}

pub get_book-IsOrderly : (s : Text) (bs : List Book) → AreOrderly bs → IsOrderly (get_book s bs)
unfolding get_book
get_book-IsOrderly s [] h = new_book-IsOrderly s
get_book-IsOrderly s (b ∷ bs) h = ground (arith, get_book-IsOrderly s bs h.1)

pub get_book-stored_AreOrderly :
    (s : Text) (bs : List Book) → AreOrderly bs → AreOrderly (store_book (get_book s bs) bs)
get_book-stored_AreOrderly s bs h =
    store_book-AreOrderly (get_book s bs) bs (get_book-IsOrderly s bs h) h

-- The transaction number is not part of the property.
with_txn-IsOrderly : (t : ℕ) (b : Book) → IsOrderly b → IsOrderly (record b { txn_id = t })
with_txn-IsOrderly t b k = record {
  sells = k.sells;
  buys = k.buys;
  sells_sorted = k.sells_sorted;
  buys_sorted = k.buys_sorted;
  uncrossed = k.uncrossed;
}

filled_order-AreOrderly :
    (r : Run) (b : Book) (e : Engine)
    → IsOrderly b
    → AreOrderly e.books
    → AreOrderly (filled_order r b e).0.books
unfolding filled_order
filled_order-AreOrderly r b e k h =
    store_book-AreOrderly _ e.books (with_txn-IsOrderly r.txn_id b k) h

rest_order-AreOrderly :
    (r : Run) (o : OrderInfo) (b : Book) (e : Engine)
    → IsQty o.qty
    → IsClear (own o.side) o.price b
    → IsOrderly b
    → AreOrderly e.books
    → AreOrderly (rest_order r o b e).0.books
unfolding rest_order add_order
rest_order-AreOrderly r o b e q c k h =
    let node : Node = record { ref = e.next_ref; order = o } in
    store_book-AreOrderly _ e.books
      (with_txn-IsOrderly (next64 r.txn_id) _ (place-IsOrderly o.side node b q c k)) h

settle-AreOrderly :
    (s : Side) (o : OrderInfo) (b : Book) (e : Engine) (out : Run × OrderInfo × Levels)
    → o.qty < 2 ^ 16
    → o.side ≡ s
    → MatchOrderly s o b out
    → AreOrderly e.books
    → AreOrderly (settle (opposite s) b e out).0.books
unfolding settle MatchOrderly
settle-AreOrderly s o b e (r, o', ls) q i (k, le, same, c) h = elim (Bool-cases (o'.qty == 0)) [
  | inl z ↦ rw z (filled_order-AreOrderly r (set_side (opposite s) ls b) e k h)
  | inr z ↦ rw z (
      rest_order-AreOrderly r o' (set_side (opposite s) ls b) e (ground arith, omega arith)
        (rw (same ∙ i) (c (ground arith))) k h)
]

accept-AreOrderly :
    (o : OrderInfo) (e : Engine)
    → o.qty < 2 ^ 16
    → AreOrderly e.books
    → AreOrderly (accept o e).0.books
unfolding accept
accept-AreOrderly o e q h =
    let b = get_book o.symbol e.books in
    settle-AreOrderly o.side o b e _ q refl
      (match-MatchOrderly o b (start_run e b) q (get_book-IsOrderly o.symbol e.books h) o.side refl)
      h

cancel_at-AreOrderly :
    (id ref : ℕ) (o : OrderInfo) (e : Engine)
    → AreOrderly e.books
    → Ensures (λ x. AreOrderly x.0.books) (cancel_at id ref o e)
unfolding cancel_at
cancel_at-AreOrderly id ref o e h =
    let b = get_book o.symbol e.books in
    let b' : Book = record b { txn_id = next64 b.txn_id } in
    Ensures-map IsOrderly _ _ (remove_side (own o.side) o.price ref b')
      (λ c k. store_book-AreOrderly c e.books k h)
      (remove_side-IsOrderly o.side o.price ref b'
        (with_txn-IsOrderly (next64 b.txn_id) b (get_book-IsOrderly o.symbol e.books h)))

handle_cancel-AreOrderly :
    (id : ℕ) (e : Engine)
    → AreOrderly e.books
    → Ensures (λ x. AreOrderly x.0.books) (handle_cancel id e)
unfolding handle_cancel
handle_cancel-AreOrderly id e h = elim (Option-cases (e.orders id)) [
  | inl n ↦ rw (n, handle_cancel) h
  | inr (ref, s) ↦
      rw (s, handle_cancel)
        (Ensures-bind _ (deref ref e.books) _ (λ o. cancel_at-AreOrderly id ref o e h))
]

-- The quantity of an action is one of 16 bits, as its field is.
abbrev pub Fits : OrderAction → Type 0
Fits (submit o) = o.qty < 2 ^ 16
Fits _ = Unit

-- Where every book has its levels in the order of the prices, no level empty, no order without
-- quantity, and every buy below every sell: an action whose quantity is of 16 bits, where it is
-- defined, leaves them so.
pub execute-AreOrderly :
    (a : OrderAction) (e : Engine)
    → Fits a
    → AreOrderly e.books
    → Ensures (λ x. AreOrderly x.0.books) (execute a e)
unfolding execute
execute-AreOrderly (submit o) e f h = ground (arith, accept-AreOrderly o e f h)
execute-AreOrderly (cancel id) e f h = handle_cancel-AreOrderly id e h
execute-AreOrderly print_all e f h = h
execute-AreOrderly _ e f h = tt

run_from-AreOrderly :
    (actions : List OrderAction) (e : Engine)
    → All Fits actions
    → AreOrderly e.books
    → Ensures (λ e'. AreOrderly e'.books) (run actions e)
unfolding run Option.bind
run_from-AreOrderly [] e f h = h
run_from-AreOrderly (a ∷ rest) e f h = elim (Option-cases (execute a e)) [
  | inl n ↦ rw n tt
  | inr (x, s) ↦ rw s (
      run_from-AreOrderly rest x.0 f.1
        (Ensures-some _ (execute a e) s (execute-AreOrderly a e f.0 h)))
]

-- For actions whose quantities are of 16 bits, from the engine without books: where every step of
-- the run is defined, each book at its end has its levels in the order of the prices, no level empty,
-- no order without quantity, and every buy below every sell.
pub run-AreOrderly :
    (actions : List OrderAction)
    → All Fits actions
    → Ensures (λ e. AreOrderly e.books) (run actions empty_engine)
run-AreOrderly actions f = run_from-AreOrderly actions empty_engine f tt
