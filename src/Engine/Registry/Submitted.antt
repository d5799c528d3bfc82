-- ===== src/Engine/Registry/Submitted.antt =====
-- engine.cpp: a submitted order keeps the register in step with the books.
use basicmatch.Base.{◌≡◌, ◌==◌, none, arith, sym, ◌∙◌, Bool-cases, Option-cases, inl, inr}
use basicmatch.Types.{OrderInfo}
use basicmatch.Book.{Node, Levels, Book, own, opposite, add_order, side_levels, set_side}
use basicmatch.Match.{Run, match, next64}
use basicmatch.Engine.{
  Engine, get_book, start_run, accept, settle, rest_order, filled_order, handle_submit, is_some,
}
use basicmatch.Engine.Numbers.{get_book-symbol, set_side-symbol, add_order-symbol}
use basicmatch.Engine.Registry.Count.{hit, in_levels, Follows, Keeps, match-Keeps}
use basicmatch.Engine.Registry.Places.{ArePlaced, match-ArePlaced}
use basicmatch.Engine.Registry.Books.{
  IsHome, new_book-IsHome, get_book-All, store_book-All, store_book-IsDistinct, add_order-count,
}
use basicmatch.Engine.Registry.Tracked.{
  IsTracked, side_levels-ArePlaced, set_side-IsHome, with_txn-IsHome, add_order-IsHome,
  stored-count, elsewhere, here_and_elsewhere, elsewhere-set_side, put-Counts, put-injective,
  put-fresh,
}

-- Storing the book after matching.
module _ (o : OrderInfo) (e : Engine) (m : Run × OrderInfo × Levels)
    (f : Follows o (start_run e (get_book o.symbol e.books)) m.1 m.0)
    (k : Keeps (elsewhere o.symbol (opposite o.side) e.books) (λ i j. in_levels i j m.2) m.1 m.0)
    (a : ArePlaced (get_book o.symbol e.books).symbol (own (opposite o.side)) m.2)
    (t : IsTracked e) where
  abbrev matched : Book
  matched = set_side (opposite o.side) m.2 (get_book o.symbol e.books)

  matched-IsHome : IsHome matched
  matched-IsHome =
      set_side-IsHome (opposite o.side) m.2 (get_book o.symbol e.books) a
        (get_book-All IsHome o.symbol e.books (new_book-IsHome o.symbol) t.homes)

  matched-symbol : matched.symbol ≡ o.symbol
  matched-symbol =
      set_side-symbol (opposite o.side) m.2 (get_book o.symbol e.books)
      ∙ get_book-symbol o.symbol e.books

  filled_order-IsTracked : IsTracked (filled_order m.0 matched e).0
  unfolding filled_order
  filled_order-IsTracked =
      let b : Book = record matched { txn_id = m.0.txn_id } in
      record {
        homes = store_book-All IsHome b e.books (with_txn-IsHome _ matched matched-IsHome) t.homes;
        distinct = store_book-IsDistinct b e.books t.distinct;
        counted = λ i j.
            stored-count (hit i j) b o.symbol e.books matched-symbol
            ∙ elsewhere-set_side o.symbol (opposite o.side) m.2 e.books i j
            ∙ k.1 i j;
        injective = λ i j r p q. t.injective i j r (f.fewer i r p) (f.fewer j r q);
        fresh = λ i r p. t.fresh i r (f.fewer i r p);
      }

  rest_order-IsTracked : IsTracked (rest_order m.0 m.1 matched e).0
  unfolding rest_order
  rest_order-IsTracked =
      let node : Node = record { ref = e.next_ref; order = m.1 } in
      let placed = add_order node matched in
      let b : Book = record placed { txn_id = next64 m.0.txn_id } in
      let home =
        add_order-IsHome node matched (f.same_symbol ∙ sym matched-symbol) matched-IsHome in
      record {
        homes = store_book-All IsHome b e.books (with_txn-IsHome _ placed home) t.homes;
        distinct = store_book-IsDistinct b e.books t.distinct;
        counted = λ i j.
            omega (
              arith,
              stored-count (hit i j) b o.symbol e.books
                  (add_order-symbol node matched ∙ matched-symbol),
              add_order-count (hit i j) node matched,
              elsewhere-set_side o.symbol (opposite o.side) m.2 e.books i j,
            )
            ∙ put-Counts e m.0 m.1 _ k.0 k.1 i j;
        injective = put-injective e m.0.orders m.1.id f.fewer t;
        fresh = put-fresh e m.0.orders m.1.id f.fewer t;
      }

accept-IsTracked :
    (o : OrderInfo) (e : Engine) → e.orders o.id ≡ none → IsTracked e → IsTracked (accept o e).0
unfolding accept settle
accept-IsTracked o e u t =
    let b = get_book o.symbol e.books in
    let s = opposite o.side in
    let ls = side_levels s b in
    let m = match o ls (start_run e b) in
    let (f, k) =
      match-Keeps ls o (start_run e b) (elsewhere o.symbol s e.books)
        (u, λ i j. here_and_elsewhere o.symbol s e.books i j ∙ t.counted i j) in
    let home = get_book-All IsHome o.symbol e.books (new_book-IsHome o.symbol) t.homes in
    let a =
      match-ArePlaced b.symbol (own s) ls o (start_run e b) (side_levels-ArePlaced s b home) in
    elim (Bool-cases (m.1.qty == 0)) [
      | inl z ↦ rw z (filled_order-IsTracked o e m f k a t)
      | inr z ↦ rw z (rest_order-IsTracked o e m f k a t)
    ]

pub handle_submit-IsTracked :
    (o : OrderInfo) (e : Engine) → IsTracked e → IsTracked (handle_submit o e).0
unfolding handle_submit is_some
handle_submit-IsTracked o e t = elim (Option-cases (e.orders o.id)) [
  | inl u ↦ ground (arith, accept-IsTracked o e u t)
  | inr (r, u) ↦ rw u t
]
