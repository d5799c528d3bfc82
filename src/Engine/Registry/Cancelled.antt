-- ===== src/Engine/Registry/Cancelled.antt =====
-- engine.cpp: a cancellation keeps the register in step with the books.
use mathlib.Core.Option
use basicmatch.Base.{
  ℕ, ◌+◌, ◌≡◌, [], ◌∷◌, some, arith, refl, ap, ◌∙◌, Option-cases, inl, inr, All-map, Ensures-some,
  insert, erase,
}
use basicmatch.Types.{OrderInfo, Side, cancel, error}
use basicmatch.Book.{Node, Book, own, side_levels, set_side, remove_order, remove_side}
use basicmatch.Match.{next64, cancel_event}
use basicmatch.Engine.{
  Engine, Executed, get_book, store_book, handle_cancel, cancel_at, deref, reply, no_order_found,
}
use basicmatch.Engine.Orderly.{AreOrderly}
use basicmatch.Engine.Numbers.{get_book-symbol, set_side-symbol}
use basicmatch.Engine.Registry.Count.{
  hit, weigh_levels, weigh_books, Counts, in_books, erase-Counts, erase_fewer,
}
use basicmatch.Engine.Registry.Places.{ArePlaced, deref-none, remove_order-ArePlaced}
use basicmatch.Engine.Registry.Books.{
  IsHome, new_book-IsHome, get_book-All, store_book-All, store_book-IsDistinct, get_book-count-le,
  set_side-count, side_levels-count-le, Leads, deref-Leads,
}
use basicmatch.Engine.Registry.Volume.{qty_of, Conserves}
use basicmatch.Engine.Registry.Tracked.{
  IsTracked, side_levels-ArePlaced, set_side-IsHome, with_txn-IsHome, stored-count,
}

side_levels-with_txn :
    (s : Side) (t : ℕ) (b : Book) → side_levels s (record b { txn_id = t }) ≡ side_levels s b
unfolding side_levels
side_levels-with_txn Side.none t b = refl
side_levels-with_txn Side.buy t b = refl
side_levels-with_txn Side.sell t b = refl

-- Cancelling at an address that leads to an order.
module _ (id r : ℕ) (o : OrderInfo) (e : Engine) (u : e.orders id ≡ some r) (f : Leads r o e.books)
    (t : IsTracked e) where
  abbrev lowered : Book
  lowered =
      let b = get_book o.symbol e.books in
      set_side (own o.side) f.rest (record b { txn_id = next64 b.txn_id })

  -- The node that is erased is the one of the order that is cancelled.
  node-id : f.node.order.id ≡ id
  node-id =
      let i = f.node.order.id in
      let b = get_book o.symbol e.books in
      let registered : e.orders i ≡ some r = ground (
        arith,
        t.counted i r,
        f.weighed (hit i r),
        f.at_ref,
        get_book-count-le (hit i r) o.symbol e.books,
        side_levels-count-le (hit i r) (own o.side) b,
      ) in
      t.injective i id r registered u

  remove_side-lowered :
      let b = get_book o.symbol e.books in
      remove_side (own o.side) o.price r (record b { txn_id = next64 b.txn_id }) ≡ some lowered
  unfolding remove_side
  remove_side-lowered =
      let b = get_book o.symbol e.books in
      rw (side_levels-with_txn (own o.side) (next64 b.txn_id) b, f.removed) refl

  lowered-IsHome : IsHome lowered
  lowered-IsHome =
      let b = get_book o.symbol e.books in
      let home = get_book-All IsHome o.symbol e.books (new_book-IsHome o.symbol) t.homes in
      let s = own o.side in
      set_side-IsHome s f.rest (record b { txn_id = next64 b.txn_id })
        (Ensures-some (ArePlaced b.symbol (own s)) (remove_order o.price r (side_levels s b))
          f.removed
          (remove_order-ArePlaced b.symbol (own s) o.price r (side_levels s b)
            (side_levels-ArePlaced s b home)))
        (with_txn-IsHome (next64 b.txn_id) b home)

  lowered-symbol : lowered.symbol ≡ o.symbol
  lowered-symbol =
      let b = get_book o.symbol e.books in
      set_side-symbol (own o.side) f.rest (record b { txn_id = next64 b.txn_id })
      ∙ get_book-symbol o.symbol e.books

  lowered-weight :
      (w : Node → ℕ) → w f.node + weigh_books w (store_book lowered e.books) ≡ weigh_books w e.books
  lowered-weight w =
      let b = get_book o.symbol e.books in
      let s = own o.side in
      let same = ap (weigh_levels w) (side_levels-with_txn s (next64 b.txn_id) b) in
      omega (
        arith,
        stored-count w lowered o.symbol e.books lowered-symbol,
        f.weighed w,
        same,
        set_side-count w s f.rest (record b { txn_id = next64 b.txn_id }),
        get_book-count-le w o.symbol e.books,
        side_levels-count-le w s b,
      )

  cancelled-IsTracked :
      (x : Executed) × (cancel_at id r o e ≡ some x) × IsTracked x.0 × Conserves 0 e x
  unfolding cancel_at
  cancelled-IsTracked =
      let b = get_book o.symbol e.books in
      let after : Executed = (
        record e {
          orders = erase id e.orders;
          completed = insert id e.completed;
          books = store_book lowered e.books;
        },
        record {
          results = cancel id ∷ [];
          events = cancel_event o.symbol b.txn_id o.qty o.price ∷ [];
        },
      ) in
      let left : Counts (erase f.node.order.id e.orders)
          (λ i k. in_books i k (store_book lowered e.books)) =
        erase-Counts e.orders _ f.node (λ i k. lowered-weight (hit i k) ∙ t.counted i k) in
      (
        after,
        rw remove_side-lowered refl,
        record {
          homes = store_book-All IsHome lowered e.books lowered-IsHome t.homes;
          distinct = store_book-IsDistinct lowered e.books t.distinct;
          counted = rw node-id at left;
          injective = λ i j k p q.
              t.injective i j k (erase_fewer id i k e.orders p) (erase_fewer id j k e.orders q);
          fresh = λ i k p. t.fresh i k (erase_fewer id i k e.orders p);
        },
        let quantity = ap (λ (x : OrderInfo). x.qty) f.has_order in
            omega (arith, lowered-weight qty_of, quantity),
      )

pub handle_cancel-IsTracked :
    (id : ℕ) (e : Engine)
    → AreOrderly e.books
    → IsTracked e
    → (x : Executed) × (handle_cancel id e ≡ some x) × IsTracked x.0 × Conserves 0 e x
unfolding handle_cancel Option.bind
handle_cancel-IsTracked id e q t = elim (Option-cases (e.orders id)) [
  | inl n ↦
      let out = reply e (error (record { id = id; msg = no_order_found })) in
      (out, rw (n, handle_cancel) refl, t, omega arith)
  | inr (r, u) ↦ elim (Option-cases (deref r e.books)) [
    | inl n ↦ absurd (ground (arith, t.counted id r, deref-none id r e.books n, u))
    | inr (o, d) ↦
        let (f, z) =
          deref-Leads r o e.books (λ _. Unit {0}) t.homes q t.distinct
            (All-map (λ b h. tt) e.books t.homes) d in
        let (x, k, t', v) = cancelled-IsTracked id r o e u f t in
        (x, rw (u, handle_cancel, d) k, t', v)
  ]
]
