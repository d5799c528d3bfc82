-- ===== src/Md/Followed.antt =====
-- engine.cpp, md.cpp and level_book.h: a submitted order, and the feed handler that follows it.
use basicmatch.Base.{
  ℕ, ◌+◌, ◌<◌, ◌^◌, ◌≡◌, ◌==◌, inl, inr, false, List, [], ◌∷◌, ◌++◌, some, map, arith, refl, ap,
  ◌∙◌, sym, Text, Bool-cases, map-append, ◌||◌, Bool, false, length,
}
use basicmatch.Types.{Side, OrderInfo}
use basicmatch.Book.{Node, Levels, Book, opposite, add_order, set_side, side_levels}
use basicmatch.Match.{submit_event, Run, match, next64}
use basicmatch.Match.Orderly.{IsOrderly, Any}
use basicmatch.Match.Shape.{match-Kept}
use basicmatch.Engine.{
  Engine, Executed, accept, settle, filled_order, rest_order, start_run, get_book, handle_submit,
  is_some,
}
use basicmatch.Md.{Deferred, apply_action}
use basicmatch.Md.Sync.{apply_all}
use basicmatch.Md.InStep.{action_of}
use basicmatch.Md.Matched.{Followed, match-Followed, apply_all-append}
use basicmatch.Md.Ready.{ready, opposite-Trades}
use basicmatch.LevelBook.{LevelBook, half, submit}
use basicmatch.LevelBook.Held.{held}
use basicmatch.LevelBook.Refines.{quantity}
use basicmatch.LevelBook.Small.{HasSpace}
use basicmatch.Engine.Numbers.{
  find_book-store_book, set_side-symbol, add_order-symbol, get_book-symbol,
}
use basicmatch.BasicMatch.Snapshot.{resting}
use basicmatch.Md
use basicmatch.Md.{Md, Effect}
use basicmatch.Md.Sync.{on_actions}
use basicmatch.Md.InStep.{on_actions-handle_submit}
use basicmatch.Md.Shown.{
  Shows, matched-Shows, own_half, quantity-half, with_txn_id-Shows, rested-Shows, submitted,
  IsFinite, HasFinite,
}

-- The calls of a step make a level book that shows the symbol's book after it.
abbrev pub Follows : Text → LevelBook → Executed → Type 0
Follows sy b x =
    (c : LevelBook) × (apply_all (map action_of x.1.events) b ≡ some c)
    × Shows (get_book sy x.0.books) c

module _ (sy : Text) (s : Side) (e : Engine) (b : LevelBook) where
  abbrev here : Book
  here = get_book sy e.books

  settle-Follows :
      (m : Run × OrderInfo × Levels)
      → m.1.side ≡ s
      → IsFinite m.1.price
      → Shows here b
      → Followed m.2 (opposite s) b b [] m.0.events
      → HasSpace (half s b).slots
      → quantity s m.1.price b + m.1.qty < 2 ^ 32
      → Follows sy b (settle (opposite s) here e m)
  unfolding settle filled_order rest_order
  settle-Follows (r, o, ls) t f g (new, c, u, v, k) h w = elim (Bool-cases (o.qty == 0)) [
    | inl z ↦ rw z (
      c,
      ap (λ x. apply_all (map action_of x) b) u ∙ v,
      rw (find_book-store_book sy (record k' { txn_id = r.txn_id }) e.books same)
          (with_txn_id-Shows r.txn_id k' c shown),
    )
    | inr z ↦
        let n : Node = record { ref = e.next_ref; order = o } in
        let last = submit_event o.symbol r.txn_id o.id o.side o.qty o.price ∷ [] in
        let own_same = own_half s ls b c k in
        let kept : quantity s o.price c ≡ quantity s o.price b =
          quantity-half s o.price c
          ∙ ap (held o.price) own_same
          ∙ sym (quantity-half s o.price b) in
        let rested =
          rested-Shows n k' c f (ground (arith, z)) (rw (t, own_same) h)
            (rw t (omega (arith, kept, w))) shown in
        rw z (
          (submit o.side o.price o.qty c).0,
          ap (λ x. apply_all (map action_of (x ++ last)) b) u
              ∙ (rw (map-append action_of new last) (
                  apply_all-append (map action_of new) (map action_of last) b c _ v
                    (submitted o.symbol r.txn_id o.id o.qty o.price o.side c))),
          rw
              (find_book-store_book sy (record (add_order n k') { txn_id = next64 r.txn_id })
                e.books (add_order-symbol n k' ∙ same))
              (with_txn_id-Shows (next64 r.txn_id) (add_order n k') _ rested),
        )
  ]
    where
      k' : Book
      k' = set_side (opposite s) ls here

      same : k'.symbol ≡ sy
      same = set_side-symbol (opposite s) ls here ∙ get_book-symbol sy e.books

      shown : Shows k' c
      shown = matched-Shows s ls here b c g k

-- Whether a price may get one more order on each side, within 32 bits.
abbrev pub HasRoom : Book → ℕ → Type 0
HasRoom k q = (s : Side) (p : ℕ) → resting s p k + q < 2 ^ 32

module _ (o : OrderInfo) (e : Engine) (b : LevelBook) (k : IsOrderly (get_book o.symbol e.books))
    (f : HasFinite (get_book o.symbol e.books)) (fp : IsFinite o.price) (q : o.qty < 2 ^ 16)
    (g : Shows (get_book o.symbol e.books) b) (h : HasSpace (half o.side b).slots)
    (w : HasRoom (get_book o.symbol e.books) o.qty) where
  accept-Follows : Follows o.symbol b (accept o e)
  unfolding accept
  accept-Follows =
      let s = o.side in
      let book = get_book o.symbol e.books in
      let ls = side_levels (opposite s) book in
      let (levels, qtys, free, sorted, mirrors) =
        ready book b k f g s (λ s' p. omega (arith, g.holds s' p, w s' p)) in
      let kept = match-Kept (opposite s) Any o ls (start_run e book) q levels sorted in
      settle-Follows o.symbol s e b (match o ls (start_run e book)) kept.terms.side
        (rw kept.terms.price fp) g
        (match-Followed (opposite s) (opposite-Trades s) b ls o (start_run e book) b q qtys free
          sorted mirrors)
        h (rw kept.terms.price (omega (arith, g.holds s o.price, w s o.price, kept.qty_le)))

  pub handle_submit-Follows : Follows o.symbol b (handle_submit o e)
  unfolding handle_submit apply_all
  handle_submit-Follows = elim (Bool-cases (is_some (e.orders o.id) || e.completed o.id)) [
    | inl x ↦ rw x (b, refl, g)
    | inr x ↦ elim (Bool-cases (o.qty == 0)) [
      | inl z ↦ rw (x, z) (b, refl, g)
      | inr z ↦ rw (x, z) accept-Follows
    ]
  ]

-- A feed handler that is not recovering, expects the next number of an order's book, and whose
-- level book of at most four levels a side shows what rests in that book. The book is in order, its
-- prices and the order's are finite, the order's quantity is of 16 bits, no price would reach 2 ^ 32
-- with it, the last slot of the order's side is free, and the numbers do not run out. Then the
-- handler takes all callbacks of the order without undefined behaviour, is not recovering, expects
-- the book's next number, and its level book shows what rests in the book after the order.
pub on_actions-Shows :
    (connects : Bool) (o : OrderInfo) (e : Engine) (md : Md)
    → IsOrderly (get_book o.symbol e.books)
    → HasFinite (get_book o.symbol e.books)
    → IsFinite o.price
    → o.qty < 2 ^ 16
    → HasRoom (get_book o.symbol e.books) o.qty
    → Shows (get_book o.symbol e.books) (Md.get_book o.symbol md.books)
    → HasSpace (half o.side (Md.get_book o.symbol md.books)).slots
    → md.recovering ≡ false
    → md.txn_id + 1 ≡ (get_book o.symbol e.books).txn_id
    → md.txn_id + length (handle_submit o e).1.events + 1 < 2 ^ 64
    → (md' : Md) × (out : List Effect) × (on_actions connects o.symbol
          (map action_of (handle_submit o e).1.events)
          md
        ≡ some (md', out))
      × (md'.recovering ≡ false)
      × (md'.txn_id + 1 ≡ (get_book o.symbol (handle_submit o e).0.books).txn_id)
      × Shows (get_book o.symbol (handle_submit o e).0.books) (Md.get_book o.symbol md'.books)
on_actions-Shows connects o e md k f fp q w g h r t n =
    let (b, a, g') = handle_submit-Follows o e (Md.get_book o.symbol md.books) k f fp q g h w in
    let (md', out, d, r', t', same, pubs) = on_actions-handle_submit connects o e md b r t n a in
    (md', out, d, r', t', rw same g')
