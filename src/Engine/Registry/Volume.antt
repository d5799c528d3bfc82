-- ===== src/Engine/Registry/Volume.antt =====
-- engine.cpp: the quantity that rests in the books, and what matching and resting move of it.
use basicmatch.Base.{
  ℕ, ◌+◌, ◌<◌, ◌^◌, ◌≡◌, ◌==◌, ◌||◌, not, List, [], ◌∷◌, All, All-map, arith, refl, ltb, sum_of,
  sum_of-append, Bool-cases, inl, inr, ◌∙◌,
}
use basicmatch.Types.{OrderInfo, Side, crosses}
use basicmatch.Book.{Node, Levels, Book, add_order, opposite, side_levels, set_side}
use basicmatch.Match.{
  Event, fill_event, submit_event, cancel_event, Run, fill, bump_txn, match_level, after_level,
  match, next64,
}
use basicmatch.Match.Level.{fill_large, fill_small}
use basicmatch.Engine.{
  Engine, Executed, get_book, store_book, start_run, accept, settle, rest_order, filled_order,
}
use basicmatch.Engine.Numbers.{get_book-symbol, set_side-symbol, add_order-symbol}
use basicmatch.Engine.Orderly.{AreOrderly, get_book-IsOrderly}
use basicmatch.Match.Orderly.{IsOrderly}
use basicmatch.Engine.Registry.Count.{weigh_levels, weigh_book, weigh_books}
use basicmatch.Engine.Registry.Books.{
  get_book-count-le, set_side-count, side_levels-count-le, add_order-count,
}
use basicmatch.Engine.Registry.Tracked.{stored-count}

abbrev pub qty_of : Node → ℕ
qty_of n = n.order.qty

-- The quantity of all the orders that rest in the books.
abbrev pub volume : List Book → ℕ
volume = weigh_books qty_of

-- What a call takes away: a trade from both its orders, a cancellation from the one.
abbrev pub moved : Event → ℕ
moved (fill_event s t q p) = q + q
moved (submit_event s t i d q p) = 0
moved (cancel_event s t q p) = q

abbrev AreBounded : Levels → Type 0
AreBounded = All (λ m. All (λ n. qty_of n < 2 ^ 16) m.1)

fill-moved :
    (small large : OrderInfo) (p t : ℕ) (r : Run)
    → sum_of moved (fill small large p t (bump_txn r)).0.events
      ≡ sum_of moved r.events + (small.qty + small.qty)
unfolding fill bump_txn
fill-moved small large p t r = omega (arith, sum_of-append moved r.events _)

-- Quantity and calls before a piece of matching, and after it.
abbrev Balanced : ℕ → Run → OrderInfo → ℕ → Run → OrderInfo → Type 0
Balanced v r o v' r' o' = v' + o'.qty + sum_of moved r'.events ≡ v + o.qty + sum_of moved r.events

match_level-Balanced :
    (p : ℕ) (l : List Node) (o : OrderInfo) (r : Run)
    → o.qty < 2 ^ 16
    → All (λ n. qty_of n < 2 ^ 16) l
    → let m = match_level o p l r in
      Balanced (sum_of qty_of l) r o (sum_of qty_of m.2) m.0 m.1 × (m.1.qty < 2 ^ 16)
unfolding match_level
match_level-Balanced p [] o r q h = (refl, q)
match_level-Balanced p (n ∷ ns) o r q h = elim (Bool-cases (o.qty == 0)) [
  | inl z ↦ rw z (refl, q)
  | inr z ↦ elim (Bool-cases (ltb o.qty n.order.qty)) [
    | inl k ↦
        rw (z, k)
          (
            ground (
              arith,
              fill_small o n.order p r.txn_id (bump_txn r),
              fill_large o n.order p r.txn_id (bump_txn r),
              fill-moved o n.order p r.txn_id r,
            ),
            ground (arith, fill_small o n.order p r.txn_id (bump_txn r)),
          )
    | inr k ↦
        let c = fill n.order o p r.txn_id (bump_txn r) in
        let left = fill_large n.order o p r.txn_id (bump_txn r) in
        let rest = match_level-Balanced p ns c.2 c.0 (ground (arith, left)) h.1 in
        rw (z, k) (ground (arith, left, rest, fill-moved n.order o p r.txn_id r), rest.1)
  ]
]

after_level-Balanced :
    (p : ℕ) (ls : Levels) (v : ℕ) (o : OrderInfo) (r : Run) (here : Run × OrderInfo × List Node)
    (next : Run × OrderInfo × Levels)
    → Balanced v r o (sum_of qty_of here.2) here.0 here.1
    → Balanced (weigh_levels qty_of ls) here.0 here.1 (weigh_levels qty_of next.2) next.0 next.1
    → let m = after_level p ls here next in
      Balanced (v + weigh_levels qty_of ls) r o (weigh_levels qty_of m.2) m.0 m.1
unfolding after_level
after_level-Balanced p ls v o r (r', o', []) next h k = omega (arith, h, k)
after_level-Balanced p ls v o r (r', o', n ∷ ns) next h k = omega (arith, h)

match-Balanced :
    (ls : Levels) (o : OrderInfo) (r : Run)
    → o.qty < 2 ^ 16
    → AreBounded ls
    → let m = match o ls r in
      Balanced (weigh_levels qty_of ls) r o (weigh_levels qty_of m.2) m.0 m.1
unfolding match
match-Balanced [] o r q h = refl
match-Balanced ((p, l) ∷ ls) o r q h = elim (Bool-cases (o.qty == 0 || not (crosses o p))) [
  | inl z ↦ rw z refl
  | inr z ↦
      let here = match_level o p l r in
      let (k, q') = match_level-Balanced p l o r q h.0 in
      rw z (
        after_level-Balanced p ls (sum_of qty_of l) o r here (match here.1 ls here.0) k
          (match-Balanced ls here.1 here.0 q' h.1))
]

-- A step adds the quantity that it takes in, less what it moves.
abbrev pub Conserves : ℕ → Engine → Executed → Type 0
Conserves q e x = volume x.0.books + sum_of moved x.1.events ≡ volume e.books + q

module _ (o : OrderInfo) (e : Engine) (m : Run × OrderInfo × Levels) where
  abbrev after_match : Book
  after_match = set_side (opposite o.side) m.2 (get_book o.symbol e.books)

  abbrev Remains : ℕ → Type 0
  Remains q =
      weigh_levels qty_of m.2 + m.1.qty + sum_of moved m.0.events
      ≡ weigh_levels qty_of (side_levels (opposite o.side) (get_book o.symbol e.books)) + q

  stored-volume :
      (b : Book) (extra q : ℕ)
      → b.symbol ≡ o.symbol
      → Remains q
      → weigh_book qty_of b ≡ weigh_book qty_of after_match + extra
      → volume (store_book b e.books) + m.1.qty + sum_of moved m.0.events
        ≡ volume e.books + q + extra
  stored-volume b extra q s h k = omega (
    arith,
    h,
    k,
    stored-count qty_of b o.symbol e.books s,
    set_side-count qty_of (opposite o.side) m.2 (get_book o.symbol e.books),
    get_book-count-le qty_of o.symbol e.books,
    side_levels-count-le qty_of (opposite o.side) (get_book o.symbol e.books),
  )

  after_match-symbol : after_match.symbol ≡ o.symbol
  after_match-symbol =
      set_side-symbol (opposite o.side) m.2 (get_book o.symbol e.books)
      ∙ get_book-symbol o.symbol e.books

  settle-Conserves :
      Remains o.qty → Conserves o.qty e (settle (opposite o.side) (get_book o.symbol e.books) e m)
  unfolding settle filled_order rest_order
  settle-Conserves h = elim (Bool-cases (m.1.qty == 0)) [
    | inl z ↦
        let b : Book = record after_match { txn_id = m.0.txn_id } in
        let none_left : m.1.qty ≡ 0 = ground (arith, z) in
        rw z (omega (arith, none_left, stored-volume b 0 o.qty after_match-symbol h (omega arith)))
    | inr z ↦
        let node : Node = record { ref = e.next_ref; order = m.1 } in
        let b : Book = record (add_order node after_match) { txn_id = next64 m.0.txn_id } in
        rw z (
          omega (
            arith,
            sum_of-append moved m.0.events _,
            stored-volume b m.1.qty o.qty (add_order-symbol node after_match ∙ after_match-symbol) h
                (add_order-count qty_of node after_match),
          ))
  ]

bounded_side : (s : Side) (b : Book) → IsOrderly b → AreBounded (side_levels s b)
unfolding side_levels
bounded_side Side.none b k = All-map (λ m h. All-map (λ n q. q.1) m.1 h.2) b.sells k.sells
bounded_side Side.buy b k = All-map (λ m h. All-map (λ n q. q.1) m.1 h.2) b.buys k.buys
bounded_side Side.sell b k = All-map (λ m h. All-map (λ n q. q.1) m.1 h.2) b.sells k.sells

pub accept-Conserves :
    (o : OrderInfo) (e : Engine)
    → o.qty < 2 ^ 16
    → AreOrderly e.books
    → Conserves o.qty e (accept o e)
unfolding accept
accept-Conserves o e q h =
    let b = get_book o.symbol e.books in
    let s = opposite o.side in
    let ls = side_levels s b in
    settle-Conserves o e (match o ls (start_run e b)) (
      omega (
        arith,
        match-Balanced ls o (start_run e b) q
            (bounded_side s b (get_book-IsOrderly o.symbol e.books h)),
      ))
