-- ===== src/Engine/Accepted.antt =====
-- engine.cpp: which ids of accepted orders are refused afterwards.
use mathlib.Core.Option
use basicmatch.Base.{
  ℕ, ◌-◌, ◌<◌, ◌^◌, ◌≡◌, ◌≢◌, ◌==◌, ◌||◌, true, false, List, [], ◌∷◌, none, some, All, All-map,
  All-append, Ensures-some, arith, refl, ap, ◌∙◌, ltb, sum_of, Bool-cases, Option-cases, inl, inr,
  Text,
}
use basicmatch.Types.{OrderInfo, Side, OrderAction, submit, error}
use basicmatch.Book.{Node, Levels, Book, opposite, side_levels}
use basicmatch.Match.{Run, match}
use basicmatch.Match.Orderly.{IsOrderly}
use basicmatch.Match.Queue.{Entry, entries, queue, crossing, quantity, HasQty}
use basicmatch.Match.Priority.{match_priority}
use basicmatch.Match.Split.{is_split, HaveOther, match-SplitIs}
use basicmatch.Engine.{
  Engine, run, execute, handle_submit, accept, settle, rest_order, filled_order, start_run,
  get_book, is_some, reply, duplicate_id,
}
use basicmatch.Engine.Orderly.{AreOrderly, Fits, get_book-IsOrderly}
use basicmatch.Engine.Registry.Total.{IsRequest, run_from_total}
use basicmatch.Engine.Used.{is_used, IsUsed, run-IsUsed}
use basicmatch.Engine.Registry.Count.{hit, weigh_levels, match-Keeps}
use basicmatch.Engine.Registry.Books.{get_book-count-le, side_levels-count-le}
use basicmatch.Engine.Registry.Tracked.{IsTracked, elsewhere, here_and_elsewhere}

-- The queue has what each of its levels has.
queue-All {κ} :
    (P : Entry → Type κ) (ls : Levels) → All (λ m. All P (entries m)) ls → All P (queue ls)
queue-All P [] h = tt
queue-All P (m ∷ ls) h = All-append P (entries m) (queue ls) h.0 (queue-All P ls h.1)

entries-All {κ} :
    (P : Entry → Type κ) (p : ℕ) (l : List Node) → All (λ n. P (p, n)) l → All P (entries (p, l))
entries-All P p [] h = tt
entries-All P p (n ∷ ns) h = (h.0, entries-All P p ns h.1)

queue-HasQty : (s : Side) (b : Book) → IsOrderly b → All HasQty (queue (side_levels s b))
unfolding side_levels
queue-HasQty Side.none b k =
    queue-All HasQty b.sells (All-map (λ m h. entries-All HasQty m.0 m.1 h.2) b.sells k.sells)
queue-HasQty Side.buy b k =
    queue-All HasQty b.buys (All-map (λ m h. entries-All HasQty m.0 m.1 h.2) b.buys k.buys)
queue-HasQty Side.sell b k =
    queue-All HasQty b.sells (All-map (λ m h. entries-All HasQty m.0 m.1 h.2) b.sells k.sells)

-- Where no node has an id at any address, no node has the id.
level-HaveOther :
    (i p : ℕ) (l : List Node) → ((r : ℕ) → sum_of (hit i r) l ≡ 0) → HaveOther i (entries (p, l))
level-HaveOther i p [] h = tt
level-HaveOther i p (n ∷ ns) h =
    (let here = h n.ref in ground (arith, here), level-HaveOther i p ns (λ r. omega (arith, h r)))

queue-HaveOther :
    (i : ℕ) (ls : Levels) → ((r : ℕ) → weigh_levels (hit i r) ls ≡ 0) → HaveOther i (queue ls)
queue-HaveOther i [] h = tt
queue-HaveOther i ((p, l) ∷ ls) h =
    All-append (λ (e : Entry). e.1.order.id ≢ i) (entries (p, l)) (queue ls)
      (level-HaveOther i p l (λ r. omega (arith, h r)))
      (queue-HaveOther i ls (λ r. omega (arith, h r)))

unregistered :
    (i : ℕ) (symbol : Text) (s : Side) (e : Engine)
    → e.orders i ≡ none
    → IsTracked e
    → HaveOther i (queue (side_levels s (get_book symbol e.books)))
unregistered i symbol s e u t = queue-HaveOther i (side_levels s (get_book symbol e.books)) (λ r.
    ground (
      arith,
      u,
      t.counted i r,
      get_book-count-le (hit i r) symbol e.books,
      side_levels-count-le (hit i r) s (get_book symbol e.books),
    ))

unknown-none : (i : ℕ) (e : Engine) → is_used i e.orders e.completed ≡ false → e.orders i ≡ none
unfolding is_some
unknown-none i e u = elim (Option-cases (e.orders i)) [
  | inl n ↦ n
  | inr (r, s) ↦ let bad : true ≡ false = rw s at u in cc
]

unknown-false :
    (i : ℕ) (e : Engine) → is_used i e.orders e.completed ≡ false → e.completed i ≡ false
unknown-false i e u = ground arith

settle-is_used :
    (o : OrderInfo) (b : Book) (e : Engine) (m : Run × OrderInfo × Levels) (es : List Entry)
    → m.1.id ≡ o.id
    → m.1.qty ≡ o.qty - sum_of quantity es
    → m.0.orders o.id ≡ none
    → m.0.completed o.id ≡ is_split o.qty es
    → let e' = (settle (opposite o.side) b e m).0 in
      is_used o.id e'.orders e'.completed ≡ (ltb (sum_of quantity es) o.qty || is_split o.qty es)
unfolding settle filled_order rest_order is_some
settle-is_used o b e (r, o', ls) es i q n s = elim (Bool-cases (o'.qty == 0)) [
  | inl z ↦ let whole : ltb (sum_of quantity es) o.qty ≡ false = ground arith in rw (z, n, whole) s
  | inr z ↦
      let part : ltb (sum_of quantity es) o.qty ≡ true = ground arith in
      let same : (o'.id == o.id) ≡ true = ground arith in rw (z, part, same) refl
]

-- The resting orders that a submitted order meets, in their priority.
abbrev pub met : OrderInfo → Engine → List Entry
met o e = queue (crossing o (side_levels (opposite o.side) (get_book o.symbol e.books)))

accept-is_used :
    (o : OrderInfo) (e : Engine)
    → o.qty < 2 ^ 16
    → AreOrderly e.books
    → IsTracked e
    → is_used o.id e.orders e.completed ≡ false
    → let e' = (accept o e).0 in
      is_used o.id e'.orders e'.completed
      ≡ (ltb (sum_of quantity (met o e)) o.qty || is_split o.qty (met o e))
unfolding accept
accept-is_used o e q h t u =
    let b = get_book o.symbol e.books in
    let s = opposite o.side in
    let ls = side_levels s b in
    let run = start_run e b in
    let m = match o ls run in
    let none_here = unknown-none o.id e u in
    let g = queue-HasQty s b (get_book-IsOrderly o.symbol e.books h) in
    let (f, k) =
      match-Keeps ls o run (elsewhere o.symbol s e.books)
        (none_here, λ i j. here_and_elsewhere o.symbol s e.books i j ∙ t.counted i j) in
    let unknown : m.0.orders o.id ≡ none = rw f.same_id at k.0 in
    settle-is_used o b e m (met o e) f.same_id
      (ap (λ (x : OrderInfo). x.qty) (match_priority o ls run q g).0) unknown
      (match-SplitIs ls o run q g (unregistered o.id o.symbol s e none_here t)
        (unknown-false o.id e u))

-- For an order with a quantity of 16 bits that is not zero and with an id that is not refused, where
-- the books are in order and the register agrees with them: after its submission the id is refused
-- exactly where a part of the order is left to rest, or its last trade leaves a part of a resting
-- order; so where it is filled to the end of a resting order, its id can be taken again.
pub handle_submit-is_used :
    (o : OrderInfo) (e : Engine)
    → 0 < o.qty
    → o.qty < 2 ^ 16
    → AreOrderly e.books
    → IsTracked e
    → is_used o.id e.orders e.completed ≡ false
    → let e' = (handle_submit o e).0 in
      is_used o.id e'.orders e'.completed
      ≡ (ltb (sum_of quantity (met o e)) o.qty || is_split o.qty (met o e))
unfolding handle_submit
handle_submit-is_used o e p q h t u =
    let some_left : (o.qty == 0) ≡ false = ground arith in
    rw (u, some_left) (accept-is_used o e q h t u)

refused :
    (o : OrderInfo) (e : Engine)
    → IsUsed o.id e
    → handle_submit o e ≡ reply e (error (record { id = o.id; msg = duplicate_id }))
unfolding handle_submit
refused o e u = rw u refl

-- For an order with a quantity of 16 bits that is not zero and with an id that is not refused, where
-- the books are in order and the register agrees with them, and where the order is not filled to the
-- end of a resting order: its submission and any requests after it, their quantities of 16 bits, are
-- executed; and a submission with its id is then answered by the error of a duplicate id, and changes
-- nothing.
pub run-duplicate_id :
    (o again : OrderInfo) (e : Engine) (actions : List OrderAction)
    → 0 < o.qty
    → o.qty < 2 ^ 16
    → AreOrderly e.books
    → IsTracked e
    → is_used o.id e.orders e.completed ≡ false
    → (ltb (sum_of quantity (met o e)) o.qty || is_split o.qty (met o e)) ≡ true
    → again.id ≡ o.id
    → All Fits actions
    → All IsRequest actions
    → (e' : Engine) × (run (submit o ∷ actions) e ≡ some e')
      × (handle_submit again e' ≡ reply e' (error (record { id = again.id; msg = duplicate_id })))
unfolding run execute Option.bind
run-duplicate_id o again e actions p q h t u k i f g =
    let used = handle_submit-is_used o e p q h t u ∙ k in
    let (e', r, z, w) = run_from_total (submit o ∷ actions) e (q, f) (tt, g) h t in
    let still : IsUsed o.id e' =
      Ensures-some (IsUsed o.id) (run actions (handle_submit o e).0) r
        (run-IsUsed o.id actions (handle_submit o e).0 used) in
    (e', r, refused again e' (rw i still))
