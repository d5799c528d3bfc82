-- ===== src/Engine/Replies.antt =====
-- What the engine answers with: errors, cancellations, fills and printed orders.
use mathlib.Core.List.{flat_map, reverse}
use basicmatch.Base.{
  ℕ, ◌==◌, ◌||◌, not, List, [], ◌∷◌, All, All-append, Bool-cases, Option-cases, inl, inr, ltb,
  Ensures, Ensures-map, Ensures-bind, Ensures-any, arith,
}
use basicmatch.Types.{
  OrderInfo, Side, OrderAction, submit, cancel, error, filled, printed, print_all, crosses,
}
use basicmatch.Book.{
  Node, Level, Levels, Book, dump, own, opposite, side_levels, remove_side, print_level,
}
use basicmatch.Match.{Run, report, fill, bump_txn, match_level, after_level, match, next64}
use basicmatch.Engine.{
  Engine, Executed, execute, handle_cancel, cancel_at, accept, settle, filled_order, rest_order,
  start_run, deref, get_book,
}

abbrev pub IsReply : OrderAction → Type 0
IsReply (error i) = Unit
IsReply (cancel id) = Unit
IsReply (filled o) = Unit
IsReply (printed o) = Unit
IsReply _ = ⊥

abbrev Replies : Run → Type 0
Replies run = All IsReply run.results

fill-Replies :
    (small large : OrderInfo) (p t : ℕ) (run : Run)
    → Replies run
    → Replies (fill small large p t run).0
unfolding fill report
fill-Replies small large p t run h = All-append IsReply run.results _ h (tt, (tt, tt))

match_level-Replies :
    (p : ℕ) (l : List Node) (o : OrderInfo) (run : Run)
    → Replies run
    → Replies (match_level o p l run).0
unfolding match_level bump_txn
match_level-Replies p [] o run h = h
match_level-Replies p (n ∷ ns) o run h = elim (Bool-cases (o.qty == 0)) [
  | inl z ↦ rw z h
  | inr z ↦ elim (Bool-cases (ltb o.qty n.order.qty)) [
    | inl k ↦ rw (z, k) (fill-Replies o n.order p run.txn_id (bump_txn run) h)
    | inr k ↦
        let c = fill n.order o p run.txn_id (bump_txn run) in
        rw (z, k)
          (match_level-Replies p ns c.2 c.0 (fill-Replies n.order o p run.txn_id (bump_txn run) h))
  ]
]

after_level-Replies :
    (p : ℕ) (ls : Levels) (here : Run × OrderInfo × List Node) (next : Run × OrderInfo × Levels)
    → Replies here.0
    → Replies next.0
    → Replies (after_level p ls here next).0
unfolding after_level
after_level-Replies p ls (run, o, []) next h k = k
after_level-Replies p ls (run, o, n ∷ ns) next h k = h

match-Replies : (ls : Levels) (o : OrderInfo) (run : Run) → Replies run → Replies (match o ls run).0
unfolding match
match-Replies [] o run h = h
match-Replies ((p, l) ∷ ls) o run h = elim (Bool-cases (o.qty == 0 || not (crosses o p))) [
  | inl z ↦ rw z h
  | inr z ↦
      let here = match_level o p l run in
      let k = match_level-Replies p l o run h in
      rw z (
        after_level-Replies p ls here (match here.1 ls here.0) k (match-Replies ls here.1 here.0 k))
]

settle-Replies :
    (s : Side) (b : Book) (e : Engine) (m : Run × OrderInfo × Levels)
    → Replies m.0
    → All IsReply (settle s b e m).1.results
unfolding settle filled_order rest_order
settle-Replies s b e (run, o, ls) h = elim (Bool-cases (o.qty == 0)) [
  | inl z ↦ rw z h
  | inr z ↦ rw z h
]

accept-Replies : (o : OrderInfo) (e : Engine) → All IsReply (accept o e).1.results
unfolding accept
accept-Replies o e =
    let b = get_book o.symbol e.books in
    let s = opposite o.side in
    settle-Replies s b e (match o (side_levels s b) (start_run e b))
      (match-Replies (side_levels s b) o (start_run e b) tt)

flat_map-All {ℓ κ ι} :
    {A : Type ℓ} {B : Type κ} (P : B → Type ι) (f : A → List B) (xs : List A)
    → ((a : A) → All P (f a))
    → All P (flat_map f xs)
unfolding flat_map
flat_map-All P f [] h = tt
flat_map-All P f (x ∷ xs) h = All-append P (f x) (flat_map f xs) (h x) (flat_map-All P f xs h)

print_level-IsReply : (m : Level) → All IsReply (print_level m)
print_level-IsReply (p, []) = tt
print_level-IsReply (p, n ∷ ns) = (tt, print_level-IsReply (p, ns))

dump-IsReply : (b : Book) → All IsReply (dump b)
unfolding dump
dump-IsReply b =
    All-append IsReply (flat_map print_level (reverse b.sells)) (flat_map print_level b.buys)
      (flat_map-All IsReply print_level (reverse b.sells) print_level-IsReply)
      (flat_map-All IsReply print_level b.buys print_level-IsReply)

cancel_at-IsReply :
    (id r : ℕ) (o : OrderInfo) (e : Engine)
    → Ensures (λ x. All IsReply x.1.results) (cancel_at id r o e)
unfolding cancel_at
cancel_at-IsReply id r o e =
    let b = get_book o.symbol e.books in
    let counted : Book = record b { txn_id = next64 b.txn_id } in
    Ensures-map (λ _. Unit {0}) (λ (x : Executed). All IsReply x.1.results) _
      (remove_side (own o.side) o.price r counted) (λ b' k. (tt, tt)) (Ensures-any _)

-- What the engine answers a request with, where it is defined, are errors, cancellations, fills and
-- printed orders alone: no submission and no request to print stands in its results.
pub execute-IsReply :
    (a : OrderAction) (e : Engine) → Ensures (λ x. All IsReply x.1.results) (execute a e)
unfolding execute handle_cancel
execute-IsReply (submit o) e = ground (arith, accept-Replies o e)
execute-IsReply (cancel id) e = elim (Option-cases (e.orders id)) [
  | inl n ↦ rw (n, handle_cancel) (tt, tt)
  | inr (r, u) ↦
      rw (u, handle_cancel)
        (Ensures-bind (λ x. All IsReply x.1.results) (deref r e.books) (λ o. cancel_at id r o e)
          (λ o. cancel_at-IsReply id r o e))
]
execute-IsReply print_all e = flat_map-All IsReply dump e.books dump-IsReply
execute-IsReply _ e = tt
