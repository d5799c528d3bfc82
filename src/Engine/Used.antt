-- ===== src/Engine/Used.antt =====
-- engine.cpp: which ids are refused, and that none is ever taken again.
use mathlib.Core.Option
use basicmatch.Base.{
  ℕ, ◌≡◌, ◌==◌, ◌||◌, not, Bool, true, List, [], ◌∷◌, IdMap, IdSet, put, erase, insert, Ensures,
  Ensures-map, Ensures-any, Ensures-bind, Ensures-some, refl, ltb, Bool-cases, Option-cases, inl,
  inr,
}
use basicmatch.Types.{OrderInfo, Side, OrderAction, submit, cancel, print_all, crosses}
use basicmatch.Book.{Node, Levels, Book, own, remove_side}
use basicmatch.Match.{Run, fill, bump_txn, match_level, after_level, match, next64}
use basicmatch.Engine.{
  Engine, Executed, execute, run, handle_submit, handle_cancel, cancel_at, accept, settle,
  rest_order, filled_order, start_run, deref, get_book, is_some,
}

-- The id is one that a submission is refused for.
abbrev pub is_used : ℕ → IdMap ℕ → IdSet → Bool
is_used i orders completed = is_some (orders i) || completed i

abbrev pub IsUsed : ℕ → Engine → Type 0
IsUsed i e = is_used i e.orders e.completed ≡ true

abbrev UsedIn : ℕ → Run → Type 0
UsedIn i r = is_used i r.orders r.completed ≡ true

module _ (i : ℕ) where
  fill-UsedIn :
      (small large : OrderInfo) (p t : ℕ) (r : Run)
      → UsedIn i r
      → UsedIn i (fill small large p t (bump_txn r)).0
  unfolding fill bump_txn is_some
  fill-UsedIn small large p t r u = elim (Bool-cases (small.id == i)) [
    | inl z ↦ rw z refl
    | inr z ↦ rw z u
  ]

  match_level-UsedIn :
      (p : ℕ) (l : List Node) (o : OrderInfo) (r : Run)
      → UsedIn i r
      → UsedIn i (match_level o p l r).0
  unfolding match_level
  match_level-UsedIn p [] o r u = u
  match_level-UsedIn p (n ∷ ns) o r u = elim (Bool-cases (o.qty == 0)) [
    | inl z ↦ rw z u
    | inr z ↦ elim (Bool-cases (ltb o.qty n.order.qty)) [
      | inl k ↦ rw (z, k) (fill-UsedIn o n.order p r.txn_id r u)
      | inr k ↦
          let c = fill n.order o p r.txn_id (bump_txn r) in
          rw (z, k) (match_level-UsedIn p ns c.2 c.0 (fill-UsedIn n.order o p r.txn_id r u))
    ]
  ]

  after_level-UsedIn :
      (p : ℕ) (ls : Levels) (here : Run × OrderInfo × List Node) (next : Run × OrderInfo × Levels)
      → UsedIn i here.0
      → UsedIn i next.0
      → UsedIn i (after_level p ls here next).0
  unfolding after_level
  after_level-UsedIn p ls (r, o, []) next h k = k
  after_level-UsedIn p ls (r, o, n ∷ ns) next h k = h

  match-UsedIn : (ls : Levels) (o : OrderInfo) (r : Run) → UsedIn i r → UsedIn i (match o ls r).0
  unfolding match
  match-UsedIn [] o r u = u
  match-UsedIn ((p, l) ∷ ls) o r u = elim (Bool-cases (o.qty == 0 || not (crosses o p))) [
    | inl z ↦ rw z u
    | inr z ↦
        let here = match_level o p l r in
        let k = match_level-UsedIn p l o r u in
        rw z (
          after_level-UsedIn p ls here (match here.1 ls here.0) k (match-UsedIn ls here.1 here.0 k))
  ]

  put-IsUsed :
      (k v : ℕ) (orders : IdMap ℕ) (completed : IdSet)
      → is_used i orders completed ≡ true
      → is_used i (put k v orders) completed ≡ true
  unfolding is_some
  put-IsUsed k v orders completed u = elim (Bool-cases (k == i)) [
    | inl z ↦ rw z refl
    | inr z ↦ rw z u
  ]

  settle-IsUsed :
      (s : Side) (b : Book) (e : Engine) (m : Run × OrderInfo × Levels)
      → UsedIn i m.0
      → IsUsed i (settle s b e m).0
  unfolding settle filled_order rest_order
  settle-IsUsed s b e (r, o, ls) u = elim (Bool-cases (o.qty == 0)) [
    | inl z ↦ rw z u
    | inr z ↦ rw z (put-IsUsed o.id e.next_ref r.orders r.completed u)
  ]

  handle_submit-IsUsed : (o : OrderInfo) (e : Engine) → IsUsed i e → IsUsed i (handle_submit o e).0
  unfolding handle_submit accept
  handle_submit-IsUsed o e u = elim (Bool-cases (is_used o.id e.orders e.completed)) [
    | inl k ↦ rw k u
    | inr k ↦ elim (Bool-cases (o.qty == 0)) [
      | inl z ↦ rw (k, z) u
      | inr z ↦
          let b = get_book o.symbol e.books in
          rw (k, z) (settle-IsUsed _ b e _ (match-UsedIn _ o (start_run e b) u))
    ]
  ]

  cancel_at-IsUsed :
      (id r : ℕ) (o : OrderInfo) (e : Engine)
      → IsUsed i e
      → Ensures (λ x. IsUsed i x.0) (cancel_at id r o e)
  unfolding cancel_at is_some
  cancel_at-IsUsed id r o e u =
      let b = get_book o.symbol e.books in
      let still : is_used i (erase id e.orders) (insert id e.completed) ≡ true =
        elim (Bool-cases (id == i)) [ inl z ↦ rw z refl | inr z ↦ rw z u ] in
      Ensures-map (λ _. Unit {0}) (λ (x : Executed). IsUsed i x.0) _
        (remove_side (own o.side) o.price r (record b { txn_id = next64 b.txn_id })) (λ b' k. still)
        (Ensures-any _)

  execute-IsUsed :
      (a : OrderAction) (e : Engine) → IsUsed i e → Ensures (λ x. IsUsed i x.0) (execute a e)
  unfolding execute handle_cancel
  execute-IsUsed (submit o) e u = handle_submit-IsUsed o e u
  execute-IsUsed (cancel id) e u = elim (Option-cases (e.orders id)) [
    | inl n ↦ rw (n, handle_cancel) u
    | inr (r, v) ↦
        rw (v, handle_cancel)
          (Ensures-bind (λ x. IsUsed i x.0) (deref r e.books) (λ o. cancel_at id r o e)
            (λ o. cancel_at-IsUsed id r o e u))
  ]
  execute-IsUsed print_all e u = u
  execute-IsUsed _ e u = tt

  pub run-IsUsed :
      (actions : List OrderAction) (e : Engine)
      → IsUsed i e
      → Ensures (λ e'. IsUsed i e') (run actions e)
  unfolding run Option.bind
  run-IsUsed [] e u = u
  run-IsUsed (a ∷ rest) e u = elim (Option-cases (execute a e)) [
    | inl n ↦ rw n tt
    | inr (x, s) ↦ rw s (
        run-IsUsed rest x.0
          (Ensures-some (λ x. IsUsed i x.0) (execute a e) s (execute-IsUsed a e u)))
  ]
