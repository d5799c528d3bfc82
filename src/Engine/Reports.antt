-- ===== src/Engine/Reports.antt =====
-- engine.cpp: what a request is answered with, beside the trades that the callbacks report.
use mathlib.Core.Option
use basicmatch.Base.{
  ℕ, ◌==◌, ◌||◌, ◌≡◌, ◌∙◌, ◌⊎◌, true, false, not, List, [], ◌∷◌, ◌++◌, All, All-append, Bool-cases,
  Option-cases, inl, inr, none, some, map, map-append, append-nil, ltb, refl, ap, sym, Text, codes,
  ◌<◌, Ensures, Ensures-map, Ensures-any, arith,
}
use basicmatch.Types.{
  OrderInfo, OrderAction, Side, submit, cancel, error, filled, crosses, print_all,
}
use basicmatch.Book.{Node, Levels, Book, own, opposite, side_levels, remove_side}
use basicmatch.Match.{
  Event, fill_event, submit_event, cancel_event, Run, report, fill, bump_txn, match_level,
  after_level, match, next64,
}
use basicmatch.Engine.Used.{is_used}
use basicmatch.Engine.{
  Engine, Executed, execute, handle_submit, handle_cancel, cancel_at, accept, settle, filled_order,
  rest_order, start_run, deref, get_book,
}

-- A trade between two orders, the smaller first, as the engine reports it.
pub record Done : Type 0 where
  pub small : OrderInfo
  pub large : OrderInfo
  pub symbol : Text
  pub txn_id : ℕ
  pub qty : ℕ
  pub price : ℕ

-- The two reports of a trade carry its quantity and its price.
abbrev pub reports : List Done → List OrderAction
reports [] = []
reports (d ∷ ds) =
    filled (record (d.small) { qty = d.qty; price = d.price })
    ∷ filled (record (d.large) { qty = d.qty; price = d.price })
    ∷ reports ds

abbrev pub done_event : Done → Event
done_event d = fill_event d.symbol d.txn_id d.qty d.price

-- One of the two orders has this id.
abbrev pub Involves : ℕ → Done → Type 0
Involves id d = (d.small.id ≡ id) ⊎ (d.large.id ≡ id)

abbrev pub Reported : ℕ → List OrderAction → List Event → Type 0
Reported id results events =
    (ds : List Done) × (results ≡ reports ds) × (events ≡ map done_event ds) × All (Involves id) ds

abbrev RunReported : ℕ → Run → Type 0
RunReported id run = Reported id run.results run.events

reports-append : (ds es : List Done) → reports (ds ++ es) ≡ reports ds ++ reports es
reports-append [] es = refl
reports-append (d ∷ ds) es =
    ap
      (λ r.
        filled (record (d.small) { qty = d.qty; price = d.price })
        ∷ filled (record (d.large) { qty = d.qty; price = d.price })
        ∷ r)
      (reports-append ds es)

fill-RunReported :
    (id : ℕ) (small large : OrderInfo) (p t : ℕ) (run : Run)
    → (small.id ≡ id) ⊎ (large.id ≡ id)
    → RunReported id run
    → RunReported id (fill small large p t run).0
unfolding fill report
fill-RunReported id small large p t run i (ds, r, v, a) =
    let d : Done = record {
      small = small;
      large = large;
      symbol = large.symbol;
      txn_id = t;
      qty = small.qty;
      price = p;
    } in
    (
      ds ++ d ∷ [],
      ap (λ x. x ++ reports (d ∷ [])) r ∙ sym (reports-append ds (d ∷ [])),
      ap (λ x. x ++ done_event d ∷ []) v ∙ sym (map-append done_event ds (d ∷ [])),
      All-append (Involves id) ds (d ∷ []) a (i, tt),
    )

module _ (id : ℕ) where
  match_level-RunReported :
      (p : ℕ) (l : List Node) (o : OrderInfo) (run : Run)
      → o.id ≡ id
      → RunReported id run
      → let m = match_level o p l run in RunReported id m.0 × (m.1.id ≡ id)
  unfolding match_level bump_txn fill
  match_level-RunReported p [] o run e h = (h, e)
  match_level-RunReported p (n ∷ ns) o run e h = elim (Bool-cases (o.qty == 0)) [
    | inl z ↦ rw z (h, e)
    | inr z ↦ elim (Bool-cases (ltb o.qty n.order.qty)) [
      | inl k ↦ rw (z, k) (fill-RunReported id o n.order p run.txn_id (bump_txn run) (inl e) h, e)
      | inr k ↦
          let c = fill n.order o p run.txn_id (bump_txn run) in
          rw (z, k)
            (match_level-RunReported p ns c.2 c.0 e
              (fill-RunReported id n.order o p run.txn_id (bump_txn run) (inr e) h))
    ]
  ]

  after_level-RunReported :
      (p : ℕ) (ls : Levels) (here : Run × OrderInfo × List Node) (next : Run × OrderInfo × Levels)
      → RunReported id here.0 × (here.1.id ≡ id)
      → RunReported id next.0 × (next.1.id ≡ id)
      → let m = after_level p ls here next in RunReported id m.0 × (m.1.id ≡ id)
  unfolding after_level
  after_level-RunReported p ls (run, o, []) next h k = k
  after_level-RunReported p ls (run, o, n ∷ ns) next h k = h

  match-RunReported :
      (ls : Levels) (o : OrderInfo) (run : Run)
      → o.id ≡ id
      → RunReported id run
      → let m = match o ls run in RunReported id m.0 × (m.1.id ≡ id)
  unfolding match
  match-RunReported [] o run e h = (h, e)
  match-RunReported ((p, l) ∷ ls) o run e h = elim (Bool-cases (o.qty == 0 || not (crosses o p))) [
    | inl z ↦ rw z (h, e)
    | inr z ↦
        let here = match_level o p l run in
        let k = match_level-RunReported p l o run e h in
        rw z (
          after_level-RunReported p ls here (match here.1 ls here.0) k
            (match-RunReported ls here.1 here.0 k.1 k.0))
  ]

-- What follows the trades of an order: nothing, or its submission.
abbrev pub IsSubmission : ℕ → List Event → Type 0
IsSubmission id [] = Unit
IsSubmission id (submit_event s t i d q p ∷ []) = i ≡ id
IsSubmission id _ = ⊥

abbrev pub AcceptedAs : ℕ → Executed → Type 0
AcceptedAs id x =
    (trades : List Event) × (rest : List Event) × (x.1.events ≡ trades ++ rest)
    × IsSubmission id rest
    × Reported id x.1.results trades

settle-AcceptedAs :
    (id : ℕ) (s : Side) (b : Book) (e : Engine) (m : Run × OrderInfo × Levels)
    → RunReported id m.0 × (m.1.id ≡ id)
    → AcceptedAs id (settle s b e m)
unfolding settle filled_order rest_order
settle-AcceptedAs id s b e (run, o, ls) (h, i) = elim (Bool-cases (o.qty == 0)) [
  | inl z ↦ rw z (run.events, [], sym (append-nil run.events), tt, h)
  | inr z ↦
      rw z (run.events, submit_event o.symbol run.txn_id o.id o.side o.qty o.price ∷ [], refl, i, h)
]

accept-AcceptedAs : (o : OrderInfo) (e : Engine) → AcceptedAs o.id (accept o e)
unfolding accept
accept-AcceptedAs o e =
    let b = get_book o.symbol e.books in
    let s = opposite o.side in
    settle-AcceptedAs o.id s b e (match o (side_levels s b) (start_run e b))
      (match-RunReported o.id (side_levels s b) o (start_run e b) refl ([], refl, refl, tt))

-- An error alone, with its id and text, no callback, and the engine as it was.
abbrev pub Refused : ℕ → Text → Engine → Executed → Type 0
Refused id text e x =
    (x.0 ≡ e) × (x.1.results ≡ error (record { id = id; msg = text }) ∷ []) × (x.1.events ≡ [])

abbrev pub Answers : OrderAction → Engine → Executed → Type 0
Answers (submit o) e x =
    ((is_used o.id e.orders e.completed ≡ true) × Refused o.id (codes "duplciate order id") e x)
    ⊎ ((is_used o.id e.orders e.completed ≡ false)
        × (o.qty ≡ 0)
        × Refused o.id (codes "invalid [0] qty for order") e x)
    ⊎ ((is_used o.id e.orders e.completed ≡ false) × (0 < o.qty) × AcceptedAs o.id x)
Answers (cancel id) e x =
    ((e.orders id ≡ none) × Refused id (codes "no order found for id") e x)
    ⊎ ((r : ℕ) × (o : OrderInfo) × (e.orders id ≡ some r)
        × (deref r e.books ≡ some o)
        × (x.1.results ≡ cancel id ∷ [])
        × (x.1.events
            ≡ cancel_event o.symbol (get_book o.symbol e.books).txn_id o.qty o.price ∷ []))
Answers _ e x = (x.0 ≡ e) × (x.1.events ≡ [])

cancel_at-Answers :
    (id r : ℕ) (o : OrderInfo) (e : Engine)
    → e.orders id ≡ some r
    → deref r e.books ≡ some o
    → Ensures (Answers (cancel id) e) (cancel_at id r o e)
unfolding cancel_at
cancel_at-Answers id r o e h k =
    let b = get_book o.symbol e.books in
    let counted : Book = record b { txn_id = next64 b.txn_id } in
    Ensures-map (λ _. Unit {0}) (Answers (cancel id) e) _
      (remove_side (own o.side) o.price r counted) (λ b' _. inr (r, o, h, k, refl, refl))
      (Ensures-any _)

-- Every request that is defined is answered: an order whose id is used, and one for nothing, each
-- with its error and nothing else; any other order with two reports for each of its trades, which
-- carry the quantity and the price of the trade's callback and of which one is the order's own, and
-- after the trades at most the callback of its submission; a cancel of an id that does not rest with
-- its error, and of one that does with the id and a callback with the resting order's quantity and
-- price; printing with no callback and the engine as it was.
pub execute-Answers : (a : OrderAction) (e : Engine) → Ensures (Answers a e) (execute a e)
unfolding execute handle_cancel handle_submit Option.bind
execute-Answers (submit o) e = elim (Bool-cases (is_used o.id e.orders e.completed)) [
  | inl z ↦ rw z (inl (refl, (refl, refl, refl)))
  | inr z ↦ elim (Bool-cases (o.qty == 0)) [
    | inl q ↦ rw (z, q) (inr (inl (refl, ground (arith, q), (refl, refl, refl))))
    | inr q ↦ rw (z, q) (inr (inr (refl, ground (arith, q), accept-AcceptedAs o e)))
  ]
]
execute-Answers (cancel id) e = elim (Option-cases (e.orders id)) [
  | inl n ↦ rw (n, handle_cancel) (inl (n, (refl, refl, refl)))
  | inr (r, u) ↦ elim (Option-cases (deref r e.books)) [
    | inl n ↦ rw (u, n, handle_cancel) tt
    | inr (o, k) ↦ rw (u, k, handle_cancel) (cancel_at-Answers id r o e u k)
  ]
]
execute-Answers print_all e = (refl, refl)
execute-Answers _ e = tt
