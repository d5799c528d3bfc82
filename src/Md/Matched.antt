-- ===== src/Md/Matched.antt =====
-- engine.cpp and level_book.h: the loops of matching, and the level book that follows their fills.
use mathlib.Core.Option
use mathlib.Core.Option.{bind-eq-some_iff}
use basicmatch.Base.{
  ℕ, ◌+◌, ◌<◌, ◌^◌, ◌≡◌, ◌==◌, inl, inr, List, [], ◌∷◌, ◌++◌, some, map, All, arith, refl, ap, ◌∙◌,
  sym, sum_of, Bool-cases, append_assoc, append-nil, map-append, Text, ltb, ◌||◌, not,
}
use basicmatch.Types.{Side, OrderInfo, crosses}
use basicmatch.Book.{Node, Levels}
use basicmatch.Book.Order.{Behind, IsQty, IsSorted}
use basicmatch.Match.{Event, fill_event, Run, fill, bump_txn, match_level, after_level, match}
use basicmatch.Match.Level.{fill_large}
use basicmatch.Md.{Deferred, apply_action}
use basicmatch.Md.Sync.{apply_all}
use basicmatch.Md.InStep.{action_of}
use basicmatch.LevelBook.{LevelBook, BookEvent, trade_at}
use basicmatch.Engine.Registry.Volume.{qty_of}
use basicmatch.Md.Mirrored.{Mirrors, CanTrade, Trades}

pub apply_all-append :
    (xs ys : List Deferred) (b c d : LevelBook)
    → apply_all xs b ≡ some c
    → apply_all ys c ≡ some d
    → apply_all (xs ++ ys) b ≡ some d
unfolding apply_all Option.bind
apply_all-append [] ys b c d e f = let same : b ≡ c = ground arith in rw same f
apply_all-append (x ∷ xs) ys b c d e f =
    let ((c', es), k, e') = (bind-eq-some_iff (apply_action x b) (λ y. apply_all xs y.0)).0 e in
    rw k (apply_all-append xs ys c' c d e' f)

-- The calls that a piece of matching adds, and the level book that they make.
abbrev pub Followed :
    (ls' : Levels) → Side → LevelBook → LevelBook → List Event → List Event → Type 0
Followed ls' s before b old events =
    (new : List Event) × (c : LevelBook) × (events ≡ old ++ new)
    × (apply_all (map action_of new) b ≡ some c)
    × Mirrors s ls' before c

one_trade :
    (sy : Text) (t q p : ℕ) (b : LevelBook) (out : LevelBook × List BookEvent)
    → trade_at p q b ≡ some out
    → apply_all (map action_of (fill_event sy t q p ∷ [])) b ≡ some out.0
unfolding apply_all apply_action Option.bind
one_trade sy t q p b out e = rw e refl

module _ (s : Side) (trades : Trades s) (before : LevelBook) where
  match_level-Followed :
      (p : ℕ) (l : List Node) (ls : Levels) (o : OrderInfo) (r : Run) (b : LevelBook)
      → o.qty < 2 ^ 16
      → All (λ n. IsQty (qty_of n)) l
      → All (λ m. Behind s p m.0) ls
      → CanTrade s p before
      → Mirrors s ((p, l) ∷ ls) before b
      → let m = match_level o p l r in
        Followed ((p, m.2) ∷ ls) s before b r.events m.0.events × (m.1.qty < 2 ^ 16)
  unfolding match_level apply_all fill bump_txn
  match_level-Followed p [] ls o r b h g a w k = (([], b, sym (append-nil r.events), refl, k), h)
  match_level-Followed p (n ∷ ns) ls o r b h g a w k = elim (Bool-cases (o.qty == 0)) [
    | inl z ↦ rw z (([], b, sym (append-nil r.events), refl, k), h)
    | inr z ↦ elim (Bool-cases (ltb o.qty n.order.qty)) [
      | inl y ↦
          let c = fill o n.order p r.txn_id (bump_txn r) in
          let left = fill_large o n.order p r.txn_id (bump_txn r) (ground arith) (g.0.1) in
          let rest : List Node = record n { order = c.2 } ∷ ns in
          let sums : sum_of qty_of rest + o.qty ≡ sum_of qty_of (n ∷ ns) =
            let same = ap (λ (x : OrderInfo). x.qty) left in ground (arith, same) in
          let (out, e, k') = trades p o.qty (n ∷ ns) rest ls before b (ground arith) sums a w k in
          rw (z, y)
            (
              (
                fill_event n.order.symbol r.txn_id o.qty p ∷ [],
                out.0,
                refl,
                one_trade n.order.symbol r.txn_id o.qty p b out e,
                k',
              ),
              omega arith,
            )
      | inr y ↦
          let c = fill n.order o p r.txn_id (bump_txn r) in
          let left = fill_large n.order o p r.txn_id (bump_txn r) (ground arith) h in
          let (out, e, k') =
            trades p n.order.qty (n ∷ ns) ns ls before b g.0.0 (omega arith) a w k in
          let fewer : c.2.qty < 2 ^ 16 = ground (arith, left) in
          let ((new, d, f, u, k''), h') =
            match_level-Followed p ns ls c.2 c.0 out.0 fewer g.1 a w k' in
          let one = fill_event o.symbol r.txn_id n.order.qty p ∷ [] in
          rw (z, y)
            (
              (
                one ++ new,
                d,
                f ∙ append_assoc r.events one new,
                apply_all-append (map action_of one) (map action_of new) b out.0 d
                    (one_trade o.symbol r.txn_id n.order.qty p b out e) u,
                k'',
              ),
              h',
            )
    ]
  ]

  after_level-Followed :
      (p : ℕ) (ls : Levels) (old : List Event) (here : Run × OrderInfo × List Node)
      (next : Run × OrderInfo × Levels) (b : LevelBook)
      → Followed ((p, here.2) ∷ ls) s before b old here.0.events
      → ((c : LevelBook)
          → Mirrors s ls before c
          → Followed next.2 s before c here.0.events next.0.events)
      → let m = after_level p ls here next in Followed m.2 s before b old m.0.events
  unfolding after_level
  after_level-Followed p ls old (r, o, []) next b (new, c, f, u, k) go =
      let (more, d, g, v, k') = go c (record {
        sound = k.sound;
        small = k.small;
        holds = λ q. let held_here = k.holds q in ground (arith, held_here);
        fits = k.fits;
        other = k.other;
      }) in
      (
        new ++ more,
        d,
        g ∙ ap (λ x. x ++ more) f ∙ append_assoc old new more,
        rw (map-append action_of new more)
            (apply_all-append (map action_of new) (map action_of more) b c d u v),
        k',
      )
  after_level-Followed p ls old (r, o, n ∷ ns) next b h go = h

  pub match-Followed :
      (ls : Levels) (o : OrderInfo) (r : Run) (b : LevelBook)
      → o.qty < 2 ^ 16
      → All (λ m. All (λ n. IsQty (qty_of n)) m.1) ls
      → All (λ m. CanTrade s m.0 before) ls
      → IsSorted s ls
      → Mirrors s ls before b
      → let m = match o ls r in Followed m.2 s before b r.events m.0.events
  unfolding match apply_all
  match-Followed [] o r b h g w a k = ([], b, sym (append-nil r.events), refl, k)
  match-Followed ((p, l) ∷ ls) o r b h g w a k =
      elim (Bool-cases (o.qty == 0 || not (crosses o p))) [
        | inl z ↦ rw z ([], b, sym (append-nil r.events), refl, k)
        | inr z ↦
            let here = match_level o p l r in
            let (f, h') = match_level-Followed p l ls o r b h g.0 a.0 w.0 k in
            rw z (
              after_level-Followed p ls r.events here (match here.1 ls here.0) b f
                (λ c k'. match-Followed ls here.1 here.0 c h' g.1 w.1 a.1 k'))
      ]
