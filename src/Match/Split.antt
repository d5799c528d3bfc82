-- ===== src/Match/Split.antt =====
-- engine.cpp: what `fill` records of the incoming order: its id is completed where it ends inside a
-- resting order, and only there.
use basicmatch.Base.{
  ℕ, ◌-◌, ◌<◌, ◌^◌, ◌≡◌, ◌≢◌, ◌==◌, ◌||◌, Bool, true, false, List, [], ◌∷◌, ◌++◌, All, All-left,
  All-right, arith, refl, ltb, sum_of, sub_sub, Bool-cases, inl, inr, if◌then◌else◌, ◌∙◌, ap, sym,
}
use basicmatch.Types.{OrderInfo, crosses}
use basicmatch.Book.{Node, Levels}
use basicmatch.Match.{Run, fill, bump_txn, match_level, after_level, match}
use basicmatch.Match.Queue.{Entry, remaining, entries, queue, crossing, quantity, HasQty}
use basicmatch.Match.Level.{Matched, fill_large, match_level_lem}
use basicmatch.Match.Priority.{SameTerms, crossing-SameTerms, remaining_cases}

-- A quantity that the resting orders do not use up at one's end, but inside one.
abbrev pub is_split : ℕ → List Entry → Bool
is_split q [] = false
is_split q ((p, n) ∷ es) =
    let rest = is_split (q - n.order.qty) es in
    if q == 0 then false else if ltb q n.order.qty then true else rest

is_split-zero : (es : List Entry) → is_split 0 es ≡ false
is_split-zero [] = refl
is_split-zero ((p, n) ∷ es) = refl

is_split-append :
    (q : ℕ) (xs ys : List Entry)
    → is_split q (xs ++ ys) ≡ (is_split q xs || is_split (q - sum_of quantity xs) ys)
is_split-append q [] ys = ground arith
is_split-append q ((p, n) ∷ xs) ys = ground (
  arith,
  is_split-append (q - n.order.qty) xs ys,
  sub_sub q n.order.qty (sum_of quantity xs),
  is_split-zero ys,
)

-- No order here has the id.
abbrev pub HaveOther : ℕ → List Entry → Type 0
HaveOther i = All (λ e. e.1.order.id ≢ i)

abbrev SplitIs : OrderInfo → Run → List Entry → Type 0
SplitIs o r es = r.completed o.id ≡ is_split o.qty es

fill-other :
    (small large : OrderInfo) (p t i : ℕ) (r : Run)
    → small.id ≢ i
    → (fill small large p t (bump_txn r)).0.completed i ≡ r.completed i
unfolding fill bump_txn
fill-other small large p t i r n = ground arith

fill-own :
    (small large : OrderInfo) (p t : ℕ) (r : Run)
    → (fill small large p t (bump_txn r)).0.completed small.id ≡ true
unfolding fill bump_txn
fill-own small large p t r = ground arith

match_level-SplitIs :
    (p : ℕ) (l : List Node) (o : OrderInfo) (r : Run)
    → o.qty < 2 ^ 16
    → HaveOther o.id (entries (p, l))
    → r.completed o.id ≡ false
    → let m = match_level o p l r in
      (m.0.completed o.id ≡ is_split o.qty (entries (p, l))) × (m.1.id ≡ o.id)
unfolding match_level
match_level-SplitIs p [] o r q h u = (u, refl)
match_level-SplitIs p (n ∷ ns) o r q h u = elim (Bool-cases (o.qty == 0)) [
  | inl z ↦ rw z (u, refl)
  | inr z ↦ elim (Bool-cases (ltb o.qty n.order.qty)) [
    | inl k ↦ rw (z, k) (fill-own o n.order p r.txn_id r, refl)
    | inr k ↦
        let c = fill n.order o p r.txn_id (bump_txn r) in
        let left = fill_large n.order o p r.txn_id (bump_txn r) in
        let same : c.2.qty ≡ o.qty - n.order.qty = ground (arith, left) in
        let known : c.0.completed o.id ≡ false = fill-other n.order o p r.txn_id o.id r h.0 ∙ u in
        let (s, i) = match_level-SplitIs p ns c.2 c.0 (ground (arith, left)) h.1 known in
        rw (z, k) (s ∙ ap (λ q'. is_split q' (entries (p, ns))) same, i)
  ]
]

remaining-nil : (q : ℕ) (es : List Entry) → remaining q es ≡ [] → is_split q es ≡ false
remaining-nil q [] e = refl
remaining-nil q ((p, n) ∷ es) e = ground (arith, remaining-nil (q - n.order.qty) es)

-- The levels that another order with the same terms crosses.
crossing_same : (o o' : OrderInfo) (ls : Levels) → SameTerms o o' → crossing o' ls ≡ crossing o ls
crossing_same o o' ls t = (crossing-SameTerms o o' ls t).0

after_level-SplitIs :
    (o : OrderInfo) (p : ℕ) (l : List Node) (ls : Levels) (r : Run)
    (here : Run × OrderInfo × List Node) (next : Run × OrderInfo × Levels)
    → crosses o p ≡ true
    → Matched o (entries (p, l)) r here.0 here.1 (entries (p, here.2))
    → here.0.completed o.id ≡ is_split o.qty (entries (p, l))
    → (here.0.completed o.id ≡ false
        → next.0.completed o.id ≡ is_split here.1.qty (queue (crossing here.1 ls)))
    → (after_level p ls here next).0.completed o.id
      ≡ is_split o.qty (queue (crossing o ((p, l) ∷ ls)))
unfolding after_level
after_level-SplitIs o p l ls r (s, o', []) next c m h k =
    let here = remaining-nil o.qty (entries (p, l)) (sym m.left_over) in
    let there = crossing_same o o' ls (ground (arith, m.order)) in
    let left : o'.qty ≡ o.qty - sum_of quantity (entries (p, l)) =
      ap (λ (x : OrderInfo). x.qty) m.order in
    let rest = k (h ∙ here) in
    let parts = is_split-append o.qty (entries (p, l)) (queue (crossing o ls)) in
    rw (c, parts, here) (rw (there, left) at rest)
after_level-SplitIs o p l ls r (s, o', n ∷ ns) next c m h k =
    let left : o.qty - sum_of quantity (entries (p, l)) ≡ 0 =
      ground (arith, remaining_cases o.qty (entries (p, l)), m.left_over) in
    let parts = is_split-append o.qty (entries (p, l)) (queue (crossing o ls)) in
    rw (c, parts, left) (ground (arith, h, is_split-zero (queue (crossing o ls))))

-- An order whose id no resting order has: matching marks the id as completed where the quantity
-- ends inside a resting order.
pub match-SplitIs :
    (ls : Levels) (o : OrderInfo) (r : Run)
    → o.qty < 2 ^ 16
    → All HasQty (queue ls)
    → HaveOther o.id (queue ls)
    → r.completed o.id ≡ false
    → (match o ls r).0.completed o.id ≡ is_split o.qty (queue (crossing o ls))
unfolding match
match-SplitIs [] o r q g h u = u
match-SplitIs ((p, l) ∷ ls) o r q g h u =
    let here = match_level o p l r in
    let m = match_level_lem o p l r q (All-left HasQty (entries (p, l)) (queue ls) g) in
    let (s, i) = match_level-SplitIs p l o r q (All-left _ (entries (p, l)) (queue ls) h) u in
    let all = after_level-SplitIs o p l ls r here (match here.1 ls here.0) in
    let g' = All-right HasQty (entries (p, l)) (queue ls) g in
    let h' = All-right (λ (e : Entry). e.1.order.id ≢ o.id) (entries (p, l)) (queue ls) h in
    elim (Bool-cases (o.qty == 0)) [
      | inl e ↦
          let zero : o.qty ≡ 0 = ground (arith, e) in
          let hit = queue (crossing o ((p, l) ∷ ls)) in
          rw e (u ∙ sym (ap (λ q'. is_split q' hit) zero ∙ is_split-zero hit))
      | inr e ↦ elim (Bool-cases (crosses o p)) [
        | inl c ↦
            let rest = λ (z : here.0.completed o.id ≡ false).
              rw i at
                (match-SplitIs ls here.1 here.0 (ground (arith, m.order)) g' (rw i h') (rw i z)) in
            rw (e, c) (rw c at (all c m s rest))
        | inr c ↦ rw (e, c) u
      ]
    ]
