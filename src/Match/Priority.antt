-- ===== src/Match/Priority.antt =====
-- The loops of `match` do what Match/Queue says.
use basicmatch.Base.{
  ℕ, ◌-◌, ◌<◌, ◌^◌, List, [], ◌∷◌, ◌++◌, map, ◌==◌, All, sum_of, sum_of-append, sub_sub, All-left,
  All-right, true, ◌⊎◌, ◌≡◌, refl, arith, append_assoc, append-nil, Bool-cases, inl, inr, ap,
}
use native.Mathlib.Nat.{sub-zero}
use basicmatch.Types.{OrderInfo, crosses}
use basicmatch.Book.{Node, Levels}
use basicmatch.Match.{Run, match_level, match, after_level}
use basicmatch.Match.Queue.{
  Entry, entries, queue, crossing, beyond, quantity, trades, remaining, HasQty, trade_of,
}
use basicmatch.Match.Level.{Matched, stop_Matched, match_level_lem}

trades-append :
    (q : ℕ) (xs ys : List Entry)
    → trades q (xs ++ ys) ≡ trades q xs ++ trades (q - sum_of quantity xs) ys
trades-append q [] ys = ground (arith, sub-zero q)
trades-append q ((p, n) ∷ xs) ys =
    ground
      (arith, trades-append (q - n.order.qty) xs ys, sub_sub q n.order.qty (sum_of quantity xs))

remaining-append :
    (q : ℕ) (xs ys : List Entry)
    → remaining q (xs ++ ys) ≡ remaining q xs ++ remaining (q - sum_of quantity xs) ys
remaining-append q [] ys = ground (arith, sub-zero q)
remaining-append q ((p, n) ∷ xs) ys =
    ground
      (arith, remaining-append (q - n.order.qty) xs ys, sub_sub q n.order.qty (sum_of quantity xs))

-- Where an entry is left, the incoming quantity is used up.
pub remaining_cases :
    (q : ℕ) (es : List Entry) → (remaining q es ≡ []) ⊎ (q - sum_of quantity es ≡ 0)
remaining_cases q [] = inl refl
remaining_cases q ((p, n) ∷ es) =
    ground (arith, remaining_cases (q - n.order.qty) es, sub_sub q n.order.qty (sum_of quantity es))

Matched-trans :
    (o o' o'' : OrderInfo) (xs ys : List Entry) (r out out' : Run) {left left' : List Entry}
    → Matched o xs r out o' left
    → Matched o' ys out out' o'' left'
    → Matched o (xs ++ ys) r out' o'' (left ++ left')
Matched-trans o o' o'' xs ys r out out' m k = record {
  order = ground (
    arith,
    sum_of-append quantity xs ys,
    sub_sub o.qty (sum_of quantity xs) (sum_of quantity ys),
  );
  traded = ground (
    arith,
    trades-append o.qty xs ys,
    append_assoc (map trade_of r.events) (trades o.qty xs) (trades (o.qty - sum_of quantity xs) ys),
  );
  left_over = ground (arith, remaining-append o.qty xs ys);
}

queue-crossing :
    (o : OrderInfo) (ls : Levels) → queue ls ≡ queue (crossing o ls) ++ queue (beyond o ls)
queue-crossing o [] = refl
queue-crossing o ((p, l) ∷ ls) = ground (
  arith,
  queue-crossing o ls,
  append_assoc (entries (p, l)) (queue (crossing o ls)) (queue (beyond o ls)),
)

-- The levels that an order crosses depend on its side and its price alone.
pub record SameTerms (o o' : OrderInfo) : Type 0 where
  pub side : o'.side ≡ o.side
  pub price : o'.price ≡ o.price

pub crossing-SameTerms :
    (o o' : OrderInfo) (ls : Levels)
    → SameTerms o o'
    → (crossing o' ls ≡ crossing o ls) × (beyond o' ls ≡ beyond o ls)
unfolding crosses
crossing-SameTerms o o' [] h = (refl, refl)
crossing-SameTerms o o' ((p, l) ∷ ls) h = ground (arith, crossing-SameTerms o o' ls h)

-- What `match` returns, at the flat queue of the levels that the order crosses.
abbrev Result : OrderInfo → Levels → Run → Run × OrderInfo × Levels → Type 0
Result o ls r out =
    (left : List Entry) × Matched o (queue (crossing o ls)) r out.0 out.1 left
    × (queue out.2 ≡ left ++ queue (beyond o ls))

stop_Result :
    (o : OrderInfo) (ls : Levels) (r : Run)
    → o.qty ≡ 0
    → All HasQty (queue ls)
    → Result o ls r (r, o, ls)
stop_Result o ls r e h = (
  queue (crossing o ls),
  stop_Matched o (queue (crossing o ls)) r e (
      All-left HasQty (queue (crossing o ls)) (queue (beyond o ls))
        (rw (queue-crossing o ls) at h)),
  queue-crossing o ls,
)

after_level-Result :
    (o : OrderInfo) (p : ℕ) (l : List Node) (ls : Levels) (r : Run)
    (here : Run × OrderInfo × List Node) (next : Run × OrderInfo × Levels)
    → crosses o p ≡ true
    → All HasQty (queue ls)
    → Matched o (entries (p, l)) r here.0 here.1 (entries (p, here.2))
    → Result here.1 ls here.0 next
    → Result o ((p, l) ∷ ls) r (after_level p ls here next)
unfolding after_level
after_level-Result o p l ls r (s, o', []) (s', o'', ls') c h m (left, k, e) =
    let (ec, eb) = crossing-SameTerms o o' ls (ground arith) in
    rw c (
      left,
      Matched-trans o o' o'' (entries (p, l)) (queue (crossing o ls)) r s s' m (rw ec at k),
      rw eb at e,
    )
after_level-Result o p l ls r (s, o', n ∷ ns) next c h m k =
    let rest = queue (crossing o ls) in
    let used : o'.qty ≡ 0 = ground (arith, remaining_cases o.qty (entries (p, l))) in
    rw c (
      entries (p, n ∷ ns) ++ rest,
      Matched-trans o o' o' (entries (p, l)) rest r s s m (
          stop_Matched o' rest s used
            (All-left HasQty rest (queue (beyond o ls)) (rw (queue-crossing o ls) at h))),
      rw append_assoc (ap (◌++◌ (entries (p, n ∷ ns))) (queue-crossing o ls)),
    )

match_lem :
    (o : OrderInfo) (ls : Levels) (r : Run)
    → o.qty < 2 ^ 16
    → All HasQty (queue ls)
    → Result o ls r (match o ls r)
unfolding match
match_lem o [] r h q =
    ([], record { order = ground arith; traded = simp append-nil; left_over = refl }, refl)
match_lem o ((p, l) ∷ ls) r h q =
    let here = match_level o p l r in
    let m = match_level_lem o p l r h (All-left HasQty (entries (p, l)) (queue ls) q) in
    let q' = All-right HasQty (entries (p, l)) (queue ls) q in
    let all = after_level-Result o p l ls r here (match here.1 ls here.0) in
    elim (Bool-cases (o.qty == 0)) [
      | inl e ↦ rw e (stop_Result o ((p, l) ∷ ls) r (ground arith) q)
      | inr e ↦ elim (Bool-cases (crosses o p)) [
        | inl c ↦
            rw (e, c)
              (rw c at (all c q' m (match_lem here.1 ls here.0 (ground (arith, m.order)) q')))
        | inr c ↦
            rw (e, c)
              (
                [],
                record { order = ground arith; traded = simp append-nil; left_over = refl },
                refl,
              )
      ]
    ]

-- For an order and resting orders whose quantities fit 16 bits and are not zero: the resting orders
-- at the prices that the order crosses, taken by price and then by age, each trade what is left of
-- the order up to their own quantity, at their own price, and no other trade is reported; the order
-- keeps what they could not fill, and its other fields; of the crossed orders those with something
-- left stay, in place, and every level beyond is as before.
pub match_priority :
    (o : OrderInfo) (ls : Levels) (r : Run)
    → o.qty < 2 ^ 16
    → All HasQty (queue ls)
    → let (r', o', ls') = match o ls r in
      let hit = queue (crossing o ls) in
      (o' ≡ record o { qty = o.qty - sum_of quantity hit })
      × (map trade_of r'.events ≡ map trade_of r.events ++ trades o.qty hit)
      × (queue ls' ≡ remaining o.qty hit ++ queue (beyond o ls))
match_priority o ls r h q =
    let (left, m, e) = match_lem o ls r h q in (m.order, m.traded, rw (← m.left_over) e)
