-- ===== src/Match/Level.antt =====
-- The inner loop of `match`: one level is a queue that the order works off.
use basicmatch.Base.{
  ℕ, ◌-◌, ◌<◌, ◌≤◌, ◌^◌, List, [], ◌∷◌, ◌++◌, map, All, sum_of, ◌≡◌, refl, arith, map-append,
  append_assoc, append-nil,
}
use native.Mathlib.Decide.{dec_lt}
use native.Mathlib.Nat.{zero-sub}
use basicmatch.Types.{OrderInfo}
use basicmatch.Book.{Node}
use basicmatch.Match.{fill, Run, bump_txn, match_level}
use basicmatch.Match.Queue.{Entry, entries, quantity, trades, remaining, HasQty, trade_of}

pub trades-zero : (es : List Entry) → trades 0 es ≡ []
trades-zero [] = refl
trades-zero ((p, n) ∷ es) = ground (arith, trades-zero es)

pub remaining-zero : (es : List Entry) → All HasQty es → remaining 0 es ≡ es
remaining-zero [] h = refl
remaining-zero ((p, n) ∷ es) h = ground (arith, remaining-zero es h.1)

-- `fill` leaves the large order the difference, and records one trade.
pub fill_large :
    (small large : OrderInfo) (p t : ℕ) (r : Run)
    → small.qty ≤ large.qty
    → large.qty < 2 ^ 16
    → (fill small large p t r).2 ≡ record large { qty = large.qty - small.qty }
unfolding fill
fill_large small large p t r h k = ground arith

pub fill_small :
    (small large : OrderInfo) (p t : ℕ) (r : Run)
    → (fill small large p t r).1 ≡ record small { qty = 0 }
unfolding fill
fill_small small large p t r = refl

pub fill_traded :
    (small large : OrderInfo) (p t : ℕ) (r : Run)
    → map trade_of (fill small large p t (bump_txn r)).0.events
      ≡ map trade_of r.events ++ (p, small.qty) ∷ []
unfolding fill bump_txn
fill_traded small large p t r = map-append trade_of r.events _

pub record Matched (o : OrderInfo) (es : List Entry) (r : Run) (out : Run) (o' : OrderInfo)
    (left : List Entry) : Type 0 where
  pub order : o' ≡ record o { qty = o.qty - sum_of quantity es }
  pub traded : map trade_of out.events ≡ map trade_of r.events ++ trades o.qty es
  pub left_over : left ≡ remaining o.qty es

match_level-nil :
    (o : OrderInfo) (p : ℕ) (n : Node) (ns : List Node) (r : Run)
    → o.qty ≡ 0
    → match_level o p (n ∷ ns) r ≡ (r, o, n ∷ ns)
unfolding match_level
match_level-nil o p n ns r e = ground arith

match_level-partial :
    (o : OrderInfo) (p : ℕ) (n : Node) (ns : List Node) (r : Run)
    → 0 < o.qty
    → o.qty < n.order.qty
    → let c = fill o n.order p r.txn_id (bump_txn r) in
      match_level o p (n ∷ ns) r ≡ (c.0, c.1, record n { order = c.2 } ∷ ns)
unfolding match_level
match_level-partial o p n ns r e f = ground arith

match_level_complete :
    (o : OrderInfo) (p : ℕ) (n : Node) (ns : List Node) (r : Run)
    → 0 < o.qty
    → n.order.qty ≤ o.qty
    → let c = fill n.order o p r.txn_id (bump_txn r) in
      match_level o p (n ∷ ns) r ≡ match_level c.2 p ns c.0
unfolding match_level
match_level_complete o p n ns r e f = ground arith

module _ (o : OrderInfo) (es : List Entry) (r : Run) where
  pub stop_Matched : o.qty ≡ 0 → All HasQty es → Matched o es r r o es
  stop_Matched e h = record {
    order = ground (arith, zero-sub (sum_of quantity es));
    traded = rw (e, trades-zero es, append-nil);
    left_over = rw (e, remaining-zero es h);
  }

  module _ (p : ℕ) (n : Node) where
    partial_Matched :
        0 < o.qty
        → o.qty < n.order.qty
        → n.order.qty < 2 ^ 16
        → All HasQty es
        → let c = fill o n.order p r.txn_id (bump_txn r) in
          Matched o ((p, n) ∷ es) r c.0 c.1 ((p, record n { order = c.2 }) ∷ es)
    partial_Matched z s k h = record {
      order = ground (arith, fill_small o n.order p r.txn_id (bump_txn r));
      traded = ground (arith, fill_traded o n.order p r.txn_id r, trades-zero es);
      left_over = ground (arith, fill_large o n.order p r.txn_id (bump_txn r), remaining-zero es h);
    }

    complete_Matched :
        {out : Run} {o' : OrderInfo} {left : List Entry}
        → 0 < n.order.qty
        → n.order.qty ≤ o.qty
        → o.qty < 2 ^ 16
        → let c = fill n.order o p r.txn_id (bump_txn r) in
          Matched c.2 es c.0 out o' left → Matched o ((p, n) ∷ es) r out o' left
    complete_Matched {o' = o'} {left} z s k m = record {
      order = ground (arith, fill_large n.order o p r.txn_id (bump_txn r));
      traded = ground (
        arith,
        fill_large n.order o p r.txn_id (bump_txn r),
        fill_traded n.order o p r.txn_id r,
        append_assoc (map trade_of r.events) ((p, n.order.qty) ∷ [])
            (trades (o.qty - n.order.qty) es),
      );
      left_over = ground (arith, fill_large n.order o p r.txn_id (bump_txn r));
    }

pub match_level_lem :
    (o : OrderInfo) (p : ℕ) (l : List Node) (r : Run)
    → o.qty < 2 ^ 16
    → All HasQty (entries (p, l))
    → let out = match_level o p l r in Matched o (entries (p, l)) r out.0 out.1 (entries (p, out.2))
match_level_lem o p [] r h q =
    unfold match_level in
    record { order = ground arith; traded = simp append-nil; left_over = refl }
match_level_lem o p (n ∷ ns) r h q = elim (dec_lt 0 o.qty) [
  | no z ↦
      rw (match_level-nil o p n ns r (omega arith))
        (stop_Matched o (entries (p, n ∷ ns)) r (omega arith) q)
  | yes z ↦ elim (dec_lt o.qty n.order.qty) [
    | yes s ↦
        rw (match_level-partial o p n ns r z s)
          (partial_Matched o (entries (p, ns)) r p n z s q.0.1 q.1)
    | no s ↦
        let c = fill n.order o p r.txn_id (bump_txn r) in
        rw (match_level_complete o p n ns r z (omega arith)) (
          complete_Matched o (entries (p, ns)) r p n q.0.0 (omega arith) h (
            match_level_lem c.2 p ns c.0
              (ground (arith, fill_large n.order o p r.txn_id (bump_txn r))) q.1))
  ]
]
