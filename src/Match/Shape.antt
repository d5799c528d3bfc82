-- ===== src/Match/Shape.antt =====
-- `match` keeps the map of levels in order, leaves no empty level, and stops only where the order is
-- filled or does not cross.
use basicmatch.Base.{
  ℕ, ◌<◌, ◌^◌, ◌≤◌, ◌-◌, All-append, false, List, [], ◌∷◌, All, ◌≡◌, refl, arith, inl, inr, ◌⊎◌,
  Bool-cases, ◌==◌,
}
use basicmatch.Types.{Side, OrderInfo, crosses}
use basicmatch.Book.{Node, Levels}
use basicmatch.Book.Order.{HasQty, IsLevel, IsSorted}
use basicmatch.Match.{Run, match_level, match, after_level}
use basicmatch.Match.Queue.{Entry, entries, queue, remaining, quantity}
use basicmatch.Match.Queue
use basicmatch.Match.Level.{match_level_lem}
use basicmatch.Match.Priority.{SameTerms, remaining_cases}

remaining-HasQty :
    (q : ℕ) (es : List Entry) → All Queue.HasQty es → All Queue.HasQty (remaining q es)
remaining-HasQty q [] h = tt
remaining-HasQty q ((p, n) ∷ es) h = ground (arith, remaining-HasQty (q - n.order.qty) es h.1)

pub entries-HasQty : (p : ℕ) (l : List Node) → All HasQty l → All Queue.HasQty (entries (p, l))
entries-HasQty p [] h = tt
entries-HasQty p (n ∷ ns) h = (h.0, entries-HasQty p ns h.1)

HasQty-entries : (p : ℕ) (l : List Node) → All Queue.HasQty (entries (p, l)) → All HasQty l
HasQty-entries p [] h = tt
HasQty-entries p (n ∷ ns) h = (h.0, HasQty-entries p ns h.1)

pub queue-HasQty : (K : ℕ → Type 0) (ls : Levels) → All (IsLevel K) ls → All Queue.HasQty (queue ls)
queue-HasQty K [] h = tt
queue-HasQty K ((p, l) ∷ ls) h =
    All-append Queue.HasQty (entries (p, l)) (queue ls) (entries-HasQty p l h.0.2)
      (queue-HasQty K ls h.1)

-- What the inner loop leaves: an order with the same terms and no more quantity, a level with
-- quantities, and the level empty or the order filled.
record LevelDone (o : OrderInfo) (o' : OrderInfo) (l : List Node) : Type 0 where
  terms : SameTerms o o'
  qty_le : o'.qty ≤ o.qty
  kept : All HasQty l
  done : (l ≡ []) ⊎ (o'.qty ≡ 0)

match_level-LevelDone :
    (o : OrderInfo) (p : ℕ) (l : List Node) (r : Run)
    → o.qty < 2 ^ 16
    → All HasQty l
    → let out = match_level o p l r in LevelDone o out.1 out.2
match_level-LevelDone o p l r h q =
    let es = entries (p, l) in
    let q' = entries-HasQty p l q in
    let m = match_level_lem o p l r h q' in
    let out = match_level o p l r in
    let o' = out.1 in
    let l' = out.2 in
    record {
      terms = record { side = ground (arith, m.order); price = ground (arith, m.order) };
      qty_le = ground (arith, m.order);
      kept = HasQty-entries p l' (rw m.left_over (remaining-HasQty o.qty es q'));
      done = ground (arith, m.order, m.left_over, remaining_cases o.qty es, entries-nil p l');
    }
  where
    entries-nil : (p : ℕ) (l : List Node) → entries (p, l) ≡ [] → l ≡ []
    entries-nil p [] e = refl
    entries-nil p (n ∷ ns) e = cc

-- The order is filled, or it does not cross the first level left.
abbrev pub IsDone : OrderInfo → Levels → Type 0
IsDone o [] = Unit
IsDone o (l ∷ ls) = (o.qty ≡ 0) ⊎ (crosses o l.0 ≡ false)

pub record Kept (s : Side) (K : ℕ → Type 0) (o o' : OrderInfo) (ls : Levels) : Type 0 where
  pub terms : SameTerms o o'
  pub qty_le : o'.qty ≤ o.qty
  pub levels : All (IsLevel K) ls
  pub sorted : IsSorted s ls
  pub done : IsDone o' ls

module _ (s : Side) (K : ℕ → Type 0) where
  after_level-Kept :
      (o : OrderInfo) (p : ℕ) (ls : Levels) (here : Run × OrderInfo × List Node)
      (next : Run × OrderInfo × Levels)
      → K p
      → IsSorted s ((p, []) ∷ ls)
      → All (IsLevel K) ls
      → LevelDone o here.1 here.2
      → Kept s K here.1 next.1 next.2
      → let out = after_level p ls here next in Kept s K o out.1 out.2
  unfolding after_level
  after_level-Kept o p ls (r, o', []) next k h g d m = record {
    terms = record { side = ground arith; price = ground arith };
    qty_le = omega arith;
    levels = m.levels;
    sorted = m.sorted;
    done = m.done;
  }
  after_level-Kept o p ls (r, o', n ∷ ns) next k h g d m = record {
    terms = d.terms;
    qty_le = d.qty_le;
    levels = ((k, omega arith, d.kept), g);
    sorted = h;
    done = inl (ground (arith, d.done));
  }

  same_Kept :
      (o : OrderInfo) (ls : Levels)
      → All (IsLevel K) ls
      → IsSorted s ls
      → IsDone o ls
      → Kept s K o o ls
  same_Kept o ls g k d = record {
    terms = record { side = refl; price = refl };
    qty_le = omega arith;
    levels = g;
    sorted = k;
    done = d;
  }

  pub match-Kept :
      (o : OrderInfo) (ls : Levels) (r : Run)
      → o.qty < 2 ^ 16
      → All (IsLevel K) ls
      → IsSorted s ls
      → let out = match o ls r in Kept s K o out.1 out.2
  unfolding match
  match-Kept o [] r h g k = same_Kept o [] tt tt tt
  match-Kept o ((p, l) ∷ ls) r h g k =
      let here = match_level o p l r in
      let d = match_level-LevelDone o p l r h g.0.2 in
      let all =
        after_level-Kept o p ls here (match here.1 ls here.0) g.0.0 k g.1 d
          (match-Kept here.1 ls here.0 (omega (arith, d.qty_le)) g.1 k.1) in
      elim (Bool-cases (o.qty == 0)) [
        | inl e ↦ rw e (same_Kept o ((p, l) ∷ ls) g k (inl (ground arith)))
        | inr e ↦ elim (Bool-cases (crosses o p)) [
          | inl c ↦ rw (e, c) all
          | inr c ↦ rw (e, c) (same_Kept o ((p, l) ∷ ls) g k (inr c))
        ]
      ]
