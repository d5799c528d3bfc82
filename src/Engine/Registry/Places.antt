-- ===== src/Engine/Registry/Places.antt =====
-- Each node stands in the level, on the side and in the book that its order names; so the address of
-- a node leads to it.
use basicmatch.Base.{
  ℕ, ◌+◌, ◌≡◌, ◌==◌, ◌||◌, not, true, false, List, [], ◌∷◌, none, some, Text, sum_of, arith, refl,
  ap, ◌∙◌, Bool-cases, Option-cases, inl, inr, ltb, All, All-append, All-zip, Ensures, Ensures-map,
}
use basicmatch.Types.{OrderInfo, Side, crosses}
use basicmatch.Book.{Node, Levels, Book, own, erase_node, keep_level, remove_order, push_order}
use basicmatch.Book.Order.{Behind, IsSorted, ahead_ne}
use basicmatch.Match.{Run, fill, bump_txn, match_level, after_level, match}
use basicmatch.Engine.{deref_nodes, deref_levels, deref}
use basicmatch.Engine.Registry.Count.{hit, in_levels, in_books, weigh_levels}

abbrev pub IsPlaced : Text → Side → ℕ → Node → Type 0
IsPlaced symbol s p n = (n.order.symbol ≡ symbol) × (own n.order.side ≡ s) × (n.order.price ≡ p)

abbrev pub ArePlaced : Text → Side → Levels → Type 0
ArePlaced symbol s = All (λ m. All (IsPlaced symbol s m.0) m.1)

module _ (symbol : Text) (s : Side) where
  match_level-ArePlaced :
      (p : ℕ) (l : List Node) (o : OrderInfo) (run : Run)
      → All (IsPlaced symbol s p) l
      → All (IsPlaced symbol s p) (match_level o p l run).2
  unfolding match_level fill
  match_level-ArePlaced p [] o run h = tt
  match_level-ArePlaced p (n ∷ ns) o run h = elim (Bool-cases (o.qty == 0)) [
    | inl z ↦ rw z h
    | inr z ↦ elim (Bool-cases (ltb o.qty n.order.qty)) [
      | inl k ↦ rw (z, k) ((h.0.0, h.0.1, h.0.2), h.1)
      | inr k ↦
          let c = fill n.order o p run.txn_id (bump_txn run) in
          rw (z, k) (match_level-ArePlaced p ns c.2 c.0 h.1)
    ]
  ]

  after_level-ArePlaced :
      (p : ℕ) (ls : Levels) (here : Run × OrderInfo × List Node) (next : Run × OrderInfo × Levels)
      → All (IsPlaced symbol s p) here.2
      → ArePlaced symbol s ls
      → ArePlaced symbol s next.2
      → ArePlaced symbol s (after_level p ls here next).2
  unfolding after_level
  after_level-ArePlaced p ls (run, o, []) next h k m = m
  after_level-ArePlaced p ls (run, o, n ∷ ns) next h k m = (h, k)

  pub match-ArePlaced :
      (ls : Levels) (o : OrderInfo) (run : Run)
      → ArePlaced symbol s ls
      → ArePlaced symbol s (match o ls run).2
  unfolding match
  match-ArePlaced [] o run h = tt
  match-ArePlaced ((p, l) ∷ ls) o run h = elim (Bool-cases (o.qty == 0 || not (crosses o p))) [
    | inl z ↦ rw z h
    | inr z ↦
        let here = match_level o p l run in
        rw z (
          after_level-ArePlaced p ls here (match here.1 ls here.0)
            (match_level-ArePlaced p l o run h.0) h.1 (match-ArePlaced ls here.1 here.0 h.1))
  ]

  pub push_order-ArePlaced :
      (t : Side) (p : ℕ) (n : Node) (ls : Levels)
      → IsPlaced symbol s p n
      → ArePlaced symbol s ls
      → ArePlaced symbol s (push_order t p n ls)
  unfolding push_order
  push_order-ArePlaced t p n [] h k = ((h, tt), tt)
  push_order-ArePlaced t p n ((q, l) ∷ ls) h k =
      ground (arith, All-append (IsPlaced symbol s p) l (n ∷ []), push_order-ArePlaced t p n ls h)

  keep_level-ArePlaced :
      (p : ℕ) (l : List Node) (ls : Levels)
      → All (IsPlaced symbol s p) l
      → ArePlaced symbol s ls
      → ArePlaced symbol s (keep_level p l ls)
  unfolding keep_level
  keep_level-ArePlaced p [] ls h k = k
  keep_level-ArePlaced p (n ∷ ns) ls h k = (h, k)

erase_node-All {κ} :
    (P : Node → Type κ) (r : ℕ) (l : List Node) → All P l → Ensures (All P) (erase_node r l)
unfolding erase_node
erase_node-All P r [] h = tt
erase_node-All P r (n ∷ ns) h = elim (Bool-cases (n.ref == r)) [
  | inl z ↦ rw z h.1
  | inr z ↦ rw z (
      Ensures-map (All P) (All P) (◌∷◌ n) (erase_node r ns) (λ l k. (h.0, k))
        (erase_node-All P r ns h.1))
]

pub remove_order-ArePlaced :
    (symbol : Text) (s : Side) (p r : ℕ) (ls : Levels)
    → ArePlaced symbol s ls
    → Ensures (ArePlaced symbol s) (remove_order p r ls)
unfolding remove_order
remove_order-ArePlaced symbol s p r [] h = tt
remove_order-ArePlaced symbol s p r ((q, l) ∷ ls) h = elim (Bool-cases (p == q)) [
  | inl z ↦ rw z (
      Ensures-map (All (IsPlaced symbol s q)) (ArePlaced symbol s) (λ l'. keep_level q l' ls)
        (erase_node r l) (λ l' k. keep_level-ArePlaced symbol s q l' ls k h.1)
        (erase_node-All (IsPlaced symbol s q) r l h.0))
  | inr z ↦ rw z (
      Ensures-map (ArePlaced symbol s) (ArePlaced symbol s) (◌∷◌ (q, l)) (remove_order p r ls)
        (λ ls' k. (h.0, k)) (remove_order-ArePlaced symbol s p r ls h.1))
]

-- The node at an address in a level, with what is left of the level without it.
pub record FoundIn (r : ℕ) (o : OrderInfo) (l : List Node) : Type 0 where
  pub node : Node
  pub rest : List Node
  pub at_ref : node.ref ≡ r
  pub has_order : node.order ≡ o
  pub erased : erase_node r l ≡ some rest
  pub weighed : (w : Node → ℕ) → sum_of w l ≡ w node + sum_of w rest

deref_nodes-FoundIn :
    (r : ℕ) (o : OrderInfo) (l : List Node) → deref_nodes r l ≡ some o → FoundIn r o l
unfolding deref_nodes erase_node
deref_nodes-FoundIn r o [] e = cc
deref_nodes-FoundIn r o (n ∷ ns) e = elim (Bool-cases (n.ref == r)) [
  | inl z ↦ record {
    node = n;
    rest = ns;
    at_ref = ground (arith, z);
    has_order = cc (rw z at e);
    erased = rw z refl;
    weighed = λ w. refl;
  }
  | inr z ↦
      let f = deref_nodes-FoundIn r o ns (rw z at e) in
      record {
        node = f.node;
        rest = n ∷ f.rest;
        at_ref = f.at_ref;
        has_order = f.has_order;
        erased = rw (z, f.erased) refl;
        weighed = λ w. omega (arith, f.weighed w);
      }
]

-- The same in the levels of a side; the order names the level.
pub record FoundAt (r : ℕ) (o : OrderInfo) (ls : Levels) : Type 0 where
  pub node : Node
  pub rest : Levels
  pub at_ref : node.ref ≡ r
  pub has_order : node.order ≡ o
  pub removed : remove_order o.price r ls ≡ some rest
  pub weighed : (w : Node → ℕ) → weigh_levels w ls ≡ w node + weigh_levels w rest

keep_level-count :
    (w : Node → ℕ) (p : ℕ) (l : List Node) (ls : Levels)
    → weigh_levels w (keep_level p l ls) ≡ sum_of w l + weigh_levels w ls
unfolding keep_level
keep_level-count w p [] ls = omega arith
keep_level-count w p (n ∷ ns) ls = refl

module _ (symbol : Text) (s : Side) where
  placed_order :
      (r p : ℕ) (o : OrderInfo) (l : List Node)
      → All (IsPlaced symbol s p) l
      → deref_nodes r l ≡ some o
      → (o.symbol ≡ symbol) × (own o.side ≡ s) × (o.price ≡ p)
  unfolding deref_nodes
  placed_order r p o [] h e = cc
  placed_order r p o (n ∷ ns) h e = elim (Bool-cases (n.ref == r)) [
    | inl z ↦ let same : n.order ≡ o = cc (rw z at e) in rw (← same) h.0
    | inr z ↦ placed_order r p o ns h.1 (rw z at e)
  ]

  pub deref_levels-FoundAt :
      (r : ℕ) (o : OrderInfo) (ls : Levels) (K : ℕ → Type 0)
      → ArePlaced symbol s ls
      → IsSorted s ls
      → All (λ m. K m.0) ls
      → deref_levels r ls ≡ some o
      → FoundAt r o ls × (o.symbol ≡ symbol) × (own o.side ≡ s) × K o.price
  unfolding deref_levels remove_order
  deref_levels-FoundAt r o [] K h q k e = cc
  deref_levels-FoundAt r o ((p, l) ∷ ls) K h q k e = elim (Option-cases (deref_nodes r l)) [
    | inl n ↦
        let (f, a, b, c) =
          deref_levels-FoundAt r o ls (λ x. Behind s p x × K x) h.1 q.1
            (All-zip (λ m. Behind s p m.0) (λ m. K m.0) ls q.0 k.1) (rw n at e) in
        let other : (o.price == p) ≡ false = ground (arith, ahead_ne s p o.price c.0) in
        (
          record {
            node = f.node;
            rest = (p, l) ∷ f.rest;
            at_ref = f.at_ref;
            has_order = f.has_order;
            removed = rw (other, f.removed) refl;
            weighed = λ w. omega (arith, f.weighed w);
          },
          a,
          b,
          c.1,
        )
    | inr (o', n) ↦
        let same : o' ≡ o = cc (rw n at e) in
        let found : deref_nodes r l ≡ some o = n ∙ ap some same in
        let f = deref_nodes-FoundIn r o l found in
        let (a, b, c) = placed_order r p o l h.0 found in
        let here : (o.price == p) ≡ true = ground (arith, c) in
        (
          record {
            node = f.node;
            rest = keep_level p f.rest ls;
            at_ref = f.at_ref;
            has_order = f.has_order;
            removed = rw (here, f.erased) refl;
            weighed = λ w. omega (arith, f.weighed w, keep_level-count w p f.rest ls);
          },
          a,
          b,
          rw c k.0,
        )
  ]

-- A node with an address is found.
deref_nodes-none : (i r : ℕ) (l : List Node) → deref_nodes r l ≡ none → sum_of (hit i r) l ≡ 0
unfolding deref_nodes
deref_nodes-none i r [] e = refl
deref_nodes-none i r (n ∷ ns) e = ground (arith, deref_nodes-none i r ns)

deref_levels-none : (i r : ℕ) (ls : Levels) → deref_levels r ls ≡ none → in_levels i r ls ≡ 0
unfolding deref_levels
deref_levels-none i r [] e = refl
deref_levels-none i r ((p, l) ∷ ls) e = elim (Option-cases (deref_nodes r l)) [
  | inl n ↦ omega (arith, deref_nodes-none i r l n, deref_levels-none i r ls (rw n at e))
  | inr (o, n) ↦ let bad : some o ≡ none = rw n at e in cc
]

pub deref-none : (i r : ℕ) (bs : List Book) → deref r bs ≡ none → in_books i r bs ≡ 0
unfolding deref
deref-none i r [] e = refl
deref-none i r (b ∷ bs) e = elim (Option-cases (deref_levels r b.sells)) [
  | inl m ↦ elim (Option-cases (deref_levels r b.buys)) [
    | inl n ↦ omega (
      arith,
      deref_levels-none i r b.sells m,
      deref_levels-none i r b.buys n,
      deref-none i r bs (rw (m, n) at e),
    )
    | inr (o, n) ↦ let bad : some o ≡ none = rw (m, n) at e in cc
  ]
  | inr (o, m) ↦ let bad : some o ≡ none = rw m at e in cc
]
