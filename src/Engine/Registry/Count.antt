-- ===== src/Engine/Registry/Count.antt =====
-- How many nodes have an id and an address, and how matching keeps that number what the register says.
use basicmatch.Base.{
  ℕ, ◌+◌, ◌≡◌, ◌==◌, ◌&&◌, ◌||◌, not, List, [], ◌∷◌, Option, none, some, if◌then◌else◌, sum_of,
  IdMap, erase, arith, refl, ◌∙◌, Bool-cases, Option-cases, inl, inr, ltb,
}
use basicmatch.Types.{OrderInfo, crosses}
use basicmatch.Book.{Node, Level, Levels, Book}
use basicmatch.Match.{Run, fill, bump_txn, match_level, after_level, match}

-- 1 for a node with the id of an order and an address, else 0.
abbrev pub hit : ℕ → ℕ → Node → ℕ
hit i r n = if n.order.id == i && (n.ref == r) then 1 else 0

-- The sum of a measure of nodes over a level, the levels of a side, a book and the books.
abbrev pub weigh_level : (Node → ℕ) → Level → ℕ
weigh_level w (p, l) = sum_of w l

abbrev pub weigh_levels : (Node → ℕ) → Levels → ℕ
weigh_levels w = sum_of (weigh_level w)

abbrev pub weigh_book : (Node → ℕ) → Book → ℕ
weigh_book w b = weigh_levels w b.sells + weigh_levels w b.buys

abbrev pub weigh_books : (Node → ℕ) → List Book → ℕ
weigh_books w = sum_of (weigh_book w)

abbrev pub in_levels : ℕ → ℕ → Levels → ℕ
in_levels i r = weigh_levels (hit i r)

abbrev pub in_book : ℕ → ℕ → Book → ℕ
in_book i r = weigh_book (hit i r)

abbrev pub in_books : ℕ → ℕ → List Book → ℕ
in_books i r = weigh_books (hit i r)

-- 1 if the entry of an id is an address.
abbrev pub entry : Option ℕ → ℕ → ℕ
entry none r = 0
entry (some s) r = if s == r then 1 else 0

-- A number of nodes for each id and address is 1 where the register has the address for the id, and
-- 0 elsewhere.
abbrev pub Counts : IdMap ℕ → (ℕ → ℕ → ℕ) → Type 0
Counts orders held = (i r : ℕ) → held i r ≡ entry (orders i) r

pub erase-Counts :
    (orders : IdMap ℕ) (held : ℕ → ℕ → ℕ) (n : Node)
    → Counts orders (λ i r. hit i r n + held i r)
    → Counts (erase n.order.id orders) held
erase-Counts orders held n h i r = elim (Option-cases (orders i)) [
  | inl e ↦
      let here = h i r in let there = h i n.ref in ground (arith, e, rw e at here, rw e at there)
  | inr (s, e) ↦
      let here = h i r in let there = h i n.ref in ground (arith, e, rw e at here, rw e at there)
]

-- Erasing an id that is not registered changes nothing.
erase_missing :
    (orders : IdMap ℕ) (held : ℕ → ℕ → ℕ) (k : ℕ)
    → orders k ≡ none
    → Counts orders held
    → Counts (erase k orders) held
erase_missing orders held k e h i r = let here = h i r in ground (arith, e, here)

-- What a piece of matching keeps: the incoming order is not registered, and the nodes elsewhere
-- (`others`) together with those here are what the register says.
abbrev pub Keeps : (ℕ → ℕ → ℕ) → (ℕ → ℕ → ℕ) → OrderInfo → Run → Type 0
Keeps others here o run =
    (run.orders o.id ≡ none) × Counts run.orders (λ i r. others i r + here i r)

-- What matching leaves of the incoming order and of the register: its id and symbol, and a part of
-- the entries.
pub record Follows (o : OrderInfo) (run : Run) (o' : OrderInfo) (run' : Run) : Type 0 where
  pub same_id : o'.id ≡ o.id
  pub same_symbol : o'.symbol ≡ o.symbol
  pub fewer : (i r : ℕ) → run'.orders i ≡ some r → run.orders i ≡ some r

Follows-refl : (o : OrderInfo) (run : Run) → Follows o run o run
Follows-refl o run = record { same_id = refl; same_symbol = refl; fewer = λ i r e. e }

Follows-trans :
    (o o' o'' : OrderInfo) (run run' run'' : Run)
    → Follows o run o' run'
    → Follows o' run' o'' run''
    → Follows o run o'' run''
Follows-trans o o' o'' run run' run'' f g = record {
  same_id = g.same_id ∙ f.same_id;
  same_symbol = g.same_symbol ∙ f.same_symbol;
  fewer = λ i r e. f.fewer i r (g.fewer i r e);
}

pub erase_fewer : (k i r : ℕ) (orders : IdMap ℕ) → erase k orders i ≡ some r → orders i ≡ some r
erase_fewer k i r orders e = ground arith

match_level-Keeps :
    (p : ℕ) (l : List Node) (o : OrderInfo) (run : Run) (others : ℕ → ℕ → ℕ)
    → Keeps others (λ i r. sum_of (hit i r) l) o run
    → let m = match_level o p l run in
      Follows o run m.1 m.0 × Keeps others (λ i r. sum_of (hit i r) m.2) m.1 m.0
unfolding match_level fill bump_txn
match_level-Keeps p [] o run others h = (Follows-refl o run, h)
match_level-Keeps p (n ∷ ns) o run others h = elim (Bool-cases (o.qty == 0)) [
  | inl z ↦ rw z (Follows-refl o run, h)
  | inr z ↦ elim (Bool-cases (ltb o.qty n.order.qty)) [
    | inl k ↦
        rw (z, k)
          (
            record {
              same_id = refl;
              same_symbol = refl;
              fewer = λ i r. erase_fewer o.id i r run.orders;
            },
            (
              ground (arith, h.0),
              erase_missing run.orders (λ i r. others i r + sum_of (hit i r) (n ∷ ns)) o.id h.0 h.1,
            ),
          )
    | inr k ↦
        let c = fill n.order o p run.txn_id (bump_txn run) in
        let popped : Counts c.0.orders (λ i r. others i r + sum_of (hit i r) ns) =
          erase-Counts run.orders (λ i r. others i r + sum_of (hit i r) ns) n
            (λ i r. omega (arith, h.1 i r)) in
        let unknown : c.0.orders c.2.id ≡ none = ground (arith, h.0) in
        let step : Follows o run c.2 c.0 = record {
          same_id = refl;
          same_symbol = refl;
          fewer = λ i r. erase_fewer n.order.id i r run.orders;
        } in
        rw (z, k)
          (let (f, rest) = match_level-Keeps p ns c.2 c.0 others (unknown, popped) in
            (Follows-trans o c.2 _ run c.0 _ step f, rest))
  ]
]

-- The levels behind the first are nodes elsewhere while its loop runs.
after_level-Keeps :
    (p : ℕ) (ls : Levels) (o : OrderInfo) (run : Run) (here : Run × OrderInfo × List Node)
    (next : Run × OrderInfo × Levels) (others : ℕ → ℕ → ℕ)
    → Follows o run here.1 here.0
      × Keeps (λ i r. others i r + in_levels i r ls) (λ i r. sum_of (hit i r) here.2) here.1 here.0
    → (Keeps others (λ i r. in_levels i r ls) here.1 here.0
        → Follows here.1 here.0 next.1 next.0
          × Keeps others (λ i r. in_levels i r next.2) next.1 next.0)
    → let m = after_level p ls here next in
      Follows o run m.1 m.0 × Keeps others (λ i r. in_levels i r m.2) m.1 m.0
unfolding after_level
after_level-Keeps p ls o run (run', o', []) next others (e, (u, h)) k =
    let (e', rest) = k (u, λ i r. omega (arith, h i r)) in
    (Follows-trans o o' next.1 run run' next.0 e e', rest)
after_level-Keeps p ls o run (run', o', n ∷ ns) next others (e, (u, h)) k =
    (e, (u, λ i r. omega (arith, h i r)))

pub match-Keeps :
    (ls : Levels) (o : OrderInfo) (run : Run) (others : ℕ → ℕ → ℕ)
    → Keeps others (λ i r. in_levels i r ls) o run
    → let m = match o ls run in
      Follows o run m.1 m.0 × Keeps others (λ i r. in_levels i r m.2) m.1 m.0
unfolding match
match-Keeps [] o run others h = (Follows-refl o run, h)
match-Keeps ((p, l) ∷ ls) o run others h = elim (Bool-cases (o.qty == 0 || not (crosses o p))) [
  | inl z ↦ rw z (Follows-refl o run, h)
  | inr z ↦
      let here = match_level o p l run in
      rw z (
        after_level-Keeps p ls o run here (match here.1 ls here.0) others
          (match_level-Keeps p l o run (λ i r. others i r + in_levels i r ls)
            (h.0, λ i r. omega (arith, h.1 i r)))
          (match-Keeps ls here.1 here.0 others))
]
