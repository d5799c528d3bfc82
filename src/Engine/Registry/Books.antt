-- ===== src/Engine/Registry/Books.antt =====
-- The list of books as a map by symbol: reading and storing a book, and finding a node.
use mathlib.Core.Logic.{if_pos, if_neg}
use basicmatch.Base.{
  ℕ, ◌+◌, ◌≤◌, ◌≡◌, ◌≢◌, List, [], ◌∷◌, some, Text, arith, sym, ap, ◌∙◌, Option-cases, inl, inr,
  All, All-map, All-zip, sum_of-append, Text-discrete,
}
use basicmatch.Types.{OrderInfo, Side}
use basicmatch.Book.{
  Node, Levels, Book, new_book, own, place, add_order, push_order, side_levels, set_side,
}
use basicmatch.Engine.{get_book, store_book, deref_levels, deref}
use basicmatch.Engine.Orderly.{AreOrderly}
use basicmatch.Engine.Registry.Count.{weigh_levels, weigh_book, weigh_books}
use basicmatch.Engine.Registry.Places.{ArePlaced, FoundAt, deref_levels-FoundAt}

pub record IsHome (b : Book) : Type 0 where
  pub sells : ArePlaced b.symbol Side.sell b.sells
  pub buys : ArePlaced b.symbol Side.buy b.buys

abbrev pub IsDistinct : List Book → Type 0
IsDistinct [] = Unit
IsDistinct (b ∷ bs) = All (λ c. c.symbol ≢ b.symbol) bs × IsDistinct bs

pub new_book-IsHome : (s : Text) → IsHome (new_book s)
unfolding new_book
new_book-IsHome s = record { sells = tt; buys = tt }

module _ (P : Book → Type 0) where
  pub get_book-All : (s : Text) (bs : List Book) → P (new_book s) → All P bs → P (get_book s bs)
  unfolding get_book
  get_book-All s [] n h = n
  get_book-All s (b ∷ bs) n h = ground (arith, get_book-All s bs n h.1)

  pub store_book-All : (b : Book) (bs : List Book) → P b → All P bs → All P (store_book b bs)
  unfolding store_book
  store_book-All b [] p h = (p, tt)
  store_book-All b (c ∷ cs) p h = ground (arith, store_book-All b cs p h.1)

pub store_book-IsDistinct :
    (b : Book) (bs : List Book) → IsDistinct bs → IsDistinct (store_book b bs)
unfolding store_book
store_book-IsDistinct b [] h = (tt, tt)
store_book-IsDistinct b (c ∷ cs) h = elim (Text-discrete c.symbol b.symbol) [
  | yes e ↦ rw (if_pos _ e) (All-map (λ d n q. n (q ∙ sym e)) cs h.0, h.1)
  | no n ↦ rw (if_neg _ n) (
    store_book-All (λ d. d.symbol ≢ c.symbol) b cs (λ e. n (sym e)) h.0,
    store_book-IsDistinct b cs h.1,
  )
]

get_book_here : (s : Text) (b : Book) (bs : List Book) → b.symbol ≡ s → get_book s (b ∷ bs) ≡ b
unfolding get_book
get_book_here s b bs e = ground (arith, e)

get_book_later :
    (s : Text) (b : Book) (bs : List Book) → b.symbol ≢ s → get_book s (b ∷ bs) ≡ get_book s bs
unfolding get_book
get_book_later s b bs n = ground (arith, n)

pub store_book-count :
    (w : Node → ℕ) (b : Book) (bs : List Book)
    → weigh_books w (store_book b bs) + weigh_book w (get_book b.symbol bs)
      ≡ weigh_books w bs + weigh_book w b
unfolding store_book get_book new_book
store_book-count w b [] = omega arith
store_book-count w b (c ∷ cs) = ground (arith, store_book-count w b cs)

pub get_book-count-le :
    (w : Node → ℕ) (s : Text) (bs : List Book) → weigh_book w (get_book s bs) ≤ weigh_books w bs
unfolding get_book new_book
get_book-count-le w s [] = omega arith
get_book-count-le w s (c ∷ cs) = ground (arith, get_book-count-le w s cs)

pub set_side-count :
    (w : Node → ℕ) (s : Side) (ls : Levels) (b : Book)
    → weigh_book w (set_side s ls b) + weigh_levels w (side_levels s b)
      ≡ weigh_book w b + weigh_levels w ls
unfolding set_side side_levels
set_side-count w Side.none ls b = omega arith
set_side-count w Side.buy ls b = omega arith
set_side-count w Side.sell ls b = omega arith

pub side_levels-count-le :
    (w : Node → ℕ) (s : Side) (b : Book) → weigh_levels w (side_levels s b) ≤ weigh_book w b
unfolding side_levels
side_levels-count-le w Side.none b = omega arith
side_levels-count-le w Side.buy b = omega arith
side_levels-count-le w Side.sell b = omega arith

push_order-count :
    (w : Node → ℕ) (s : Side) (p : ℕ) (n : Node) (ls : Levels)
    → weigh_levels w (push_order s p n ls) ≡ weigh_levels w ls + w n
unfolding push_order
push_order-count w s p n [] = omega arith
push_order-count w s p n ((q, l) ∷ ls) =
    ground (arith, push_order-count w s p n ls, sum_of-append w l (n ∷ []))

pub add_order-count :
    (w : Node → ℕ) (n : Node) (b : Book) → weigh_book w (add_order n b) ≡ weigh_book w b + w n
unfolding add_order place
add_order-count w n b =
    let s = own n.order.side in
    omega (
      arith,
      set_side-count w s (push_order s n.order.price n (side_levels s b)) b,
      push_order-count w s n.order.price n (side_levels s b),
    )

-- Where an address leads to an order, the order's book, side and level have a node at the address.
abbrev pub Leads : ℕ → OrderInfo → List Book → Type 0
Leads r o bs = FoundAt r o (side_levels (own o.side) (get_book o.symbol bs))

in_sells :
    (r : ℕ) (o : OrderInfo) (b : Book)
    → own o.side ≡ Side.sell
    → FoundAt r o b.sells
    → FoundAt r o (side_levels (own o.side) b)
unfolding side_levels
in_sells r o b e f = rw e f

in_buys :
    (r : ℕ) (o : OrderInfo) (b : Book)
    → own o.side ≡ Side.buy
    → FoundAt r o b.buys
    → FoundAt r o (side_levels (own o.side) b)
unfolding side_levels
in_buys r o b e f = rw e f

AnyPrice : ℕ → Type 0
AnyPrice p = Unit

any_price : (ls : Levels) → All (λ m. AnyPrice m.0) ls
unfolding AnyPrice
any_price [] = tt
any_price (l ∷ ls) = (tt, any_price ls)

pub deref-Leads :
    (r : ℕ) (o : OrderInfo) (bs : List Book) (P : Text → Type 0)
    → All IsHome bs
    → AreOrderly bs
    → IsDistinct bs
    → All (λ b. P b.symbol) bs
    → deref r bs ≡ some o
    → Leads r o bs × P o.symbol
unfolding deref
deref-Leads r o [] P h q d k e = cc
deref-Leads r o (b ∷ bs) P h q d k e = elim (Option-cases (deref_levels r b.sells)) [
  | inr (o', m) ↦
      let same : o' ≡ o = cc (rw m at e) in
      let (f, a, c, z) =
        deref_levels-FoundAt b.symbol Side.sell r o b.sells AnyPrice h.0.sells q.0.sells_sorted
          (any_price b.sells) (m ∙ ap some same) in
      (rw (get_book_here o.symbol b bs (sym a)) (in_sells r o b c f), rw a k.0)
  | inl m ↦ elim (Option-cases (deref_levels r b.buys)) [
    | inr (o', n) ↦
        let same : o' ≡ o = cc (rw (m, n) at e) in
        let (f, a, c, z) =
          deref_levels-FoundAt b.symbol Side.buy r o b.buys AnyPrice h.0.buys q.0.buys_sorted
            (any_price b.buys) (n ∙ ap some same) in
        (rw (get_book_here o.symbol b bs (sym a)) (in_buys r o b c f), rw a k.0)
    | inl n ↦
        let (f, c) =
          deref-Leads r o bs (λ x. (x ≢ b.symbol) × P x) h.1 q.1 d.1
            (All-zip (λ c. c.symbol ≢ b.symbol) (λ c. P c.symbol) bs d.0 k.1) (rw (m, n) at e) in
        (rw (get_book_later o.symbol b bs (λ x. c.0 (sym x))) f, c.1)
  ]
]
