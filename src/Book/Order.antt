-- ===== src/Book/Order.antt =====
-- The maps of a book: keys in order, no empty level, quantities that an order may have; and how
-- adding and removing an order keep them so.
use basicmatch.Base.{
  ℕ, ◌<◌, ◌^◌, true, false, List, [], ◌∷◌, All, All-map, All-append, ◌≡◌, arith, length,
  length-append, inl, inr, ◌==◌, Bool-cases, Ensures, Ensures-map, Ensures-any, Ensures-both,
}
use basicmatch.Types.{Side}
use basicmatch.Book.{Node, Level, Levels, ahead, push_order, erase_node, keep_level, remove_order}

-- Quantities are those of accepted orders: not zero, and of 16 bits.
abbrev pub IsQty : ℕ → Type 0
IsQty q = (0 < q) × (q < 2 ^ 16)

abbrev pub HasQty : Node → Type 0
HasQty n = IsQty n.order.qty

-- A level at a price with a property, with at least one order.
abbrev pub IsLevel : (ℕ → Type 0) → Level → Type 0
IsLevel K (p, l) = K p × (0 < length l) × All HasQty l

abbrev pub Behind : Side → ℕ → ℕ → Type 0
Behind s p q = ahead s p q ≡ true

abbrev pub IsSorted : Side → Levels → Type 0
IsSorted s [] = Unit
IsSorted s ((p, l) ∷ ls) = All (λ m. Behind s p m.0) ls × IsSorted s ls

pub ahead_trans : (s : Side) (a b c : ℕ) → Behind s a b → Behind s b c → Behind s a c
unfolding ahead
ahead_trans Side.none a b c h k = ground arith
ahead_trans Side.buy a b c h k = ground arith
ahead_trans Side.sell a b c h k = ground arith

pub ahead_total : (s : Side) (a b : ℕ) → (a == b) ≡ false → ahead s a b ≡ false → Behind s b a
unfolding ahead
ahead_total Side.none a b h k = ground arith
ahead_total Side.buy a b h k = ground arith
ahead_total Side.sell a b h k = ground arith

pub ahead_ne : (s : Side) (a b : ℕ) → Behind s a b → (a == b) ≡ false
unfolding ahead
ahead_ne Side.none a b h = ground arith
ahead_ne Side.buy a b h = ground arith
ahead_ne Side.sell a b h = ground arith

-- Levels all behind a price, seen from a price ahead of it.
pub Behind-mono :
    (s : Side) (a b : ℕ) (ls : Levels)
    → Behind s a b
    → All (λ m. Behind s b m.0) ls
    → All (λ m. Behind s a m.0) ls
Behind-mono s a b ls h = All-map (λ m k. ahead_trans s a b m.0 h k) ls

erase_node-HasQty : (r : ℕ) (l : List Node) → All HasQty l → Ensures (All HasQty) (erase_node r l)
unfolding erase_node
erase_node-HasQty r [] h = tt
erase_node-HasQty r (n ∷ ns) h = elim (Bool-cases (n.ref == r)) [
  | inl a ↦ rw a h.1
  | inr a ↦ rw a (
      Ensures-map (All HasQty) (All HasQty) (◌∷◌ n) (erase_node r ns) (λ l' q. (h.0, q))
        (erase_node-HasQty r ns h.1))
]

module _ (K : ℕ → Type 0) where
  -- Adding an order at a price with the property.
  pub push_order-IsLevel :
      (s : Side) (p : ℕ) (n : Node) (ls : Levels)
      → K p
      → HasQty n
      → All (IsLevel K) ls
      → All (IsLevel K) (push_order s p n ls)
  unfolding push_order
  push_order-IsLevel s p n [] k q h = ((k, ground arith, (q, tt)), tt)
  push_order-IsLevel s p n ((r, l) ∷ ls) k q h = ground (
    arith,
    push_order-IsLevel s p n ls k q h.1,
    length-append l (n ∷ []),
    All-append HasQty l (n ∷ []),
  )

  pub push_order-keys :
      (s : Side) (p : ℕ) (n : Node) (ls : Levels)
      → K p
      → All (λ m. K m.0) ls
      → All (λ m. K m.0) (push_order s p n ls)
  unfolding push_order
  push_order-keys s p n [] k h = (k, tt)
  push_order-keys s p n ((r, l) ∷ ls) k h = ground (arith, push_order-keys s p n ls k)

  keep_level-IsLevel :
      (p : ℕ) (l : List Node) (ls : Levels)
      → K p
      → All HasQty l
      → All (IsLevel K) ls
      → All (IsLevel K) (keep_level p l ls)
  unfolding keep_level
  keep_level-IsLevel p [] ls k q h = h
  keep_level-IsLevel p (n ∷ ns) ls k q h = ((k, ground arith, q), h)

  pub remove_order-IsLevel :
      (p ref : ℕ) (ls : Levels)
      → All (IsLevel K) ls
      → Ensures (All (IsLevel K)) (remove_order p ref ls)
  unfolding remove_order
  remove_order-IsLevel p ref [] h = tt
  remove_order-IsLevel p ref ((r, l) ∷ ls) h = elim (Bool-cases (p == r)) [
    | inl a ↦ rw a (
        Ensures-map (All HasQty) (All (IsLevel K)) (λ l'. keep_level r l' ls) (erase_node ref l)
          (λ l' q. keep_level-IsLevel r l' ls h.0.0 q h.1) (erase_node-HasQty ref l h.0.2))
    | inr a ↦ rw a (
        Ensures-map (All (IsLevel K)) (All (IsLevel K)) (◌∷◌ (r, l)) (remove_order p ref ls)
          (λ ls' q. (h.0, q)) (remove_order-IsLevel p ref ls h.1))
  ]

  keep_level-keys :
      (p : ℕ) (l : List Node) (ls : Levels)
      → K p
      → All (λ m. K m.0) ls
      → All (λ m. K m.0) (keep_level p l ls)
  unfolding keep_level
  keep_level-keys p [] ls k h = h
  keep_level-keys p (n ∷ ns) ls k h = (k, h)

  pub remove_order-keys :
      (p ref : ℕ) (ls : Levels)
      → All (λ m. K m.0) ls
      → Ensures (All (λ m. K m.0)) (remove_order p ref ls)
  unfolding remove_order
  remove_order-keys p ref [] h = tt
  remove_order-keys p ref ((r, l) ∷ ls) h = elim (Bool-cases (p == r)) [
    | inl a ↦ rw a (
        Ensures-map (λ _. Unit) (All (λ m. K m.0)) (λ l'. keep_level r l' ls) (erase_node ref l)
          (λ l' q. keep_level-keys r l' ls h.0 h.1) (Ensures-any (erase_node ref l)))
    | inr a ↦ rw a (
        Ensures-map (All (λ m. K m.0)) (All (λ m. K m.0)) (◌∷◌ (r, l)) (remove_order p ref ls)
          (λ ls' q. (h.0, q)) (remove_order-keys p ref ls h.1))
  ]

keep_level-IsSorted :
    (s : Side) (p : ℕ) (l : List Node) (ls : Levels)
    → IsSorted s ((p, l) ∷ ls)
    → IsSorted s (keep_level p l ls)
unfolding keep_level
keep_level-IsSorted s p [] ls h = h.1
keep_level-IsSorted s p (n ∷ ns) ls h = h

pub remove_order-IsSorted :
    (s : Side) (p ref : ℕ) (ls : Levels)
    → IsSorted s ls
    → Ensures (IsSorted s) (remove_order p ref ls)
unfolding remove_order
remove_order-IsSorted s p ref [] h = tt
remove_order-IsSorted s p ref ((r, l) ∷ ls) h = elim (Bool-cases (p == r)) [
  | inl a ↦ rw a (
      Ensures-map (λ _. Unit) (IsSorted s) (λ l'. keep_level r l' ls) (erase_node ref l)
        (λ l' q. keep_level-IsSorted s r l' ls h) (Ensures-any (erase_node ref l)))
  | inr a ↦ rw a (
      Ensures-map (λ ls'. All (λ m. Behind s r m.0) ls' × IsSorted s ls') (IsSorted s) (◌∷◌ (r, l))
        (remove_order p ref ls) (λ ls' q. q)
        (Ensures-both _ _ (remove_order p ref ls) (remove_order-keys (Behind s r) p ref ls h.0)
          (remove_order-IsSorted s p ref ls h.1)))
]

pub push_order-IsSorted :
    (s : Side) (p : ℕ) (n : Node) (ls : Levels) → IsSorted s ls → IsSorted s (push_order s p n ls)
unfolding push_order
push_order-IsSorted s p n [] h = (tt, tt)
push_order-IsSorted s p n ((r, l) ∷ ls) h = ground (
  arith,
  push_order-IsSorted s p n ls h.1,
  Behind-mono s p r ls,
  ahead_total s p r,
  push_order-keys (Behind s r) s p n ls,
)
