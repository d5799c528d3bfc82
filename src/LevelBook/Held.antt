-- ===== src/LevelBook/Held.antt =====
-- One side of a level book as a map from price to quantity, and what keeps the array and the outer
-- map together one such map.
use basicmatch.Base.{
  ℕ, ◌+◌, List, [], ◌∷◌, All, sum_of, ◌⊎◌, ◌≡◌, ◌==◌, if◌then◌else◌, arith, refl, inl, inr, All-map,
  false,
}
use basicmatch.Types.{Side}
use basicmatch.Book.Order.{Behind, ahead_trans, ahead_total, ahead_ne}
use basicmatch.LevelBook.{Level, Half, far, drop_last, last_slot, outer_update}

abbrev pub at_price : ℕ → ℕ → ℕ → ℕ
at_price p k v = if k == p then v else 0

abbrev pub slot_qty : ℕ → Level → ℕ
slot_qty p l = at_price p l.price l.qty

abbrev pub outer_qty : ℕ → ℕ × ℕ → ℕ
outer_qty p (k, v) = at_price p k v

abbrev pub slots_held : ℕ → List Level → ℕ
slots_held p = sum_of (slot_qty p)

abbrev pub outer_held : ℕ → List (ℕ × ℕ) → ℕ
outer_held p = sum_of (outer_qty p)

-- The quantity at a price: of its slot and of its outer level.
abbrev pub held : ℕ → Half → ℕ
held p h = slots_held p h.slots + outer_held p h.outer

-- A slot that holds anything is behind every slot before it.
abbrev pub IsRanked : Side → List Level → Type 0
IsRanked s [] = Unit
IsRanked s (l ∷ ls) = All (λ m. (m.qty ≡ 0) ⊎ Behind s l.price m.price) ls × IsRanked s ls

-- An outer level that holds anything is behind a price.
abbrev pub OuterBehind : Side → List (ℕ × ℕ) → ℕ → Type 0
OuterBehind s m p = All (λ e. (e.1 ≡ 0) ⊎ Behind s p e.0) m

abbrev pub IsOuter : Side → List (ℕ × ℕ) → Type 0
IsOuter s [] = Unit
IsOuter s ((k, v) ∷ m) = All (λ e. Behind s k e.0) m × IsOuter s m

-- The entry that stands for no level, at the far end of the map.
abbrev pub HasFar : Side → List (ℕ × ℕ) → Type 0
HasFar s [] = ⊥
HasFar s ((k, v) ∷ m) = ((k ≡ far s) × (v ≡ 0)) ⊎ HasFar s m

-- A slot at the far price holds nothing.
abbrev pub IsReal : Side → Level → Type 0
IsReal s l = (l.qty ≡ 0) ⊎ ((l.price == far s) ≡ false)

pub record IsSound (s : Side) (h : Half) : Type 0 where
  pub ranked : IsRanked s h.slots
  pub real : All (IsReal s) h.slots
  pub sorted : IsOuter s h.outer
  pub beyond : All (λ l. OuterBehind s h.outer l.price) h.slots
  pub closed : HasFar s h.outer

pub drop_last-held :
    (p : ℕ) (l : Level) (ls : List Level)
    → slots_held p (drop_last l ls) + slot_qty p (last_slot l ls) ≡ slots_held p (l ∷ ls)
unfolding drop_last last_slot
drop_last-held p l [] = omega arith
drop_last-held p l (m ∷ ms) = omega (arith, drop_last-held p m ms)

module _ {ℓ} (K : Level → Type ℓ) where
  pub drop_last-All : (l : Level) (ls : List Level) → All K (l ∷ ls) → All K (drop_last l ls)
  unfolding drop_last
  drop_last-All l [] h = tt
  drop_last-All l (m ∷ ms) h = (h.0, drop_last-All m ms h.1)

  pub last_slot-All : (l : Level) (ls : List Level) → All K (l ∷ ls) → K (last_slot l ls)
  unfolding last_slot
  last_slot-All l [] h = h.0
  last_slot-All l (m ∷ ms) h = last_slot-All m ms h.1

module _ (s : Side) where
  pub drop_last-IsRanked :
      (l : Level) (ls : List Level) → IsRanked s (l ∷ ls) → IsRanked s (drop_last l ls)
  unfolding drop_last
  drop_last-IsRanked l [] h = tt
  drop_last-IsRanked l (m ∷ ms) h = (drop_last-All _ m ms h.0, drop_last-IsRanked m ms h.1)

  -- The slot that drops out is behind the others, if it holds anything.
  pub last_slot-Behind :
      (l : Level) (ls : List Level)
      → IsRanked s (l ∷ ls)
      → All
          (λ m. ((last_slot l ls).qty ≡ 0) ⊎ Behind s m.price (last_slot l ls).price)
          (drop_last l ls)
  unfolding drop_last last_slot
  last_slot-Behind l [] h = tt
  last_slot-Behind l (m ∷ ms) h = (last_slot-All _ m ms h.0, last_slot-Behind m ms h.1)

  pub outer_update-keys :
      (K : ℕ → Type 0) (p : ℕ) (f : ℕ → ℕ) (m : List (ℕ × ℕ))
      → K p
      → All (λ e. K e.0) m
      → All (λ e. K e.0) (outer_update s p f m)
  unfolding outer_update
  outer_update-keys K p f [] k h = (k, tt)
  outer_update-keys K p f ((q, v) ∷ m) k h = ground (arith, outer_update-keys K p f m k)

  later :
      (p q : ℕ) (m : List (ℕ × ℕ))
      → Behind s p q
      → All (λ e. Behind s q e.0) m
      → All (λ e. Behind s p e.0) m
  later p q m b = All-map (λ e k. ahead_trans s p q e.0 b k) m

  absent : (p : ℕ) (m : List (ℕ × ℕ)) → All (λ e. Behind s p e.0) m → outer_held p m ≡ 0
  absent p [] h = refl
  absent p ((k, v) ∷ m) h = ground (arith, absent p m h.1, ahead_ne s p k)

  pub outer_update-IsOuter :
      (p : ℕ) (f : ℕ → ℕ) (m : List (ℕ × ℕ)) → IsOuter s m → IsOuter s (outer_update s p f m)
  unfolding outer_update
  outer_update-IsOuter p f [] h = (tt, tt)
  outer_update-IsOuter p f ((q, v) ∷ m) h = ground (
    arith,
    outer_update-IsOuter p f m h.1,
    outer_update-keys (Behind s q) p f m,
    ahead_total s p q,
    later p q m,
  )

  -- The entry of the price has the new value, and no other price is touched.
  pub outer_update-held :
      (p : ℕ) (f : ℕ → ℕ) (m : List (ℕ × ℕ)) (p' : ℕ)
      → IsOuter s m
      → outer_held p' (outer_update s p f m)
        ≡ (if p == p' then f (outer_held p m) else outer_held p' m)
  unfolding outer_update
  outer_update-held p f [] p' h = ground arith
  outer_update-held p f ((q, v) ∷ m) p' h =
      ground
        (arith, outer_update-held p f m p' h.1, absent p m, absent q m, ahead_ne s p q, later p q m)

  pub outer_update-HasFar :
      (p : ℕ) (f : ℕ → ℕ) (m : List (ℕ × ℕ))
      → (p == far s) ≡ false
      → HasFar s m
      → HasFar s (outer_update s p f m)
  unfolding outer_update
  outer_update-HasFar p f [] e h = absurd h
  outer_update-HasFar p f ((q, v) ∷ m) e h = ground (arith, outer_update-HasFar p f m e)

  far_key :
      (k : ℕ) (m : List (ℕ × ℕ)) → All (λ e. Behind s k e.0) m → HasFar s m → Behind s k (far s)
  far_key k [] a h = absurd h
  far_key k ((q, v) ∷ m) a (inl e) = rw (← e.0) a.0
  far_key k ((q, v) ∷ m) a (inr h) = far_key k m a.1 h

  -- The far entry is the last of a map in order.
  pub HasFar-last :
      (k v : ℕ) (m : List (ℕ × ℕ))
      → IsOuter s ((k, v) ∷ m)
      → HasFar s ((k, v) ∷ m)
      → (v ≡ 0) ⊎ (((k == far s) ≡ false) × HasFar s m)
  HasFar-last k v m o (inl e) = inl e.1
  HasFar-last k v m o (inr h) = inr (ahead_ne s k (far s) (far_key k m o.0 h), h)

  -- What is behind stays so when a value behind is written.
  pub outer_update-OuterBehind :
      (p k : ℕ) (f : ℕ → ℕ) (m : List (ℕ × ℕ))
      → IsOuter s m
      → (f (outer_held p m) ≡ 0) ⊎ Behind s k p
      → OuterBehind s m k
      → OuterBehind s (outer_update s p f m) k
  unfolding outer_update
  outer_update-OuterBehind p k f [] o b h = (b, tt)
  outer_update-OuterBehind p k f ((q, v) ∷ m) o b h = ground (
    arith,
    outer_update-OuterBehind p k f m o.1,
    absent p m,
    absent q m,
    ahead_ne s p q,
    later p q m,
  )

  pub held-OuterBehind :
      (p k : ℕ) (m : List (ℕ × ℕ)) → OuterBehind s m k → (outer_held p m ≡ 0) ⊎ Behind s k p
  held-OuterBehind p k [] h = inl refl
  held-OuterBehind p k ((q, v) ∷ m) h = ground (arith, held-OuterBehind p k m h.1)
