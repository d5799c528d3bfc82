-- ===== src/LevelBook/Removing.antt =====
-- Removing a quantity at a price from one side of a level book.
use mathlib.Core.Option
use basicmatch.Base.{
  ℕ, ◌+◌, ◌<◌, ◌≤◌, ◌^◌, List, [], ◌∷◌, ◌++◌, All, ◌⊎◌, ◌≡◌, ◌==◌, arith, refl, inl, inr, All-map,
  Bool-cases, false, Option, none, some, Option-cases, All-append, sum_of-append,
}
use basicmatch.Types.{Side}
use basicmatch.Book.Order.{Behind, ahead_ne}
use basicmatch.LevelBook.{
  far, Level, Half, outer_update, cut_slots, Cut, lowered, erased, behind_cut, remove_half,
  after_cut, promote, sub32, Told, told_all,
}
use basicmatch.LevelBook.Held.{
  at_price, slot_qty, slots_held, outer_held, held, IsRanked, OuterBehind, IsOuter, IsSound,
  outer_update-IsOuter, outer_update-held, outer_update-HasFar, HasFar-last, HasFar, IsReal,
  outer_update-OuterBehind, held-OuterBehind,
}

module _ (s : Side) (p q : ℕ) where
  -- A property of the slots that lowering a quantity keeps.
  abbrev Lowers : (Level → Type 0) → Type 0
  Lowers P = (l : Level) (v : ℕ) → v ≤ l.qty → P l → P (record l { qty = v })

  abbrev Kept : (Level → Type 0) → Option Cut → Type 0
  Kept P none = Unit
  Kept P (some (lowered ls)) = All P ls
  Kept P (some (erased ls)) = All P ls

  Kept-behind :
      (P : Level → Type 0) (l : Level) (o : Option Cut)
      → P l
      → Kept P o
      → Kept P (Option.map (behind_cut l) o)
  Kept-behind P l none h k = tt
  Kept-behind P l (some (lowered ls)) h k = (h, k)
  Kept-behind P l (some (erased ls)) h k = (h, k)

  -- Slots of one price hold nothing but in the first of them.
  ranked_held :
      (l : Level) (ls : List Level)
      → l.price ≡ p
      → All (λ m. (m.qty ≡ 0) ⊎ Behind s l.price m.price) ls
      → slots_held p ls ≡ 0
  ranked_held l [] e h = refl
  ranked_held l (m ∷ ms) e h = ground (arith, ranked_held l ms e h.1, ahead_ne s l.price m.price)

  cut_slots-Kept :
      (P : Level → Type 0) (ls : List Level)
      → Lowers P
      → IsRanked s ls
      → q ≤ slots_held p ls
      → slots_held p ls < 2 ^ 32
      → All P ls
      → Kept P (cut_slots p q ls)
  unfolding cut_slots
  cut_slots-Kept P [] low r k b h = tt
  cut_slots-Kept P (l ∷ ls) low r k b h = elim (Bool-cases (l.price == p)) [
    | inl e ↦ rw e (elim (Bool-cases (sub32 l.qty q == 0)) [
      | inl z ↦ rw z h.1
      | inr z ↦ rw z (low l (sub32 l.qty q) (ground (arith, ranked_held l ls)) h.0, h.1)
    ])
    | inr e ↦ rw e (
        Kept-behind P l (cut_slots p q ls) h.0
          (cut_slots-Kept P ls low r.1 (ground arith) (ground arith) h.1))
  ]

  abbrev HeldAfter : ℕ → ℕ → Option Cut → Type 0
  HeldAfter p' total none = Unit
  HeldAfter p' total (some (lowered ls)) = slots_held p' ls + at_price p' p q ≡ total
  HeldAfter p' total (some (erased ls)) = slots_held p' ls + at_price p' p q ≡ total

  HeldAfter-behind :
      (p' total : ℕ) (l : Level) (o : Option Cut)
      → HeldAfter p' total o
      → HeldAfter p' (slot_qty p' l + total) (Option.map (behind_cut l) o)
  HeldAfter-behind p' total l none h = tt
  HeldAfter-behind p' total l (some (lowered ls)) h = omega arith
  HeldAfter-behind p' total l (some (erased ls)) h = omega arith

  cut_slots-held :
      (p' : ℕ) (ls : List Level)
      → IsRanked s ls
      → q ≤ slots_held p ls
      → slots_held p ls < 2 ^ 32
      → HeldAfter p' (slots_held p' ls) (cut_slots p q ls)
  unfolding cut_slots sub32
  cut_slots-held p' [] r k b = tt
  cut_slots-held p' (l ∷ ls) r k b = elim (Bool-cases (l.price == p)) [
    | inl e ↦ ground (arith, ranked_held l ls)
    | inr e ↦ rw e (
        HeldAfter-behind p' _ l (cut_slots p q ls)
          (cut_slots-held p' ls r.1 (ground arith) (ground arith)))
  ]

  abbrev Ranked : Option Cut → Type 0
  Ranked none = Unit
  Ranked (some (lowered ls)) = IsRanked s ls
  Ranked (some (erased ls)) = IsRanked s ls

  Ranked-Behind :
      (l : Level) (o : Option Cut)
      → Kept (λ m. (m.qty ≡ 0) ⊎ Behind s l.price m.price) o
      → Ranked o
      → Ranked (Option.map (behind_cut l) o)
  Ranked-Behind l none h k = tt
  Ranked-Behind l (some (lowered ls)) h k = (h, k)
  Ranked-Behind l (some (erased ls)) h k = (h, k)

  cut_slots-Ranked :
      (ls : List Level)
      → IsRanked s ls
      → q ≤ slots_held p ls
      → slots_held p ls < 2 ^ 32
      → Ranked (cut_slots p q ls)
  unfolding cut_slots
  cut_slots-Ranked [] r k b = tt
  cut_slots-Ranked (l ∷ ls) r k b = elim (Bool-cases (l.price == p)) [
    | inl e ↦ ground arith
    | inr e ↦ rw e (
        Ranked-Behind l (cut_slots p q ls)
          (cut_slots-Kept _ ls (λ m v le w. ground arith) r.1 (ground arith) (ground arith) r.0)
          (cut_slots-Ranked ls r.1 (ground arith) (ground arith)))
  ]

  -- Where no slot has the price, the slots hold nothing at it; where one has, the outer map does not.
  abbrev Missing : List (ℕ × ℕ) → List Level → Option Cut → Type 0
  Missing m ls none = slots_held p ls ≡ 0
  Missing m ls (some c) = outer_held p m ≡ 0

  Missing-behind :
      (m : List (ℕ × ℕ)) (l : Level) (ls : List Level) (o : Option Cut)
      → (l.price == p) ≡ false
      → Missing m ls o
      → Missing m (l ∷ ls) (Option.map (behind_cut l) o)
  Missing-behind m l ls none e h = ground arith
  Missing-behind m l ls (some c) e h = h

  cut_slots-Missing :
      (m : List (ℕ × ℕ)) (ls : List Level)
      → All (λ l. OuterBehind s m l.price) ls
      → Missing m ls (cut_slots p q ls)
  unfolding cut_slots
  cut_slots-Missing m [] h = refl
  cut_slots-Missing m (l ∷ ls) h = elim (Bool-cases (l.price == p)) [
    | inl e ↦
        rw e (ground (arith, held-OuterBehind s l.price l.price m h.0, ahead_ne s l.price l.price))
    | inr e ↦ rw e (Missing-behind m l ls (cut_slots p q ls) e (cut_slots-Missing m ls h.1))
  ]

-- The state after a removal is sound, and holds the quantity less at its price alone.
abbrev pub IsRemoved : Side → ℕ → ℕ → Half → Half → Type 0
IsRemoved s p q h h' = IsSound s h' × ((p' : ℕ) → held p' h' + at_price p' p q ≡ held p' h)

IsRanked-snoc :
    (s : Side) (ls : List Level) (x : Level)
    → IsRanked s ls
    → All (λ l. (x.qty ≡ 0) ⊎ Behind s l.price x.price) ls
    → IsRanked s (ls ++ x ∷ [])
IsRanked-snoc s [] x r b = (tt, tt)
IsRanked-snoc s (l ∷ ls) x r b =
    (All-append _ ls (x ∷ []) r.0 (b.0, tt), IsRanked-snoc s ls x r.1 b.1)

module _ (s : Side) (p q : ℕ) (h : Half) (sound : IsSound s h) (near : (p == far s) ≡ false)
    (fits : held p h < 2 ^ 32) (enough : q ≤ held p h) where
  outer-IsRemoved :
      slots_held p h.slots ≡ 0
      → IsRemoved s p q h (record h { outer = outer_update s p (λ v. sub32 v q) h.outer })
  unfolding sub32
  outer-IsRemoved z = (
    record {
      ranked = sound.ranked;
      real = sound.real;
      sorted = outer_update-IsOuter s p (λ v. sub32 v q) h.outer sound.sorted;
      beyond =
          All-map
            (λ l k.
              outer_update-OuterBehind s p l.price (λ v. sub32 v q) h.outer sound.sorted
                (ground (arith, held-OuterBehind s p l.price h.outer k)) k)
            h.slots sound.beyond;
      closed = outer_update-HasFar s p (λ v. sub32 v q) h.outer near sound.closed;
    },
    λ p'. ground (arith, outer_update-held s p (λ v. sub32 v q) h.outer p' sound.sorted),
  )

  level-IsRemoved :
      (ls : List Level)
      → IsRanked s ls
      → All (IsReal s) ls
      → All (λ l. OuterBehind s h.outer l.price) ls
      → ((p' : ℕ) → slots_held p' ls + at_price p' p q ≡ slots_held p' h.slots)
      → IsRemoved s p q h (record h { slots = ls })
  level-IsRemoved ls r g b e = (
    record { ranked = r; real = g; sorted = sound.sorted; beyond = b; closed = sound.closed },
    λ p'. omega (arith, e p'),
  )

  promote-IsRemoved :
      (ls : List Level) (m : List (ℕ × ℕ))
      → IsOuter s m
      → HasFar s m
      → IsRanked s ls
      → All (IsReal s) ls
      → All (λ l. OuterBehind s m l.price) ls
      → ((p' : ℕ) → slots_held p' ls + at_price p' p q ≡ slots_held p' h.slots)
      → (h' : Half) × (promote ls m ≡ some h')
        × IsSound s h'
        × ((p' : ℕ) → held p' h' + at_price p' p q ≡ slots_held p' h.slots + outer_held p' m)
  unfolding promote
  promote-IsRemoved ls [] sorted closed r g b e = absurd closed
  promote-IsRemoved ls ((k, v) ∷ m) sorted closed r g b e =
      let last : Level = record { qty = v; price = k } in
      let end = HasFar-last s k v m sorted closed in
      let ranked = IsRanked-snoc s ls last r (All-map (λ l w. w.0) ls b) in
      let real = All-append (IsReal s) ls (last ∷ []) g (ground arith, tt) in
      let back : OuterBehind s m k = All-map (λ w u. inr u) m sorted.0 in
      elim (Bool-cases (v == 0)) [
        | inl z ↦ (
          record { slots = ls ++ last ∷ []; outer = (k, v) ∷ m },
          rw z refl,
          record {
            ranked = ranked;
            real = real;
            sorted = sorted;
            beyond = All-append _ ls (last ∷ []) b ((inl (ground arith), back), tt);
            closed = closed;
          },
          λ p'. ground (arith, e p', sum_of-append (slot_qty p') ls (last ∷ [])),
        )
        | inr z ↦ (
          record { slots = ls ++ last ∷ []; outer = m },
          rw z refl,
          record {
            ranked = ranked;
            real = real;
            sorted = sorted.1;
            beyond = All-append _ ls (last ∷ []) (All-map (λ l w. w.1) ls b) (back, tt);
            closed = ground arith;
          },
          λ p'. ground (arith, e p', sum_of-append (slot_qty p') ls (last ∷ [])),
        )
      ]

  after_cut-IsRemoved :
      (o : Option Cut)
      → Missing s p q h.outer h.slots o
      → Ranked s p q o
      → Kept s p q (IsReal s) o
      → Kept s p q (λ l. OuterBehind s h.outer l.price) o
      → ((p' : ℕ) → HeldAfter s p q p' (slots_held p' h.slots) o)
      → (out : Half × Told) × (after_cut s p q h o ≡ some out) × IsRemoved s p q h out.0
  unfolding after_cut
  after_cut-IsRemoved none m r g b e = (_, refl, outer-IsRemoved m)
  after_cut-IsRemoved (some (lowered ls)) m r g b e = (_, refl, level-IsRemoved ls r g b e)
  after_cut-IsRemoved (some (erased ls)) m r g b e =
      let (h', i, k, w) = promote-IsRemoved ls h.outer sound.sorted sound.closed r g b e in
      ((h', told_all), rw i, (k, w))

  -- One branch of the case analysis: a slot has the price, so the outer map holds nothing at it.
  slots_enough : (c : Cut) → cut_slots p q h.slots ≡ some c → q ≤ slots_held p h.slots
  slots_enough c e =
      let m = cut_slots-Missing s p q h.outer h.slots sound.beyond in
      let gone : outer_held p h.outer ≡ 0 = rw e at m in omega arith

  found-IsRemoved :
      (c : Cut)
      → cut_slots p q h.slots ≡ some c
      → (out : Half × Told) × (after_cut s p q h (cut_slots p q h.slots) ≡ some out)
        × IsRemoved s p q h out.0
  found-IsRemoved c e =
      let le = slots_enough c e in
      let ls = h.slots in
      let r = sound.ranked in
      let b : slots_held p ls < 2 ^ 32 = omega arith in
      after_cut-IsRemoved (cut_slots p q ls) (cut_slots-Missing s p q h.outer ls sound.beyond)
        (cut_slots-Ranked s p q ls r le b)
        (cut_slots-Kept s p q (IsReal s) ls (λ l v w k. ground arith) r le b sound.real)
        (cut_slots-Kept s p q (λ l. OuterBehind s h.outer l.price) ls (λ l v w k. k) r le b
          sound.beyond)
        (λ p'. cut_slots-held s p q p' ls r le b)

  -- A removal of no more than is held is defined, and is sound.
  pub remove_half-IsRemoved :
      (out : Half × Told) × (remove_half s p q h ≡ some out) × IsRemoved s p q h out.0
  unfolding remove_half
  remove_half-IsRemoved = elim (Option-cases (cut_slots p q h.slots)) [
    | inl n ↦
        let m = cut_slots-Missing s p q h.outer h.slots sound.beyond in
        rw n (after_cut-IsRemoved none (rw n at m) tt tt tt (λ p'. tt))
    | inr (c, e) ↦ found-IsRemoved c e
  ]
