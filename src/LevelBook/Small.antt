-- ===== src/LevelBook/Small.antt =====
-- A side of at most four levels: all of them in the array, in their order, the others far away.
use basicmatch.Base.{
  ℕ, suc, ◌+◌, ◌<◌, ◌^◌, ◌≡◌, ◌==◌, ◌⊎◌, inl, inr, true, false, List, [], ◌∷◌, some, All,
  All-append, length, arith, refl, ◌∙◌, Bool-cases, Ensures, length-append,
}
use basicmatch.Types.{Side}
use basicmatch.Book.{ahead}
use basicmatch.Book.Order.{Behind, ahead_trans, ahead_ne}
use basicmatch.LevelBook.{
  Level, Half, far, drop_last, last_slot, Scan, changed, inserted, behind_slot, add_slots,
  keep_dropped, after_scan, add_half, Cut, lowered, erased, behind_cut, cut_slots, promote,
  after_cut, remove_half, best, add32, sub32,
}
use basicmatch.LevelBook.Held.{held, slots_held, IsSound, IsRanked, drop_last-All}

-- A slot holds something, or is at the far price.
abbrev pub IsTight : Side → Level → Type 0
IsTight s l = ((l.qty ≡ 0) × (l.price ≡ far s)) ⊎ (0 < l.qty)

pub record IsSmall (s : Side) (h : Half) : Type 0 where
  pub outer : h.outer ≡ (far s, 0) ∷ []
  pub tight : All (IsTight s) h.slots
  pub size : length h.slots ≡ 4

-- The last slot of an array.
abbrev pub IsLast : Level → List Level → Type 0
IsLast d [] = ⊥
IsLast d (l ∷ ls) = d ≡ last_slot l ls

abbrev IsGoodCut : Side → ℕ → Cut → Type 0
IsGoodCut s n (lowered ls) = All (IsTight s) ls × (length ls ≡ n)
IsGoodCut s n (erased ls) = All (IsTight s) ls × (length ls + 1 ≡ n)

behind_cut-IsGoodCut :
    (s : Side) (n : ℕ) (l : Level) (c : Cut)
    → IsTight s l
    → IsGoodCut s n c
    → IsGoodCut s (suc n) (behind_cut l c)
behind_cut-IsGoodCut s n l (lowered ls) t g = ((t, g.0), omega (arith, g.1))
behind_cut-IsGoodCut s n l (erased ls) t g = ((t, g.0), omega (arith, g.1))

-- What the scan for a price makes of a tight array, where it finds the price.
cut_slots-IsGoodCut :
    (s : Side) (p q : ℕ) (ls : List Level)
    → All (IsTight s) ls
    → 0 < slots_held p ls
    → (c : Cut) × (cut_slots p q ls ≡ some c) × IsGoodCut s (length ls) c
unfolding cut_slots
cut_slots-IsGoodCut s p q [] t h = absurd (omega arith)
cut_slots-IsGoodCut s p q (l ∷ ls) t h = elim (Bool-cases (l.price == p)) [
  | inl z ↦ elim (Bool-cases (sub32 l.qty q == 0)) [
    | inl y ↦ (erased ls, rw (z, y) refl, (t.1, omega arith))
    | inr y ↦ (
      lowered (record l { qty = sub32 l.qty q } ∷ ls),
      rw (z, y) refl,
      ((inr (ground arith), t.1), refl),
    )
  ]
  | inr z ↦
      let (c, e, g) = cut_slots-IsGoodCut s p q ls t.1 (ground (arith, z)) in
      (behind_cut l c, rw (z, e) refl, behind_cut-IsGoodCut s (length ls) l c t.0 g)
]

after_cut-IsSmall :
    (s : Side) (p q : ℕ) (h : Half) (c : Cut)
    → IsSmall s h
    → IsGoodCut s (length h.slots) c
    → Ensures (λ out. IsSmall s out.0) (after_cut s p q h (some c))
unfolding after_cut promote
after_cut-IsSmall s p q h (lowered ls) k g = record {
  outer = k.outer;
  tight = g.0;
  size = g.1 ∙ k.size;
}
after_cut-IsSmall s p q h (erased ls) k g = rw k.outer (record {
  outer = refl;
  tight = All-append (IsTight s) ls _ g.0 (inl (refl, refl), tt);
  size = omega (arith, length-append ls (record { qty = 0; price = far s } ∷ []), g.1, k.size);
})

small_held : (s : Side) (p : ℕ) (h : Half) → IsSmall s h → held p h ≡ slots_held p h.slots
small_held s p h k = rw k.outer (ground arith)

pub remove_half-IsSmall :
    (s : Side) (p q : ℕ) (h : Half)
    → IsSmall s h
    → 0 < held p h
    → Ensures (λ out. IsSmall s out.0) (remove_half s p q h)
unfolding remove_half
remove_half-IsSmall s p q h k z =
    let (c, e, g) =
      cut_slots-IsGoodCut s p q h.slots k.tight (omega (arith, z, small_held s p h k)) in
    rw e (after_cut-IsSmall s p q h c k g)

-- The last slot holds nothing.
abbrev pub HasSpace : List Level → Type 0
HasSpace [] = ⊥
HasSpace (l ∷ ls) = (last_slot l ls).qty ≡ 0

abbrev IsGoodScan : Side → ℕ → Scan → Type 0
IsGoodScan s n (changed ls) = All (IsTight s) ls × (length ls ≡ n)
IsGoodScan s n (inserted ls d) = All (IsTight s) ls × (length ls ≡ n) × (d.qty ≡ 0)

behind_slot-IsGoodScan :
    (s : Side) (n : ℕ) (l : Level) (c : Scan)
    → IsTight s l
    → IsGoodScan s n c
    → IsGoodScan s (suc n) (behind_slot l c)
behind_slot-IsGoodScan s n l (changed ls) t g = ((t, g.0), omega (arith, g.1))
behind_slot-IsGoodScan s n l (inserted ls d) t g = ((t, g.0), omega (arith, g.1), g.2)

length-drop_last : (l : Level) (ls : List Level) → length (drop_last l ls) ≡ length ls
unfolding drop_last
length-drop_last l [] = refl
length-drop_last l (m ∷ ms) = omega (arith, length-drop_last m ms)

-- A price that a slot may hold: nothing is behind the far one.
abbrev pub IsNear : Side → ℕ → Type 0
IsNear s p = ahead s (far s) p ≡ false

-- The scan stops at the first slot.
scan_here :
    (s : Side) (p q : ℕ) (l : Level) (ls : List Level)
    → All (IsTight s) (l ∷ ls)
    → HasSpace (l ∷ ls)
    → 0 < q
    → slots_held p (l ∷ ls) + q < 2 ^ 32
    → ahead s l.price p ≡ false
    → (c : Scan) × (add_slots s p q (l ∷ ls) ≡ some c) × IsGoodScan s (length (l ∷ ls)) c
unfolding add_slots
scan_here s p q l ls t h z b a = elim (Bool-cases (p == l.price)) [
  | inl y ↦ (
    changed (record l { qty = add32 l.qty q } ∷ ls),
    rw (a, y) refl,
    ((inr (unfold add32 in ground arith), t.1), refl),
  )
  | inr y ↦ (
    inserted (record { qty = q; price = p } ∷ drop_last l ls) (last_slot l ls),
    rw (a, y) refl,
    ((inr z, drop_last-All (IsTight s) l ls t), omega (arith, length-drop_last l ls), h),
  )
]

add_slots-IsGoodScan :
    (s : Side) (p q : ℕ) (ls : List Level)
    → All (IsTight s) ls
    → HasSpace ls
    → IsNear s p
    → 0 < q
    → slots_held p ls + q < 2 ^ 32
    → (c : Scan) × (add_slots s p q ls ≡ some c) × IsGoodScan s (length ls) c
unfolding add_slots last_slot
add_slots-IsGoodScan s p q [] t h n z b = absurd h
add_slots-IsGoodScan s p q (l ∷ []) t h n z b =
    scan_here s p q l [] t h z b (ground (arith, n, h, t.0))
add_slots-IsGoodScan s p q (l ∷ m ∷ ms) t h n z b = elim (Bool-cases (ahead s l.price p)) [
  | inl a ↦
      let (c, e, g) = add_slots-IsGoodScan s p q (m ∷ ms) t.1 h n z (omega (arith, b)) in
      (behind_slot l c, rw (a, e) refl, behind_slot-IsGoodScan s (length (m ∷ ms)) l c t.0 g)
  | inr a ↦ scan_here s p q l (m ∷ ms) t h z b a
]

after_scan-IsSmall :
    (s : Side) (p q : ℕ) (h : Half) (c : Scan)
    → IsSmall s h
    → IsGoodScan s (length h.slots) c
    → IsSmall s (after_scan s p q h (some c)).0
unfolding after_scan keep_dropped
after_scan-IsSmall s p q h (changed ls) k g = record {
  outer = k.outer;
  tight = g.0;
  size = g.1 ∙ k.size;
}
after_scan-IsSmall s p q h (inserted ls d) k g =
    let nothing : (d.qty == 0) ≡ true = ground (arith, g.2) in
    rw nothing (record { outer = k.outer; tight = g.0; size = g.1 ∙ k.size })

pub add_half-IsSmall :
    (s : Side) (p q : ℕ) (h : Half)
    → IsSmall s h
    → HasSpace h.slots
    → IsNear s p
    → 0 < q
    → held p h + q < 2 ^ 32
    → IsSmall s (add_half s p q h).0
unfolding add_half
add_half-IsSmall s p q h k r n z b =
    let (c, e, g) =
      add_slots-IsGoodScan s p q h.slots k.tight r n z (omega (arith, b, small_held s p h k)) in
    rw e (after_scan-IsSmall s p q h c k g)

-- The first slot's price is the best that is held, or the far one where nothing is held there.
pub best-held :
    (s : Side) (h : Half) → IsSmall s h → (best s h.slots ≡ far s) ⊎ (0 < held (best s h.slots) h)
best-held s h k = from h.slots k.tight (small_held s (best s h.slots) h k)
  where
    from :
        (ls : List Level)
        → All (IsTight s) ls
        → held (best s ls) h ≡ slots_held (best s ls) ls
        → (best s ls ≡ far s) ⊎ (0 < held (best s ls) h)
    from [] t e = inl refl
    from (l ∷ ls) t e = ground (arith, t.0, e)

later_held :
    (s : Side) (p k : ℕ) (ls : List Level)
    → All (λ m. (m.qty ≡ 0) ⊎ Behind s k m.price) ls
    → 0 < slots_held p ls
    → Behind s k p
later_held s p k [] a z = absurd (omega arith)
later_held s p k (m ∷ ms) a z = elim (Bool-cases (m.price == p)) [
  | inr y ↦ later_held s p k ms a.1 (ground (arith, y))
  | inl y ↦ elim (Bool-cases (m.qty == 0)) [
    | inl x ↦ later_held s p k ms a.1 (ground (arith, x, y))
    | inr x ↦ ground (arith, a.0, x, y)
  ]
]

ranked_held :
    (s : Side) (p : ℕ) (ls : List Level)
    → IsRanked s ls
    → 0 < slots_held p ls
    → (best s ls ≡ p) ⊎ Behind s (best s ls) p
ranked_held s p [] r z = absurd (omega arith)
ranked_held s p (l ∷ ls) r z = elim (Bool-cases (l.price == p)) [
  | inl y ↦ inl (ground (arith, y))
  | inr y ↦ inr (later_held s p l.price ls r.0 (ground (arith, y)))
]

-- A price with nothing held ahead of it is the first slot's.
pub best_first :
    (s : Side) (p : ℕ) (h : Half)
    → IsSmall s h
    → IsSound s h
    → IsNear s p
    → 0 < held p h
    → ((p' : ℕ) → 0 < held p' h → (p' ≡ p) ⊎ Behind s p p')
    → best s h.slots ≡ p
best_first s p h k g n z f =
    elim (ranked_held s p h.slots g.ranked (omega (arith, z, small_held s p h k))) [
      | inl e ↦ e
      | inr a ↦ elim (best-held s h k) [
        | inl e ↦ absurd (ground (arith, n, rw e at a))
        | inr y ↦ elim (f (best s h.slots) y) [
          | inl e ↦ e
          | inr b ↦ absurd (ground (arith, ahead_ne s p p (ahead_trans s p (best s h.slots) p b a)))
        ]
      ]
    ]
