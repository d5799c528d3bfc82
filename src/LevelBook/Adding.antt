-- ===== src/LevelBook/Adding.antt =====
-- Adding a quantity at a price to one side of a level book.
use mathlib.Core.Option
use native.Mathlib.Nat.{add_assoc}
use basicmatch.Base.{
  ℕ, ◌+◌, ◌<◌, ◌^◌, List, [], ◌∷◌, All, ◌⊎◌, ◌≡◌, ◌==◌, arith, inl, inr, All-map, Bool-cases, false,
  Option-cases, Option, none, some, All-zip,
}
use basicmatch.Types.{Side}
use basicmatch.Book.{ahead}
use basicmatch.Book.Order.{Behind, ahead_trans, ahead_total, ahead_ne}
use basicmatch.LevelBook.{
  far, Level, Half, outer_update, keep_dropped, add_slots, Scan, changed, inserted, behind_slot,
  add_half, after_scan, add32,
}
use basicmatch.LevelBook.Held.{
  at_price, slot_qty, slots_held, held, IsRanked, OuterBehind, IsSound, drop_last-held,
  drop_last-All, last_slot-All, drop_last-IsRanked, last_slot-Behind, outer_update-IsOuter,
  outer_update-held, outer_update-HasFar, IsReal, outer_update-OuterBehind, held-OuterBehind,
}

module _ (s : Side) (p q : ℕ) where
  -- A property of the slots that any slot at the price has.
  module _ (P : Level → Type 0) where
    abbrev Scanned : Option Scan → Type 0
    Scanned none = Unit
    Scanned (some (changed ls)) = All P ls
    Scanned (some (inserted ls d)) = All P ls × P d

    Scanned-behind :
        (l : Level) (o : Option Scan) → P l → Scanned o → Scanned (Option.map (behind_slot l) o)
    Scanned-behind l none h k = tt
    Scanned-behind l (some (changed ls)) h k = (h, k)
    Scanned-behind l (some (inserted ls d)) h k = ((h, k.0), k.1)

    add_slots-All :
        (ls : List Level)
        → ((v : ℕ) → P (record { qty = v; price = p }))
        → All P ls
        → Scanned (add_slots s p q ls)
    unfolding add_slots
    add_slots-All [] new h = tt
    add_slots-All (l ∷ ls) new h = elim (Bool-cases (ahead s l.price p)) [
      | inl a ↦ rw a (Scanned-behind l (add_slots s p q ls) h.0 (add_slots-All ls new h.1))
      | inr a ↦ elim (Bool-cases (p == l.price)) [
        | inl e ↦ rw (a, e) (same l (ground arith) (new (add32 l.qty q)), h.1)
        | inr e ↦ rw (a, e) ((new q, drop_last-All P l ls h), last_slot-All P l ls h)
      ]
    ]
      where
        same :
            (l : Level)
            → p ≡ l.price
            → P (record { qty = add32 l.qty q; price = p })
            → P (record l { qty = add32 l.qty q })
        same l e h = rw (← e) h

  -- What the scan finds, in one statement: no slot, a changed array, or an array with a slot more
  -- and the slot that dropped out of it.
  abbrev Found : List Level → Option Scan → Type 0
  Found ls none = All (λ l. Behind s l.price p) ls
  Found ls (some (changed ls')) = IsRanked s ls'
  Found ls (some (inserted ls' d)) =
      IsRanked s ls' × All (λ m. (d.qty ≡ 0) ⊎ Behind s m.price d.price) ls'

  Found-Behind :
      (l : Level) (ls : List Level) (o : Option Scan)
      → Behind s l.price p
      → Scanned (λ m. (m.qty ≡ 0) ⊎ Behind s l.price m.price) o
      → Found ls o
      → Found (l ∷ ls) (Option.map (behind_slot l) o)
  Found-Behind l ls none b h k = (b, k)
  Found-Behind l ls (some (changed ls')) b h k = (h, k)
  Found-Behind l ls (some (inserted ls' d)) b h k = ((h.0, k.0), (h.1, k.1))

  -- The slots behind a slot are behind a price ahead of it.
  ranked_ahead :
      (l : Level) (ls : List Level)
      → Behind s p l.price
      → All (λ m. (m.qty ≡ 0) ⊎ Behind s l.price m.price) ls
      → All (λ m. (m.qty ≡ 0) ⊎ Behind s p m.price) ls
  ranked_ahead l ls b h = All-map (λ m k. ground (arith, ahead_trans s p l.price m.price b)) ls h

  add_slots-Found : (ls : List Level) → IsRanked s ls → Found ls (add_slots s p q ls)
  unfolding add_slots
  add_slots-Found [] h = tt
  add_slots-Found (l ∷ ls) h = elim (Bool-cases (ahead s l.price p)) [
    | inl a ↦ rw a (
        Found-Behind l ls (add_slots s p q ls) a (add_slots-All _ ls (λ v. inr a) h.0)
          (add_slots-Found ls h.1))
    | inr a ↦ elim (Bool-cases (p == l.price)) [
      | inl e ↦ rw (a, e) h
      | inr e ↦
          let b = ahead_total s l.price p (ground arith) a in
          let r = ranked_ahead l ls b h.0 in
          rw (a, e)
            (
              (drop_last-All _ l ls (inr b, r), drop_last-IsRanked s l ls h),
              (last_slot-All _ l ls (inr b, r), last_slot-Behind s l ls h),
            )
    ]
  ]

  -- The quantities of the array after the scan, at any price.
  abbrev HeldAfter : ℕ → ℕ → Option Scan → Type 0
  HeldAfter p' total none = Unit
  HeldAfter p' total (some (changed ls')) = slots_held p' ls' ≡ total
  HeldAfter p' total (some (inserted ls' d)) = slots_held p' ls' + slot_qty p' d ≡ total

  HeldAfter-behind :
      (p' total : ℕ) (l : Level) (o : Option Scan)
      → HeldAfter p' total o
      → HeldAfter p' (slot_qty p' l + total) (Option.map (behind_slot l) o)
  HeldAfter-behind p' total l none h = tt
  HeldAfter-behind p' total l (some (changed ls')) h = ground arith
  HeldAfter-behind p' total l (some (inserted ls' d)) h = omega arith

  add_slots-held :
      (p' : ℕ) (ls : List Level)
      → slots_held p ls + q < 2 ^ 32
      → HeldAfter p' (slots_held p' ls + at_price p' p q) (add_slots s p q ls)
  unfolding add_slots
  add_slots-held p' [] h = tt
  add_slots-held p' (l ∷ ls) h = elim (Bool-cases (ahead s l.price p)) [
    | inl a ↦ rw a (
        rw (add_assoc)
          (HeldAfter-behind p' _ l (add_slots s p q ls) (add_slots-held p' ls (omega arith))))
    | inr a ↦ elim (Bool-cases (p == l.price)) [
      | inl e ↦ rw (a, e) (ground arith)
      | inr e ↦ rw (a, e) (omega (arith, drop_last-held p' l ls))
    ]
  ]

  -- Where the scan finds a slot, the outer levels are behind the price too.
  abbrev WithOuter : List (ℕ × ℕ) → Option Scan → Type 0
  WithOuter m none = Unit
  WithOuter m (some f) = OuterBehind s m p

  WithOuter-behind :
      (m : List (ℕ × ℕ)) (l : Level) (o : Option Scan)
      → WithOuter m o
      → WithOuter m (Option.map (behind_slot l) o)
  WithOuter-behind m l none h = tt
  WithOuter-behind m l (some f) h = h

  add_slots-WithOuter :
      (m : List (ℕ × ℕ)) (ls : List Level)
      → All (λ l. OuterBehind s m l.price) ls
      → WithOuter m (add_slots s p q ls)
  unfolding add_slots
  add_slots-WithOuter m [] h = tt
  add_slots-WithOuter m (l ∷ ls) h = elim (Bool-cases (ahead s l.price p)) [
    | inl a ↦ rw a (WithOuter-behind m l (add_slots s p q ls) (add_slots-WithOuter m ls h.1))
    | inr a ↦ elim (Bool-cases (p == l.price)) [
      | inl e ↦ rw (a, e) (All-map (λ k z. ground arith) m h.0)
      | inr e ↦
          rw (a, e)
            (All-map (λ k z. ground (arith, ahead_trans s p l.price k.0, ahead_total s l.price p)) m
              h.0)
    ]
  ]

-- The state after an addition is sound, and holds the quantity more at its price alone.
abbrev pub IsAdded : Side → ℕ → ℕ → Half → Half → Type 0
IsAdded s p q h h' = IsSound s h' × ((p' : ℕ) → held p' h' ≡ held p' h + at_price p' p q)

module _ (s : Side) (p q : ℕ) (h : Half) (sound : IsSound s h) (near : (p == far s) ≡ false)
    (fits : held p h + q < 2 ^ 32) where
  outer-IsAdded :
      All (λ l. Behind s l.price p) h.slots
      → IsAdded s p q h (record h { outer = outer_update s p (λ v. add32 v q) h.outer })
  unfolding add32
  outer-IsAdded b = (
    record {
      ranked = sound.ranked;
      sorted = outer_update-IsOuter s p (λ v. add32 v q) h.outer sound.sorted;
      beyond =
          All-map
            (λ l (k, z).
              outer_update-OuterBehind s p l.price (λ v. add32 v q) h.outer sound.sorted (inr k) z)
            h.slots (All-zip _ _ h.slots b sound.beyond);
      closed = outer_update-HasFar s p (λ v. add32 v q) h.outer near sound.closed;
      real = sound.real;
    },
    λ p'. ground (arith, outer_update-held s p (λ v. add32 v q) h.outer p' sound.sorted),
  )

  level-IsAdded :
      (ls : List Level)
      → IsRanked s ls
      → All (IsReal s) ls
      → All (λ l. OuterBehind s h.outer l.price) ls
      → ((p' : ℕ) → slots_held p' ls ≡ slots_held p' h.slots + at_price p' p q)
      → IsAdded s p q h (record h { slots = ls })
  level-IsAdded ls r g b e = (
    record { ranked = r; sorted = sound.sorted; beyond = b; closed = sound.closed; real = g },
    λ p'. omega (arith, e p'),
  )

  slot-IsAdded :
      (ls : List Level) (d : Level)
      → IsRanked s ls
      → All (λ m. (d.qty ≡ 0) ⊎ Behind s m.price d.price) ls
      → All (λ l. OuterBehind s h.outer l.price) ls
      → OuterBehind s h.outer d.price
      → All (IsReal s) ls
      → IsReal s d
      → ((p' : ℕ) → slots_held p' ls + slot_qty p' d ≡ slots_held p' h.slots + at_price p' p q)
      → IsAdded s p q h (record { slots = ls; outer = keep_dropped s d h.outer })
  unfolding keep_dropped
  slot-IsAdded ls d r b c k g gd e = elim (Bool-cases (d.qty == 0)) [
    | inl z ↦ rw z (
      record { ranked = r; sorted = sound.sorted; beyond = c; closed = sound.closed; real = g },
      λ p'. ground (arith, e p'),
    )
    | inr z ↦ rw z (
      record {
        ranked = r;
        sorted = outer_update-IsOuter s d.price (λ _. d.qty) h.outer sound.sorted;
        beyond =
            All-map
              (λ l (y, w).
                outer_update-OuterBehind s d.price l.price (λ _. d.qty) h.outer sound.sorted y w)
              ls (All-zip _ _ ls b c);
        closed =
            outer_update-HasFar s d.price (λ _. d.qty) h.outer (ground (arith, gd)) sound.closed;
        real = g;
      },
      λ p'. ground (
        arith,
        e p',
        outer_update-held s d.price (λ _. d.qty) h.outer p' sound.sorted,
        held-OuterBehind s d.price d.price h.outer k,
        ahead_ne s d.price d.price,
      ),
    )
  ]

  after_scan-IsAdded :
      (o : Option Scan)
      → Found s p q h.slots o
      → Scanned s p q (λ l. OuterBehind s h.outer l.price) o
      → Scanned s p q (IsReal s) o
      → ((p' : ℕ) → HeldAfter s p q p' (slots_held p' h.slots + at_price p' p q) o)
      → IsAdded s p q h (after_scan s p q h o).0
  unfolding after_scan
  after_scan-IsAdded none f k g e = outer-IsAdded f
  after_scan-IsAdded (some (changed ls)) f k g e = level-IsAdded ls f g k e
  after_scan-IsAdded (some (inserted ls d)) f k g e = slot-IsAdded ls d f.0 f.1 k.0 k.1 g.0 g.1 e

  scan_outer : Scanned s p q (λ l. OuterBehind s h.outer l.price) (add_slots s p q h.slots)
  scan_outer = elim (Option-cases (add_slots s p q h.slots)) [
    | inl n ↦ rw n tt
    | inr (f, e) ↦
        add_slots-All s p q (λ l. OuterBehind s h.outer l.price) h.slots
          (λ v. rw e at (add_slots-WithOuter s p q h.outer h.slots sound.beyond)) sound.beyond
  ]

  pub add_half-IsAdded : IsAdded s p q h (add_half s p q h).0
  unfolding add_half
  add_half-IsAdded =
      after_scan-IsAdded (add_slots s p q h.slots) (add_slots-Found s p q h.slots sound.ranked)
        scan_outer (add_slots-All s p q (IsReal s) h.slots (λ v. inr near) sound.real)
        (λ p'. add_slots-held s p q p' h.slots (omega arith))
