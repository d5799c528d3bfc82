-- ===== src/Recv/Safe.antt =====
-- An invariant of what a receive loop's handler works on.
use basicmatch.Base.{
  ℕ, zero, suc, ◌+◌, ◌-◌, ◌<◌, ◌≤◌, ◌≡◌, ◌==◌, true, List, [], ◌∷◌, length, length-drop, arith,
  refl, drop, inl, inr, Bool-cases,
}
use basicmatch.Msg.{msg_size}
use basicmatch.Wire.{has_nul}
use basicmatch.Recv.Ends.{IsChecking}
use basicmatch.Recv.{
  Handled, advance, stop, undefined, Loop, finished, faulted, running, recv_loop, after, less-le,
}

-- The last byte of the memory is a NUL.
abbrev pub EndsNul : List ℕ → Type 0
EndsNul [] = ⊥
EndsNul (c ∷ []) = c ≡ 0
EndsNul (c ∷ d ∷ ds) = EndsNul (d ∷ ds)

-- The memory of a callback that is told of `bytes` bytes: those, and behind them as many more as the
-- fields of a request take, the last of which is a NUL.
abbrev pub HasEnd : ℕ → List ℕ → Type 0
HasEnd bytes buf = EndsNul buf × (bytes + 15 ≤ length buf)

pub drop-EndsNul : (k : ℕ) (buf : List ℕ) → k < length buf → EndsNul buf → EndsNul (drop k buf)
drop-EndsNul zero buf h e = e
drop-EndsNul (suc k) [] h e = e
drop-EndsNul (suc k) (c ∷ []) h e = absurd (omega arith)
drop-EndsNul (suc k) (c ∷ d ∷ ds) h e = drop-EndsNul k (d ∷ ds) (omega arith) e

pub has_nul-EndsNul : (buf : List ℕ) → EndsNul buf → has_nul buf ≡ true
unfolding has_nul
has_nul-EndsNul [] e = absurd e
has_nul-EndsNul (c ∷ []) e = ground arith
has_nul-EndsNul (c ∷ d ∷ ds) e = ground (arith, has_nul-EndsNul (d ∷ ds) e)

drop-HasEnd :
    (bytes size : ℕ) (buf : List ℕ)
    → size ≤ bytes
    → HasEnd bytes buf
    → HasEnd (bytes - size) (drop size buf)
drop-HasEnd bytes size buf h (e, n) =
    (drop-EndsNul size buf (omega arith) e, omega (arith, length-drop size buf))

module _ {S : Type 0} (I : S → Type 0) where
  -- A body that keeps the invariant and is never undefined.
  abbrev pub KeptBy : Handled S → Type 0
  KeptBy (advance s) = I s
  KeptBy stop = Unit
  KeptBy undefined = ⊥

  -- A loop that has not met undefined behaviour, and has kept the invariant if it has ended.
  abbrev pub Safely : Loop S → Type 0
  Safely (finished s n) = I s
  Safely faulted = ⊥
  Safely running = Unit

  after-Safely :
      (h : Handled S) (next : S → Loop S) (s : S) (bytes : ℕ)
      → I s
      → KeptBy h
      → ((s' : S) → h ≡ advance s' → I s' → Safely (next s'))
      → Safely (after h next s bytes)
  after-Safely (advance s') next s bytes i k n = n s' refl k
  after-Safely stop next s bytes i k n = i
  after-Safely undefined next s bytes i k n = absurd k

  pub recv_loop-Safely :
      (handle : List ℕ → ℕ → S → Handled S)
      → IsChecking handle
      → ((buf : List ℕ) (bytes : ℕ) (s : S) → HasEnd bytes buf → I s → KeptBy (handle buf bytes s))
      → (fuel : ℕ) (buf : List ℕ) (bytes : ℕ) (s : S) → HasEnd bytes buf
      → I s
      → Safely (recv_loop handle fuel buf bytes s)
  unfolding recv_loop
  recv_loop-Safely handle c k zero buf bytes s m i = tt
  recv_loop-Safely handle c k (suc fuel) buf bytes s m i = elim (Bool-cases (bytes == 0)) [
    | inl z ↦ rw z i
    | inr z ↦ rw z (
        after-Safely (handle buf bytes s) _ s bytes i (k buf bytes s m i) (λ s' e.
          let fits = c buf bytes s s' e in
          rw (less-le bytes (msg_size buf) fits) (
            recv_loop-Safely handle c k fuel (drop (msg_size buf) buf) (bytes - msg_size buf) s'
              (drop-HasEnd bytes (msg_size buf) buf fits m))))
  ]
