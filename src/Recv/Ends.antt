-- ===== src/Recv/Ends.antt =====
-- When a receive loop ends: each message has to have a size.
use native.Mathlib.Nat.{sub-zero}
use basicmatch.Base.{
  true, ℕ, zero, suc, ◌-◌, ◌<◌, ◌≤◌, ◌≡◌, ◌≢◌, ◌==◌, ◌⊎◌, List, drop, arith, inl, inr, Bool-cases,
  refl,
}
use basicmatch.Msg.{msg_size, has_msg}
use basicmatch.Recv.{Handled, advance, stop, undefined, Loop, running, recv_loop, after, less-le}

-- Up to `n` messages in the `bytes` bytes of a buffer, each with a size that is not zero.
abbrev pub IsFramed : ℕ → ℕ → List ℕ → Type 0
IsFramed zero bytes buf = Unit
IsFramed (suc n) bytes buf =
    (bytes ≡ 0) ⊎ ((0 < msg_size buf) × IsFramed n (bytes - msg_size buf) (drop (msg_size buf) buf))

-- A handler that goes past a message only where the bytes have all of it.
abbrev pub IsChecking : {S : Type 0} → (List ℕ → ℕ → S → Handled S) → Type 0
IsChecking {S} handle =
    (buf : List ℕ) (bytes : ℕ) (s s' : S) → handle buf bytes s ≡ advance s' → msg_size buf ≤ bytes

-- A message that is there has no more bytes than there are.
pub has_msg-size : (buf : List ℕ) (bytes : ℕ) → has_msg buf bytes ≡ true → msg_size buf ≤ bytes
unfolding has_msg msg_size
has_msg-size buf bytes h = ground (arith, h)

module _ {S : Type 0} (handle : List ℕ → ℕ → S → Handled S) where
  after-ne-running :
      (h : Handled S) (next : S → Loop S) (s : S) (bytes : ℕ)
      → ((s' : S) → h ≡ advance s' → next s' ≢ running)
      → after h next s bytes ≢ running
  after-ne-running (advance s') next s bytes k = k s' refl
  after-ne-running stop next s bytes k = λ e. cc
  after-ne-running undefined next s bytes k = λ e. cc

  -- With a handler that goes past a message only where the bytes have all of it, and with a size that
  -- is not zero in every message in the bytes, the loop stops within one more round than there are
  -- bytes: it is not running any more, but has used the bytes, met an incomplete message, or met what
  -- the handler leaves undefined.
  pub recv_loop_ends :
      (fuel : ℕ) (buf : List ℕ) (bytes : ℕ) (s : S)
      → IsChecking handle
      → bytes < fuel
      → IsFramed fuel bytes buf
      → recv_loop handle fuel buf bytes s ≢ running
  unfolding recv_loop
  recv_loop_ends zero buf bytes s c h f = absurd (omega arith)
  recv_loop_ends (suc fuel) buf bytes s c h (inl z) = rw z (λ e. cc)
  recv_loop_ends (suc fuel) buf bytes s c h (inr (k, f)) = elim (Bool-cases (bytes == 0)) [
    | inl z ↦ rw z (λ e. cc)
    | inr z ↦ rw z (
        after-ne-running (handle buf bytes s) _ s bytes (λ s' e.
          rw (less-le bytes (msg_size buf) (c buf bytes s s' e)) (
            recv_loop_ends fuel (drop (msg_size buf) buf) (bytes - msg_size buf) s' c (ground arith)
              f)))
  ]

  -- A message of size zero that the handler goes past is met again in every round: the loop is still
  -- running after any number of rounds.
  pub recv_loop_spins :
      (fuel : ℕ) (buf : List ℕ) (bytes : ℕ) (s : S)
      → 0 < bytes
      → msg_size buf ≡ 0
      → ((s : S) → (s' : S) × (handle buf bytes s ≡ advance s'))
      → recv_loop handle fuel buf bytes s ≡ running
  unfolding recv_loop
  recv_loop_spins zero buf bytes s h z k = refl
  recv_loop_spins (suc fuel) buf bytes s h z k =
      let (s', e) = k s in
      elim (Bool-cases (bytes == 0)) [
        | inl a ↦ absurd (ground arith)
        | inr a ↦
            rw (a, e, z, less-le bytes 0 (omega arith), sub-zero bytes)
              (recv_loop_spins fuel buf bytes s' h z k)
      ]
