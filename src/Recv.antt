-- ===== src/Recv.antt =====
-- The receive loops: `while (bytes)` over the messages in a buffer, with a handler for each.
pub mod Ends
pub mod Safe
use basicmatch.Base.{
  ◌≤◌, ◌≡◌, arith, ℕ, zero, suc, ◌+◌, ◌-◌, ◌^◌, ltb, List, drop, ◌==◌, if◌then◌else◌,
}
use basicmatch.Msg.{msg_size}

-- What the body of a loop does: handle the message and go past it, stop at a message that is not
-- complete, or run into undefined behaviour or a failed assertion.
pub data Handled {ℓ} (S : Type ℓ) : Type ℓ where
  advance : S → Handled S
  stop : Handled S
  undefined : Handled S

-- The end of a loop: with the bytes that are left, with an undefined step, or still running when
-- the fuel is gone.
pub data Loop {ℓ} (S : Type ℓ) : Type ℓ where
  finished : S → ℕ → Loop S
  faulted : Loop S
  running : Loop S

abbrev pub after {ℓ} : {S : Type ℓ} → Handled S → (S → Loop S) → S → ℕ → Loop S
after (advance s') next s bytes = next s'
after stop next s bytes = finished s bytes
after undefined next s bytes = faulted

-- bytes -= size in a uint16_t: with more than there is, it wraps.
unfoldable pub less : ℕ → ℕ → ℕ
less bytes size = if ltb bytes size then bytes + 2 ^ 16 - size else bytes - size

pub less-le : (bytes size : ℕ) → size ≤ bytes → less bytes size ≡ bytes - size
unfolding less
less-le bytes size h = ground arith

-- buf += msg->get_size(); bytes -= msg->get_size();
unfoldable pub recv_loop {ℓ} :
    {S : Type ℓ} → (List ℕ → ℕ → S → Handled S) → ℕ → List ℕ → ℕ → S → Loop S
unfolding msg_size less
recv_loop {S = S} handle zero buf bytes s = running
recv_loop {S = S} handle (suc fuel) buf bytes s =
    let next =
      λ (s' : S). recv_loop handle fuel (drop (msg_size buf) buf) (less bytes (msg_size buf)) s' in
    if bytes == 0 then finished s bytes else after (handle buf bytes s) next s bytes
