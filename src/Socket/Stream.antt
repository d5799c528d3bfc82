-- ===== src/Socket/Stream.antt =====
-- A stream of messages through the buffer of a socket, cut by the network anywhere.
use basicmatch.Base.{
  drop-append, take-length, ℕ, suc, ◌+◌, ◌-◌, ◌≤◌, ◌≡◌, ◌%◌, ◌^◌, ◌∙◌, List, [], ◌∷◌, ◌++◌, Option,
  none, some, All, All-right, length, map, arith, refl, sym, ap, append_assoc, length-append,
  append-nil, Option-cases, inl, inr,
}
use basicmatch.Recv.{Handled, recv_loop}
use basicmatch.Socket.{got, RecvCb, recv_buf_size, keep_left, after_cb, on_bytes, recv_cb}
use basicmatch.Socket.Framing.{IsFraming, IsPart, Handles, joined, act_all, recv_loop-Handles}

-- The bytes of the pieces that recv returned.
abbrev pub flat : List (List ℕ) → List ℕ
flat [] = []
flat (c ∷ cs) = c ++ flat cs

keep_left-append : (buf xs left : List ℕ) → buf ≡ xs ++ left → keep_left buf (length left) ≡ left
unfolding keep_left
keep_left-append buf xs left e =
    let sizes = ap length e ∙ length-append xs left in
    let k : length buf - length left ≡ length xs = omega arith in
    rw (k, e, drop-append xs left) (take-length left)

-- Every piece finds room in the buffer: what the callback has left and the piece are at most the
-- buffer's size. What is left is less than a message.
abbrev pub HasRoom : ℕ → List (List ℕ) → Type 0
HasRoom most [] = Unit
HasRoom most (c ∷ cs) = (most + length c ≤ recv_buf_size) × HasRoom most cs

module _ {S M : Type 0} (handle : List ℕ → ℕ → S → Handled S) (bytes_of : M → List ℕ)
    (act : M → S → Option S) (Ok : M → Type 0) (framing : IsFraming handle bytes_of act Ok)
    (most : ℕ) (bounded : (m : M) → Ok m → length (bytes_of m) ≤ most) where
  act_all-append :
      (xs ys : List M) (s s' : S)
      → act_all act (xs ++ ys) s ≡ some s'
      → (t : S) × (act_all act xs s ≡ some t) × (act_all act ys t ≡ some s')
  act_all-append [] ys s s' e = (s, refl, e)
  act_all-append (x ∷ xs) ys s s' e = elim (Option-cases (act x s)) [
    | inl n ↦ let stuck : none ≡ some s' = rw n at e in absurd (cc stuck)
    | inr (t, k) ↦
        let (t2, a, b) = act_all-append xs ys t s' (rw k at e) in
        (t2, (rw (act_all, k) refl) ∙ a, b)
  ]

  IsPart-short :
      (left : List ℕ) (ms : List M) → All Ok ms → IsPart bytes_of left ms → length left ≤ most
  IsPart-short left [] v h = rw h (omega arith)
  IsPart-short left (m ∷ ms) v h = let b = bounded m v.0 in omega arith

  -- The callback of a socket whose user is such a loop, with a round more than there are bytes.
  abbrev pub loop_cb : RecvCb S
  loop_cb buf bytes s = recv_loop handle (suc (length buf)) buf bytes s

  -- One round, after which the messages that the loop has not handled are still to come.
  on_bytes-Handles :
      (ms : List M) (pending c tail : List ℕ) (s s' : S)
      → length pending + length c ≤ recv_buf_size
      → Handles handle bytes_of act ms (pending ++ c) tail (suc (length (pending ++ c)))
      → act_all act ms s ≡ some s'
      → (rest : List M) × (left : List ℕ) × (t : S) × (done : List M) × (ms ≡ done ++ rest)
        × IsPart bytes_of left rest
        × (left ++ tail ≡ joined bytes_of rest)
        × (act_all act rest t ≡ some s')
        × (on_bytes (some loop_cb) c (record { pending = pending; user = s })
            ≡ some (record { pending = left; user = t }))
  unfolding on_bytes
  on_bytes-Handles ms pending c tail s s' p h k =
      let sizes = length-append pending c in
      let small : length (pending ++ c) % 2 ^ 16 ≡ length (pending ++ c) = omega arith in
      let done_rest : act_all act (h.done ++ h.rest) s ≡ some s' = rw h.split at k in
      let (t, a, b) = act_all-append h.done h.rest s s' done_rest in
      let kept = keep_left-append (pending ++ c) (joined bytes_of h.done) h.left h.used in
      (
        h.rest,
        h.left,
        t,
        h.done,
        h.split,
        h.less,
        h.stream,
        b,
        rw (small, h.ends s, a, after_cb, kept) refl,
      )

  pub recv_cb-stream :
      (ms : List M) (pending : List ℕ) (cs : List (List ℕ)) (s s' : S)
      → All Ok ms
      → IsPart bytes_of pending ms
      → HasRoom most cs
      → pending ++ flat cs ≡ joined bytes_of ms
      → act_all act ms s ≡ some s'
      → recv_cb (some loop_cb) (map got cs) (record { pending = pending; user = s })
        ≡ some (record { pending = []; user = s' }, none)
  unfolding recv_cb
  recv_cb-stream [] pending [] s s' v p r e k = cc
  recv_cb-stream (m ∷ ms) pending [] s s' v p r e k =
      let sizes =
        sym (ap length (append-nil pending))
        ∙ ap length e
        ∙ length-append (bytes_of m) (joined bytes_of ms) in
      absurd (omega arith)
  recv_cb-stream ms pending (c ∷ cs) s s' v p r e k =
      let short = IsPart-short pending ms v p in
      let (rest, left, t, done, split, less, stream, b, round) =
        on_bytes-Handles ms pending c (flat cs) s s' (omega (arith, r.0))
          (recv_loop-Handles handle bytes_of act Ok framing (suc (length (pending ++ c))) ms
            (pending ++ c) (flat cs) v (append_assoc pending c (flat cs) ∙ e) (omega arith))
          k in
      let rest_ok = All-right Ok done rest (rw split at v) in
      rw round (recv_cb-stream rest left cs t s' rest_ok less r.1 stream b)
