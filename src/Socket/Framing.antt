-- ===== src/Socket/Framing.antt =====
-- What a receive loop needs of its messages, so that the stream can be cut anywhere.
use basicmatch.Base.{
  ltb, drop-append, ℕ, zero, suc, ◌-◌, ◌<◌, ◌≤◌, ◌≡◌, ◌==◌, ◌∙◌, List, [], ◌∷◌, ◌++◌, Option, none,
  some, All, length, arith, refl, sym, ap, leb, false, Bool-cases, inl, inr, append_assoc,
  length-append, leb→le,
}
use basicmatch.Msg.{msg_size}
use basicmatch.Recv.{Handled, advance, stop, undefined, Loop, finished, faulted, recv_loop, after}

abbrev pub lift {ℓ} : {S : Type ℓ} → Option S → Handled S
lift none = undefined
lift (some s) = advance s

abbrev pub finish {ℓ} : {S : Type ℓ} → Option S → ℕ → Loop S
finish none n = faulted
finish (some s) n = finished s n

-- A loop's body handles whole messages, goes past each, and waits for the rest of a part of one.
pub record IsFraming {S M : Type 0} (handle : List ℕ → ℕ → S → Handled S) (bytes_of : M → List ℕ)
    (act : M → S → Option S) (Ok : M → Type 0) : Type 0 where
  pub some_size : (m : M) → Ok m → 0 < length (bytes_of m)
  pub size : (m : M) (rest : List ℕ) → Ok m → msg_size (bytes_of m ++ rest) ≡ length (bytes_of m)
  pub whole :
      (m : M) (rest : List ℕ) (bytes : ℕ) (s : S)
      → Ok m
      → length (bytes_of m) ≤ bytes
      → handle (bytes_of m ++ rest) bytes s ≡ lift (act m s)
  pub part :
      (m : M) (buf rest : List ℕ) (s : S)
      → Ok m
      → buf ++ rest ≡ bytes_of m
      → length buf < length (bytes_of m)
      → handle buf (length buf) s ≡ stop

-- Bytes that are less than the first message.
abbrev pub IsPart {ℓ} : {M : Type ℓ} → (M → List ℕ) → List ℕ → List M → Type 0
IsPart bytes_of left [] = left ≡ []
IsPart bytes_of left (m ∷ ms) = length left < length (bytes_of m)

-- Two ways to cut a list.
cut_behind :
    (xs ys ms zs : List ℕ)
    → xs ++ ys ≡ ms ++ zs
    → length ms ≤ length xs
    → (rest : List ℕ) × (xs ≡ ms ++ rest) × (rest ++ ys ≡ zs)
cut_behind xs ys [] zs e h = (xs, refl, e)
cut_behind [] ys (m ∷ ms) zs e h = absurd (omega arith)
cut_behind (x ∷ xs) ys (m ∷ ms) zs e h =
    let tails : xs ++ ys ≡ ms ++ zs = cc e in
    let heads : x ≡ m = cc e in
    let (rest, a, b) = cut_behind xs ys ms zs tails (omega arith) in (rest, cc, b)

cut_inside :
    (xs ys ms zs : List ℕ)
    → xs ++ ys ≡ ms ++ zs
    → length xs ≤ length ms
    → (rest : List ℕ) × (xs ++ rest ≡ ms)
cut_inside xs ys ms zs e h = let (rest, a, b) = cut_behind ms zs xs ys (sym e) h in (rest, sym a)

-- The bytes of messages, and what they do, one after the other.
abbrev pub joined {ℓ} : {M : Type ℓ} → (M → List ℕ) → List M → List ℕ
joined bytes_of [] = []
joined bytes_of (m ∷ ms) = bytes_of m ++ joined bytes_of ms

abbrev pub act_all {ℓ κ} : {M : Type ℓ} {S : Type κ} → (M → S → Option S) → List M → S → Option S
act_all act [] s = some s
act_all act (m ∷ ms) s = elim (act m s) [ none ↦ none | some s' ↦ act_all act ms s' ]

-- Where a loop stands in a stream of messages: those that it has handled, those that it has not, and
-- the bytes that it has left, which are less than a message.
pub record Handles {S M : Type 0} (handle : List ℕ → ℕ → S → Handled S) (bytes_of : M → List ℕ)
    (act : M → S → Option S) (ms : List M) (buf tail : List ℕ) (fuel : ℕ) : Type 0 where
  pub done : List M
  pub rest : List M
  pub left : List ℕ
  pub split : ms ≡ done ++ rest
  pub used : buf ≡ joined bytes_of done ++ left
  pub stream : left ++ tail ≡ joined bytes_of rest
  pub ends :
      (s : S) → recv_loop handle fuel buf (length buf) s ≡ finish (act_all act done s) (length left)
  pub less : IsPart bytes_of left rest

module _ {S M : Type 0} (handle : List ℕ → ℕ → S → Handled S) (bytes_of : M → List ℕ)
    (act : M → S → Option S) (Ok : M → Type 0) (framing : IsFraming handle bytes_of act Ok) where
  recv_loop-part :
      (fuel : ℕ) (m : M) (buf tail rest : List ℕ) (s : S)
      → Ok m
      → buf ++ tail ≡ bytes_of m ++ rest
      → length buf < length (bytes_of m)
      → recv_loop handle (suc fuel) buf (length buf) s ≡ finished s (length buf)
  unfolding recv_loop
  recv_loop-part fuel m buf tail rest s v e h = elim (Bool-cases (length buf == 0)) [
    | inl z ↦ rw z refl
    | inr z ↦
        let (more, k) = cut_inside buf tail (bytes_of m) rest e (omega arith) in
        rw (z, framing.part m buf more s v k h) refl
  ]

  after-lift :
      (o : Option S) (next : S → Loop S) (s : S) (n : ℕ) (ms : List M) (k : ℕ)
      → ((s' : S) → next s' ≡ finish (act_all act ms s') k)
      → after (lift o) next s n ≡ finish (elim o [ none ↦ none | some s' ↦ act_all act ms s' ]) k
  after-lift none next s n ms k h = refl
  after-lift (some s') next s n ms k h = h s'

  recv_loop-whole :
      (fuel : ℕ) (m : M) (ms : List M) (buf : List ℕ) (k : ℕ) (s : S)
      → Ok m
      → ((s' : S) → recv_loop handle fuel buf (length buf) s' ≡ finish (act_all act ms s') k)
      → recv_loop handle (suc fuel) (bytes_of m ++ buf) (length (bytes_of m ++ buf)) s
        ≡ finish (act_all act (m ∷ ms) s) k
  unfolding recv_loop
  recv_loop-whole fuel m ms buf k s v h =
      let some_size = framing.some_size m v in
      let sizes = length-append (bytes_of m) buf in
      let nonempty : (length (bytes_of m ++ buf) == 0) ≡ false = ground (arith, sizes) in
      let fits : length (bytes_of m) ≤ length (bytes_of m ++ buf) = omega arith in
      let few : ltb (length (bytes_of m ++ buf)) (length (bytes_of m)) ≡ false =
        ground (arith, sizes) in
      let cut : length (bytes_of m ++ buf) - length (bytes_of m) ≡ length buf = omega arith in
      rw
        (
          nonempty,
          framing.whole m buf (length (bytes_of m ++ buf)) s v fits,
          framing.size m buf v,
          drop-append (bytes_of m) buf,
          few,
          cut,
        )
        (after-lift (act m s) (λ s'. recv_loop handle fuel buf (length buf) s') s _ ms k h)

  more-Handles :
      (fuel : ℕ) (m : M) (ms : List M) (buf b2 tail : List ℕ)
      → Ok m
      → buf ≡ bytes_of m ++ b2
      → Handles handle bytes_of act ms b2 tail fuel
      → Handles handle bytes_of act (m ∷ ms) buf tail (suc fuel)
  more-Handles fuel m ms buf b2 tail v e h = record {
    done = m ∷ h.done;
    rest = h.rest;
    left = h.left;
    split = ap (λ l. m ∷ l) h.split;
    used = e ∙ ap (λ l. bytes_of m ++ l) h.used ∙ sym (append_assoc (bytes_of m) _ _);
    stream = h.stream;
    ends = λ s. rw e (recv_loop-whole fuel m h.done b2 (length h.left) s v h.ends);
    less = h.less;
  }

  pub recv_loop-Handles :
      (fuel : ℕ) (ms : List M) (buf tail : List ℕ)
      → All Ok ms
      → buf ++ tail ≡ joined bytes_of ms
      → length buf < fuel
      → Handles handle bytes_of act ms buf tail fuel
  recv_loop-Handles zero ms buf tail v e f = absurd (omega arith)
  recv_loop-Handles (suc fuel) [] [] tail v e f = record {
    done = [];
    rest = [];
    left = [];
    split = refl;
    used = refl;
    stream = e;
    ends = λ s. unfold recv_loop in refl;
    less = refl;
  }
  recv_loop-Handles (suc fuel) [] (b ∷ buf) tail v e f = cc
  recv_loop-Handles (suc fuel) (m ∷ ms) buf tail v e f =
      elim (Bool-cases (leb (length (bytes_of m)) (length buf))) [
        | inl z ↦
            let (b2, a, j) =
              cut_behind buf tail (bytes_of m) (joined bytes_of ms) e (leb→le _ _ z) in
            let sizes = ap length a ∙ length-append (bytes_of m) b2 in
            let some_size = framing.some_size m v.0 in
            more-Handles fuel m ms buf b2 tail v.0 a
              (recv_loop-Handles fuel ms b2 tail v.1 j (omega arith))
        | inr z ↦ record {
          done = [];
          rest = m ∷ ms;
          left = buf;
          split = refl;
          used = refl;
          stream = e;
          ends =
              λ s. recv_loop-part fuel m buf tail (joined bytes_of ms) s v.0 e (ground (arith, z));
          less = ground (arith, z);
        }
      ]
