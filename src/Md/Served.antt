-- ===== src/Md/Served.antt =====
-- basic_match.cpp and md.cpp: a snapshot from the server's book to the handler's, over the bytes.
use mathlib.Core.List.{reverse}
use basicmatch.Base.{
  drop, true, ℕ, zero, suc, ◌+◌, ◌%◌, ◌<◌, ◌≤◌, ◌^◌, ◌≡◌, false, List, [], ◌∷◌, ◌++◌, Text, length,
  take, set, All, All-reverse, arith, refl, ap, ◌∙◌, sym, length-append, append-nil, some,
  Bool-cases, inl, inr, ltb,
}
use basicmatch.Types.{Side, infinity}
use basicmatch.Book.{Node, Level, Levels, Book}
use basicmatch.Wire.Laws.{NoNul}
use basicmatch.Msg.{
  WireLevel, SnapResponse, side_byte, snap_response_bytes, read_snap_response, msg_size,
  new_snap_response, end_levels, add_level, max_levels,
}
use basicmatch.Wire.{has_nul}
use basicmatch.Msg.Snapshot.{
  has_nul-sent, IsWireLevel, IsSnapResponse, read_snap_response-snap_response_bytes,
}
use basicmatch.LevelBook.{add32}
use basicmatch.LevelBook.Refines.{IsSoundBook, quantity}
use basicmatch.Recv.{finished, recv_loop}
use basicmatch.Engine
use basicmatch.BasicMatch.{Server, snapshot_of, add_levels, level_total, handle_snap_request}
use basicmatch.BasicMatch.Snapshot.{Carries, wire_levels, resting, snapshot_of-Carries}
use basicmatch.Md.{Md, Effect, get_book, deferred_of, on_snapshot, snap_message, snap_recv_cb}
use basicmatch.Md.Loaded.{IsPlain}
use basicmatch.Md.Snapshots.{IsNarrow, IsFinite, length-wire_levels, on_snapshot-snapshot_of}

length-take-le : (n : ℕ) (s : Text) → length (take n s) ≤ n
length-take-le zero s = omega arith
length-take-le (suc n) [] = omega arith
length-take-le (suc n) (c ∷ s) = omega (arith, length-take-le n s)

take-All : (P : ℕ → Type 0) (n : ℕ) (s : Text) → All P s → All P (take n s)
take-All P zero s h = tt
take-All P (suc n) [] h = tt
take-All P (suc n) (c ∷ s) h = (h.0, take-All P n s h.1)

set-All :
    (P : WireLevel → Type 0) (ls : List WireLevel) (i : ℕ) (l : WireLevel)
    → P l
    → All P ls
    → All P (set ls i l)
set-All P [] i l p h = tt
set-All P (x ∷ xs) zero l p h = (p, h.1)
set-All P (x ∷ xs) (suc i) l p h = (h.0, set-All P xs i l p h.1)

end_levels-IsWireLevel :
    (n : ℕ) (ls : List WireLevel) → All IsWireLevel ls → All IsWireLevel (end_levels n ls)
unfolding end_levels
end_levels-IsWireLevel n [] h = tt
end_levels-IsWireLevel zero (l ∷ ls) h =
    (record { side = omega arith; qty = h.0.qty; price = h.0.price }, h.1)
end_levels-IsWireLevel (suc n) (l ∷ ls) h = (h.0, end_levels-IsWireLevel n ls h.1)

side_byte-lt : (s : Side) → side_byte s < 2 ^ 8
unfolding side_byte
side_byte-lt Side.none = omega arith
side_byte-lt Side.buy = omega arith
side_byte-lt Side.sell = omega arith

add_level-IsWireLevel :
    (s : Side) (q p : ℕ) (m : SnapResponse)
    → q < 2 ^ 32
    → p ≤ infinity
    → All IsWireLevel m.levels
    → All IsWireLevel (add_level s q p m).0.levels
unfolding add_level
add_level-IsWireLevel s q p m hq hp h = elim (Bool-cases (ltb m.n_levels max_levels)) [
  | inr z ↦ rw z h
  | inl z ↦
      let l : WireLevel = record { side = side_byte s; qty = q; price = p } in
      let filled = set m.levels m.n_levels l in
      let k =
        set-All IsWireLevel m.levels m.n_levels l
          (record { side = side_byte-lt s; qty = hq; price = hp }) h in
      elim (Bool-cases (ltb (m.n_levels + 1) max_levels)) [
        | inl y ↦ rw (z, y) (end_levels-IsWireLevel (m.n_levels + 1) filled k)
        | inr y ↦ rw (z, y) k
      ]
]

level_total-lt : (acc : ℕ) (l : List Node) → acc < 2 ^ 32 → level_total acc l < 2 ^ 32
unfolding level_total add32
level_total-lt acc [] h = h
level_total-lt acc (n ∷ ns) h = level_total-lt ((acc + n.order.qty) % 2 ^ 32) ns (omega arith)

abbrev pub ArePrices : Levels → Type 0
ArePrices = All (λ m. m.0 ≤ infinity)

add_levels-IsWireLevel :
    (s : Side) (n : ℕ) (ls : Levels) (m : SnapResponse)
    → ArePrices ls
    → All IsWireLevel m.levels
    → All IsWireLevel (add_levels s n ls m).levels
unfolding add_levels
add_levels-IsWireLevel s zero ls m p h = h
add_levels-IsWireLevel s (suc n) [] m p h = h
add_levels-IsWireLevel s (suc n) ((q, l) ∷ ls) m p h =
    add_levels-IsWireLevel s n ls (add_level s (level_total 0 l) q m).0 p.1
      (add_level-IsWireLevel s (level_total 0 l) q m (level_total-lt 0 l (omega arith)) p.0 h)

-- The book's fields fit a message.
pub record IsSendable (b : Book) : Type 0 where
  pub txn_id : b.txn_id < 2 ^ 64
  pub sells : ArePrices b.sells
  pub buys : ArePrices b.buys
  pub few : length b.sells + length b.buys ≤ 32

snapshot_of-IsWireLevel :
    (junk : List WireLevel) (n : ℕ) (symbol : Text) (b : Book)
    → All IsWireLevel junk
    → IsSendable b
    → All IsWireLevel (snapshot_of junk n symbol b).levels
unfolding snapshot_of new_snap_response
snapshot_of-IsWireLevel junk n symbol b j k =
    add_levels-IsWireLevel Side.buy n (reverse b.buys)
      (add_levels Side.sell n (reverse b.sells) (new_snap_response junk b.txn_id symbol))
      (All-reverse (λ (m : Level). m.0 ≤ infinity) b.buys k.buys)
      (add_levels-IsWireLevel Side.sell n (reverse b.sells) (new_snap_response junk b.txn_id symbol)
        (All-reverse (λ (m : Level). m.0 ≤ infinity) b.sells k.sells) j)

snapshot_of-IsSnapResponse :
    (junk : List WireLevel) (n : ℕ) (symbol : Text) (b : Book)
    → NoNul symbol
    → All IsWireLevel junk
    → IsSendable b
    → Carries b.txn_id (take 15 symbol) (wire_levels b) (snapshot_of junk n symbol b)
    → IsSnapResponse (snapshot_of junk n symbol b)
snapshot_of-IsSnapResponse junk n symbol b t j k c = record {
  txn_id = rw c.txn_id k.txn_id;
  n_levels = omega (arith, c.count, length-wire_levels b, k.few);
  whole = ap length c.levels ∙ length-append (wire_levels b) c.rest ∙ c.whole;
  levels = snapshot_of-IsWireLevel junk n symbol b j k;
  symbol = rw c.symbol (length-take-le 15 symbol);
  text = rw c.symbol (take-All (λ x. 0 < x) 15 symbol t);
}

msg_size-response : (m : SnapResponse) → msg_size (snap_response_bytes m) ≡ 446
unfolding msg_size snap_response_bytes
msg_size-response m = refl

-- One snapshot in the buffer of the snapshot socket.
snap_recv_cb-one :
    (m : SnapResponse) (md md' : Md) (before out : List Effect)
    → IsSnapResponse m
    → on_snapshot m md ≡ some (md', out)
    → snap_recv_cb 2 (snap_response_bytes m) 446 (md, before) ≡ finished (md', before ++ out) 0
unfolding snap_recv_cb recv_loop snap_message
snap_recv_cb-one m md md' before out v e = rw (msg_size-response m, read, nul, snap_message, e) refl
  where
    nul : has_nul (drop 430 (snap_response_bytes m)) ≡ true
    nul =
        ap (λ b. has_nul (drop 430 b)) (sym (append-nil (snap_response_bytes m)))
        ∙ has_nul-sent m [] v

    read : read_snap_response (snap_response_bytes m) 446 ≡ some m
    read =
        ap (λ b. read_snap_response b 446) (sym (append-nil (snap_response_bytes m)))
        ∙ read_snap_response-snap_response_bytes m [] 446 v (omega arith)

-- A server's book of at least one level, with at most as many levels on a side as are asked for and
-- at most 32 in all, its prices and totals fitting the message: the server answers a request for a
-- snapshot with bytes that a handler, without actions that wait for the symbol and without levels of
-- it outside the arrays, reads in one round of its loop, none left; the handler then holds on each
-- side and at each price what rests there in the server's book, has its number, and is not
-- recovering.
pub snap_recv_cb-handle_snap_request :
    (junk : List WireLevel) (client n : ℕ) (symbol : Text) (s : Server) (md : Md)
    (before : List Effect)
    → length junk ≡ 32
    → All IsWireLevel junk
    → NoNul symbol
    → let b = Engine.get_book symbol s.engine.books in
      let sy = take 15 symbol in
      IsSendable b
      → length b.sells ≤ n
      → length b.buys ≤ n
      → 0 < length b.sells + length b.buys
      → IsFinite b
      → IsNarrow b
      → IsPlain (get_book sy md.books)
      → deferred_of sy md.deferred ≡ []
      → (bytes : List ℕ) × (md' : Md) × (out : List Effect) × ((handle_snap_request junk client
            symbol n s).answers
          ≡ s.answers ++ (client, bytes) ∷ [])
        × (snap_recv_cb 2 bytes 446 (md, before) ≡ finished (md', before ++ out) 0)
        × (md'.recovering ≡ false)
        × (md'.txn_id ≡ b.txn_id)
        × IsSoundBook (get_book sy md'.books)
        × ((side : Side) (p : ℕ) → quantity side p (get_book sy md'.books) ≡ resting side p b)
unfolding handle_snap_request
snap_recv_cb-handle_snap_request junk client n symbol s md before j w t k hs hb z f g pl d =
    let b = Engine.get_book symbol s.engine.books in
    let m = snapshot_of junk n symbol b in
    let (md', out, e, r, u, sound, q) =
      on_snapshot-snapshot_of junk n symbol b md j hs hb k.few z f g pl d in
    let v =
      snapshot_of-IsSnapResponse junk n symbol b t w k
        (snapshot_of-Carries junk n symbol b j hs hb k.few) in
    (
      snap_response_bytes m,
      md',
      out,
      refl,
      snap_recv_cb-one m md md' before out v e,
      r,
      u,
      sound,
      q,
    )
