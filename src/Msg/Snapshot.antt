-- ===== src/Msg/Snapshot.antt =====
-- msg.h: a snapshot that was sent is read back, the levels past its end among it.
use mathlib.Core.List.{flat_map}
use basicmatch.Base.{
  ℕ, zero, suc, ◌+◌, ◌*◌, ◌<◌, ◌≤◌, ◌^◌, ◌≡◌, List, [], ◌∷◌, ◌++◌, some, true, length, take, drop,
  All, arith, refl, ap, ◌∙◌, sym, append_assoc, drop-append, Text,
}
use basicmatch.Types.{infinity}
use basicmatch.Wire.{has_nul, le_value, double_rank, field, fixed_str, c_string}
use basicmatch.Wire.Laws.{has_nul-fixed_str, NoNul, le_value-le_bytes, c_string-fixed_str}
use basicmatch.Msg.{
  WireLevel, SnapResponse, level_bytes, snap_response_bytes, read_level, read_levels,
  read_snap_response, has_type, snap_response_type,
}
use basicmatch.Msg.RoundTrip.{leb-true, rank_back}

pub record IsWireLevel (l : WireLevel) : Type 0 where
  pub side : l.side < 2 ^ 8
  pub qty : l.qty < 2 ^ 32
  pub price : l.price ≤ infinity

pub record IsSnapResponse (m : SnapResponse) : Type 0 where
  pub txn_id : m.txn_id < 2 ^ 64
  pub n_levels : m.n_levels < 2 ^ 16
  pub whole : length m.levels ≡ 32
  pub levels : All IsWireLevel m.levels
  pub symbol : length m.symbol ≤ 15
  pub text : NoNul m.symbol

drop-nil : (n : ℕ) (xs : List ℕ) → xs ≡ [] → drop n xs ≡ []
drop-nil zero xs e = e
drop-nil (suc n) [] e = refl
drop-nil (suc n) (x ∷ xs) e = cc

drop-drop : (n a b : ℕ) (xs : List ℕ) → n ≡ a + b → drop n xs ≡ drop b (drop a xs)
drop-drop n zero b xs e = ap (λ k. drop k xs) (omega (arith, e))
drop-drop n (suc a) b [] e = drop-nil n [] refl ∙ sym (drop-nil b [] refl)
drop-drop zero (suc a) b (x ∷ xs) e = absurd (omega (arith, e))
drop-drop (suc n) (suc a) b (x ∷ xs) e = drop-drop n a b xs (omega (arith, e))

same_level :
    (l : WireLevel) {s q p : ℕ}
    → s ≡ l.side
    → q ≡ l.qty
    → p ≡ l.price
    → record { side = s; qty = q; price = p } ≡ l
same_level l es eq ep = ground arith

read_level-level_bytes :
    (l : WireLevel) (off : ℕ) (buf tail : List ℕ)
    → drop off buf ≡ level_bytes l ++ tail
    → IsWireLevel l
    → read_level off buf ≡ l
unfolding read_level level_bytes field
read_level-level_bytes l off buf tail e v =
    same_level l (ap (λ d. le_value (take 1 d)) e ∙ unfold le_value in omega arith)
      (ap (λ d. le_value (take 4 d)) (drop-drop (off + 1) off 1 buf refl ∙ ap (drop 1) e)
        ∙ le_value-le_bytes 4 l.qty v.qty)
      (ap (λ d. double_rank (le_value (take 8 d)))
          (drop-drop (off + 5) off 5 buf refl ∙ ap (drop 5) e)
        ∙ rank_back l.price v.price)

read_levels-level_bytes :
    (ls : List WireLevel) (off : ℕ) (buf tail : List ℕ)
    → drop off buf ≡ flat_map level_bytes ls ++ tail
    → All IsWireLevel ls
    → read_levels (length ls) off buf ≡ ls
unfolding read_levels flat_map
read_levels-level_bytes [] off buf tail e v = refl
read_levels-level_bytes (l ∷ ls) off buf tail e v =
    let more = flat_map level_bytes ls ++ tail in
    let here : drop off buf ≡ level_bytes l ++ more =
      e ∙ append_assoc (level_bytes l) (flat_map level_bytes ls) tail in
    let after : drop 13 (level_bytes l ++ more) ≡ more = unfold level_bytes in refl in
    let next : drop (off + 13) buf ≡ more =
      drop-drop (off + 13) off 13 buf refl ∙ ap (drop 13) here ∙ after in
    let rest = read_levels-level_bytes ls (off + 13) buf tail next v.1 in
    rw (read_level-level_bytes l off buf more here v.0) (ap (◌∷◌ l) rest)

length-levels : (ls : List WireLevel) → length (flat_map level_bytes ls) ≡ 13 * length ls
unfolding flat_map level_bytes
length-levels [] = omega arith
length-levels (l ∷ ls) = omega (arith, length-levels ls)

same_response :
    (m : SnapResponse) {t n : ℕ} {ls : List WireLevel} {s : Text}
    → t ≡ m.txn_id
    → n ≡ m.n_levels
    → ls ≡ m.levels
    → s ≡ m.symbol
    → some (record { txn_id = t; n_levels = n; levels = ls; symbol = s }) ≡ some m
same_response m et en el es = ground arith

module _ (m : SnapResponse) (rest : List ℕ) where
  abbrev sent : List ℕ
  sent = snap_response_bytes m ++ rest

  drop-sent : drop 14 sent ≡ flat_map level_bytes m.levels ++ (fixed_str 15 m.symbol ++ rest)
  unfolding snap_response_bytes
  drop-sent = append_assoc (flat_map level_bytes m.levels) (fixed_str 15 m.symbol) rest

  has_type-sent : (bytes : ℕ) → 446 ≤ bytes → has_type snap_response_type sent bytes ≡ true
  unfolding has_type snap_response_bytes
  has_type-sent bytes h = rw (leb-true 2 bytes (omega arith), leb-true 446 bytes h) refl

  levels-sent : IsSnapResponse m → read_levels 32 14 sent ≡ m.levels
  levels-sent v =
      ap (λ k. read_levels k 14 sent) (sym v.whole)
      ∙ read_levels-level_bytes m.levels 14 sent (fixed_str 15 m.symbol ++ rest) drop-sent v.levels

  symbol_at-sent : IsSnapResponse m → drop 430 sent ≡ fixed_str 15 m.symbol ++ rest
  symbol_at-sent v =
      let levels = flat_map level_bytes m.levels in
      let behind = fixed_str 15 m.symbol ++ rest in
      let size : 416 ≡ length levels = omega (arith, length-levels m.levels, v.whole) in
      drop-drop 430 14 416 sent refl
      ∙ ap (drop 416) drop-sent
      ∙ ap (λ k. drop k (levels ++ behind)) size
      ∙ drop-append levels behind

  pub has_nul-sent : IsSnapResponse m → has_nul (drop 430 sent) ≡ true
  has_nul-sent v = ap has_nul (symbol_at-sent v) ∙ has_nul-fixed_str 15 m.symbol rest

  symbol-sent : IsSnapResponse m → c_string (drop 430 sent) ≡ m.symbol
  symbol-sent v =
      ap c_string (symbol_at-sent v) ∙ c_string-fixed_str 15 m.symbol rest v.symbol v.text

  txn_id-sent : IsSnapResponse m → field 4 8 sent ≡ m.txn_id
  unfolding snap_response_bytes field
  txn_id-sent v = le_value-le_bytes 8 m.txn_id v.txn_id

  n_levels-sent : IsSnapResponse m → field 12 2 sent ≡ m.n_levels
  unfolding snap_response_bytes field
  n_levels-sent v = le_value-le_bytes 2 m.n_levels v.n_levels

-- A snapshot that was sent is read back from its bytes, whatever bytes follow, where its fields fit
-- their types, it has the 32 levels of its array, and its symbol is a text of at most 15 bytes.
pub read_snap_response-snap_response_bytes :
    (m : SnapResponse) (rest : List ℕ) (bytes : ℕ)
    → IsSnapResponse m
    → 446 ≤ bytes
    → read_snap_response (snap_response_bytes m ++ rest) bytes ≡ some m
unfolding read_snap_response
read_snap_response-snap_response_bytes m rest bytes v h = rw (has_type-sent m rest bytes h) (
    same_response m (txn_id-sent m rest v) (n_levels-sent m rest v) (levels-sent m rest v)
      (symbol-sent m rest v))
