-- ===== src/Msg/RoundTrip.antt =====
-- A message that was sent is read back, whatever follows it.
use basicmatch.Base.{
  ℕ, ◌<◌, ◌≤◌, ◌^◌, ◌≡◌, List, ◌++◌, some, true, length, arith, ap, ◌∙◌, Text, leb,
}
use basicmatch.Types.{infinity}
use basicmatch.Wire.{le_bytes, le_value, double_bits, double_rank}
use basicmatch.Wire.Laws.{
  NoNul, le_value-le_bytes, double_rank-double_bits, double_bits-lt, c_string-fixed_str,
}
use basicmatch.Msg.{
  Trade, trade_bytes, read_trade, Cancel, cancel_bytes, read_cancel, Submit, submit_bytes,
  read_submit, SnapRequest, snap_request_bytes, read_snap_request,
}

-- The fields fit their types, and the symbol has no NUL and at most 15 bytes.
pub record IsTrade (m : Trade) : Type 0 where
  pub txn_id : m.txn_id < 2 ^ 64
  pub qty : m.qty < 2 ^ 16
  pub price : m.price ≤ infinity
  pub symbol : length m.symbol ≤ 15
  pub text : NoNul m.symbol

pub record IsCancel (m : Cancel) : Type 0 where
  pub txn_id : m.txn_id < 2 ^ 64
  pub qty : m.qty < 2 ^ 16
  pub price : m.price ≤ infinity
  pub symbol : length m.symbol ≤ 15
  pub text : NoNul m.symbol

pub record IsSubmit (m : Submit) : Type 0 where
  pub txn_id : m.txn_id < 2 ^ 64
  pub id : m.id < 2 ^ 32
  pub side : m.side < 2 ^ 8
  pub qty : m.qty < 2 ^ 16
  pub price : m.price ≤ infinity
  pub symbol : length m.symbol ≤ 15
  pub text : NoNul m.symbol

pub leb-true : (a b : ℕ) → a ≤ b → leb a b ≡ true
leb-true a b h = ground arith

-- A double is read back through its bytes.
pub rank_back : (p : ℕ) → p ≤ infinity → double_rank (le_value (le_bytes 8 (double_bits p))) ≡ p
rank_back p h =
    ap double_rank (le_value-le_bytes 8 (double_bits p) (double_bits-lt p h))
    ∙ double_rank-double_bits p h

same_trade :
    (m : Trade) {t q p : ℕ} {s : Text}
    → t ≡ m.txn_id
    → q ≡ m.qty
    → p ≡ m.price
    → s ≡ m.symbol
    → some (record { txn_id = t; qty = q; price = p; symbol = s }) ≡ some m
same_trade m et eq ep es = ground arith

same_cancel :
    (m : Cancel) {t q p : ℕ} {s : Text}
    → t ≡ m.txn_id
    → q ≡ m.qty
    → p ≡ m.price
    → s ≡ m.symbol
    → some (record { txn_id = t; qty = q; price = p; symbol = s }) ≡ some m
same_cancel m et eq ep es = ground arith

same_submit :
    (m : Submit) {t i q p d : ℕ} {s : Text}
    → t ≡ m.txn_id
    → i ≡ m.id
    → q ≡ m.qty
    → p ≡ m.price
    → d ≡ m.side
    → s ≡ m.symbol
    → some (record { txn_id = t; id = i; qty = q; price = p; side = d; symbol = s }) ≡ some m
same_submit m et ei eq ep ed es = ground arith

-- A trade that was sent is read back from its bytes, whatever bytes follow, where its fields fit
-- their types and its symbol is a text of at most 15 bytes.
pub read_trade-trade_bytes :
    (m : Trade) (rest : List ℕ) (bytes : ℕ)
    → IsTrade m
    → 38 ≤ bytes
    → read_trade (trade_bytes m ++ rest) bytes ≡ some m
unfolding read_trade trade_bytes
read_trade-trade_bytes m rest bytes v h =
    rw (leb-true 2 bytes (omega arith), leb-true 38 bytes h)
      (same_trade m (le_value-le_bytes 8 m.txn_id v.txn_id) (le_value-le_bytes 2 m.qty v.qty)
        (rank_back m.price v.price) (c_string-fixed_str 15 m.symbol rest v.symbol v.text))

-- A cancellation that was sent is read back from its bytes, whatever bytes follow, where its fields
-- fit their types and its symbol is a text of at most 15 bytes.
pub read_cancel-cancel_bytes :
    (m : Cancel) (rest : List ℕ) (bytes : ℕ)
    → IsCancel m
    → 38 ≤ bytes
    → read_cancel (cancel_bytes m ++ rest) bytes ≡ some m
unfolding read_cancel cancel_bytes
read_cancel-cancel_bytes m rest bytes v h =
    rw (leb-true 2 bytes (omega arith), leb-true 38 bytes h)
      (same_cancel m (le_value-le_bytes 8 m.txn_id v.txn_id) (le_value-le_bytes 2 m.qty v.qty)
        (rank_back m.price v.price) (c_string-fixed_str 15 m.symbol rest v.symbol v.text))

-- A new order that was sent is read back from its bytes, whatever bytes follow, where its fields fit
-- their types and its symbol is a text of at most 15 bytes.
pub read_submit-submit_bytes :
    (m : Submit) (rest : List ℕ) (bytes : ℕ)
    → IsSubmit m
    → 44 ≤ bytes
    → read_submit (submit_bytes m ++ rest) bytes ≡ some m
unfolding read_submit submit_bytes
read_submit-submit_bytes m rest bytes v h =
    rw (leb-true 2 bytes (omega arith), leb-true 44 bytes h)
      (same_submit m (le_value-le_bytes 8 m.txn_id v.txn_id) (le_value-le_bytes 4 m.id v.id)
        (le_value-le_bytes 2 m.qty v.qty) (rank_back m.price v.price) (omega arith)
        (c_string-fixed_str 15 m.symbol rest v.symbol v.text))

pub record IsSnapRequest (m : SnapRequest) : Type 0 where
  pub levels : m.levels < 2 ^ 16
  pub symbol : length m.symbol ≤ 15
  pub text : NoNul m.symbol

same_request :
    (m : SnapRequest) {l : ℕ} {s : Text}
    → l ≡ m.levels
    → s ≡ m.symbol
    → some (record { levels = l; symbol = s }) ≡ some m
same_request m el es = ground arith

pub read_snap_request-snap_request_bytes :
    (m : SnapRequest) (rest : List ℕ) (bytes : ℕ)
    → IsSnapRequest m
    → 30 ≤ bytes
    → read_snap_request (snap_request_bytes m ++ rest) bytes ≡ some m
unfolding read_snap_request snap_request_bytes
read_snap_request-snap_request_bytes m rest bytes v h =
    rw (leb-true 2 bytes (omega arith), leb-true 30 bytes h)
      (same_request m (le_value-le_bytes 2 m.levels v.levels)
        (c_string-fixed_str 15 m.symbol rest v.symbol v.text))
