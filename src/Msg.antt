-- ===== src/Msg.antt =====
-- msg.h: the messages between the programs, as records and as their bytes.
pub mod RoundTrip
pub mod Snapshot
use mathlib.Core.Option
use basicmatch.Base.{
  ℕ, ◌+◌, ◌-◌, ◌*◌, ◌%◌, ◌^◌, Bool, true, false, ◌&&◌, List, [], ◌∷◌, ◌++◌, Option, none, some,
  Text, take, drop, ltb, leb, ◌==◌, if◌then◌else◌, set, map, length,
}
use mathlib.Core.List.{flat_map}
use basicmatch.Types.{Side}
use basicmatch.Wire.{le_bytes, field, double_bits, double_rank, fixed_str, c_string}

pub record Trade : Type 0 where
  pub txn_id : ℕ
  pub qty : ℕ
  pub price : ℕ
  pub symbol : Text

pub record Submit : Type 0 where
  pub txn_id : ℕ
  pub id : ℕ
  pub qty : ℕ
  pub price : ℕ
  pub side : ℕ
  pub symbol : Text

pub record Cancel : Type 0 where
  pub txn_id : ℕ
  pub qty : ℕ
  pub price : ℕ
  pub symbol : Text

pub record SnapRequest : Type 0 where
  pub levels : ℕ
  pub symbol : Text

-- SnapResponse::Level; the side as its byte.
pub record WireLevel : Type 0 where
  pub side : ℕ
  pub qty : ℕ
  pub price : ℕ

pub record SnapResponse : Type 0 where
  pub txn_id : ℕ
  pub n_levels : ℕ
  pub levels : List WireLevel
  pub symbol : Text

-- The enum values of `Side` as a byte.
unfoldable pub side_byte : Side → ℕ
side_byte Side.none = 0
side_byte Side.buy = b'B'
side_byte Side.sell = b'S'

abbrev pub trade_type : ℕ
trade_type = 4

abbrev pub submit_type : ℕ
submit_type = 5

abbrev pub cancel_type : ℕ
cancel_type = 6

-- SnapRequest and SnapResponse have one number.
abbrev pub snap_request_type : ℕ
snap_request_type = 7

abbrev pub snap_response_type : ℕ
snap_response_type = 7

-- MdMsg(size, type, txn_id)
unfoldable pub header : ℕ → ℕ → ℕ → List ℕ
unfolding le_bytes
header size type txn_id = le_bytes 2 size ++ le_bytes 2 type ++ le_bytes 8 txn_id

unfoldable pub trade_bytes : Trade → List ℕ
unfolding header le_bytes fixed_str double_bits
trade_bytes m =
    header 38 trade_type m.txn_id
    ++ le_bytes 2 m.qty
    ++ le_bytes 8 (double_bits m.price)
    ++ fixed_str 15 m.symbol

unfoldable pub submit_bytes : Submit → List ℕ
unfolding header le_bytes fixed_str double_bits
submit_bytes m =
    header 44 submit_type m.txn_id
    ++ le_bytes 4 m.id
    ++ le_bytes 2 m.qty
    ++ le_bytes 8 (double_bits m.price)
    ++ m.side ∷ 0 ∷ fixed_str 15 m.symbol

unfoldable pub cancel_bytes : Cancel → List ℕ
unfolding header le_bytes fixed_str double_bits
cancel_bytes m =
    header 38 cancel_type m.txn_id
    ++ le_bytes 2 m.qty
    ++ le_bytes 8 (double_bits m.price)
    ++ fixed_str 15 m.symbol

unfoldable pub snap_request_bytes : SnapRequest → List ℕ
unfolding header le_bytes fixed_str
snap_request_bytes m = header 30 snap_request_type 0 ++ le_bytes 2 m.levels ++ fixed_str 15 m.symbol

unfoldable pub level_bytes : WireLevel → List ℕ
unfolding le_bytes double_bits
level_bytes l = l.side ∷ le_bytes 4 l.qty ++ le_bytes 8 (double_bits l.price)

unfoldable pub snap_response_bytes : SnapResponse → List ℕ
unfolding header level_bytes le_bytes fixed_str
snap_response_bytes m =
    header 446 snap_response_type m.txn_id
    ++ le_bytes 2 m.n_levels
    ++ flat_map level_bytes m.levels
    ++ fixed_str 15 m.symbol

-- MdMsg::read_s and Msg::read_s: the size field is there, and says no more than there is.
unfoldable pub has_msg : List ℕ → ℕ → Bool
unfolding field
has_msg buf bytes = leb 2 bytes && leb (field 0 2 buf) bytes

-- The read_s of a message type: the type's number too. The size is not compared with the type's.
unfoldable pub has_type : ℕ → List ℕ → ℕ → Bool
unfolding has_msg field
has_type type buf bytes = has_msg buf bytes && (field 2 2 buf == type)

unfoldable pub msg_size : List ℕ → ℕ
unfolding field
msg_size = field 0 2

unfoldable pub read_trade : List ℕ → ℕ → Option Trade
unfolding has_type field double_rank c_string
read_trade buf bytes =
    if has_type trade_type buf bytes
    then some (record {
      txn_id = field 4 8 buf;
      qty = field 12 2 buf;
      price = double_rank (field 14 8 buf);
      symbol = c_string (drop 22 buf);
    })
    else none

unfoldable pub read_submit : List ℕ → ℕ → Option Submit
unfolding has_type field double_rank c_string
read_submit buf bytes =
    if has_type submit_type buf bytes
    then some (record {
      txn_id = field 4 8 buf;
      id = field 12 4 buf;
      qty = field 16 2 buf;
      price = double_rank (field 18 8 buf);
      side = field 26 1 buf;
      symbol = c_string (drop 28 buf);
    })
    else none

unfoldable pub read_cancel : List ℕ → ℕ → Option Cancel
unfolding has_type field double_rank c_string
read_cancel buf bytes =
    if has_type cancel_type buf bytes
    then some (record {
      txn_id = field 4 8 buf;
      qty = field 12 2 buf;
      price = double_rank (field 14 8 buf);
      symbol = c_string (drop 22 buf);
    })
    else none

unfoldable pub read_snap_request : List ℕ → ℕ → Option SnapRequest
unfolding has_type field c_string
read_snap_request buf bytes =
    if has_type snap_request_type buf bytes
    then some (record { levels = field 12 2 buf; symbol = c_string (drop 14 buf) })
    else none

unfoldable pub read_level : ℕ → List ℕ → WireLevel
unfolding field double_rank
read_level off buf = record {
  side = field off 1 buf;
  qty = field (off + 1) 4 buf;
  price = double_rank (field (off + 5) 8 buf);
}

unfoldable pub read_levels : ℕ → ℕ → List ℕ → List WireLevel
unfolding read_level
read_levels ℕ.zero off buf = []
read_levels (ℕ.suc n) off buf = read_level off buf ∷ read_levels n (off + 13) buf

abbrev pub max_levels : ℕ
max_levels = 32

unfoldable pub read_snap_response : List ℕ → ℕ → Option SnapResponse
unfolding has_type field read_levels c_string
read_snap_response buf bytes =
    if has_type snap_response_type buf bytes
    then some (record {
      txn_id = field 4 8 buf;
      n_levels = field 12 2 buf;
      levels = read_levels max_levels 14 buf;
      symbol = c_string (drop 430 buf);
    })
    else none

-- SnapResponse(txn_id, symbol). Nothing writes the levels: `junk` is what the memory holds.
unfoldable pub new_snap_response : List WireLevel → ℕ → Text → SnapResponse
new_snap_response junk txn_id symbol = record {
  txn_id = txn_id;
  n_levels = 0;
  levels = junk;
  symbol = take 15 symbol;
}

-- levels_[n].side_ = NONE
unfoldable pub end_levels : ℕ → List WireLevel → List WireLevel
end_levels n [] = []
end_levels ℕ.zero (l ∷ ls) = record l { side = 0 } ∷ ls
end_levels (ℕ.suc n) (l ∷ ls) = l ∷ end_levels n ls

-- The result is `false` and the message as it was when the array is full.
unfoldable pub add_level : Side → ℕ → ℕ → SnapResponse → SnapResponse × Bool
unfolding side_byte end_levels
add_level side qty price m =
    let level : WireLevel = record { side = side_byte side; qty = qty; price = price } in
    let filled = set m.levels m.n_levels level in
    let n = m.n_levels + 1 in
    if ltb m.n_levels max_levels
    then (
      record m {
        n_levels = n;
        levels = (if ltb n max_levels then end_levels n filled else filled);
      },
      true,
    )
    else (m, false)
