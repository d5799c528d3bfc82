-- ===== src/BasicMatch.antt =====
-- basic_match.cpp: the matching server, which turns lines into actions, sends the
-- engine's callbacks as market data, and answers requests for a snapshot.
pub mod Lines
pub mod Callbacks
pub mod Requests
pub mod Snapshot
pub mod Total
use mathlib.Core.Option
use mathlib.Core.List.{reverse}
use basicmatch.Base.{
  ℕ, ◌+◌, ◌%◌, ◌^◌, Bool, true, false, List, [], ◌∷◌, ◌++◌, Option, none, some, Text, IdMap, put,
  erase, empty_map, if◌then◌else◌, map, drop, take, length,
}
use basicmatch.Types.{Side, OrderInfo, OrderAction}
use basicmatch.Book.{Node, Levels, Book}
use basicmatch.Match.{Event, fill_event, submit_event, cancel_event}
use basicmatch.Engine.{Engine, Output, Executed, execute, get_book, store_book, empty_engine}
use basicmatch.Serializer.{deserialize, serialize, convert}
use basicmatch.Wire.{has_nul, le_bytes, c_string}
use basicmatch.LevelBook.{add32}
use basicmatch.Msg.{
  Trade, Submit, Cancel, SnapResponse, WireLevel, trade_bytes, submit_bytes, cancel_bytes,
  side_byte, new_snap_response, add_level, snap_response_bytes, read_snap_request, has_msg,
}
use basicmatch.Recv.{Handled, advance, stop, undefined, Loop, recv_loop}

-- The server with the datagrams it has sent, the lines it has printed, and the answers it has sent
-- to clients.
pub record Server : Type 0 where
  pub engine : Engine
  pub next_client : ℕ
  pub clients : IdMap Bool
  pub sent : List (List ℕ)
  pub printed : List Text
  pub answers : List (ℕ × List ℕ)

abbrev pub new_server : Server
new_server = record {
  engine = empty_engine;
  next_client = 1;
  clients = empty_map;
  sent = [];
  printed = [];
  answers = [];
}

-- The message that on_fill, on_submit or on_cancel makes, as the bytes of the datagram.
unfoldable pub event_bytes : Event → List ℕ
unfolding trade_bytes submit_bytes cancel_bytes side_byte
event_bytes (fill_event symbol txn_id qty price) =
    trade_bytes (record { txn_id = txn_id; qty = qty; price = price; symbol = symbol })
event_bytes (submit_event symbol txn_id id side qty price) = submit_bytes (record {
  txn_id = txn_id;
  id = id;
  qty = qty;
  price = price;
  side = side_byte side;
  symbol = symbol;
})
event_bytes (cancel_event symbol txn_id qty price) =
    cancel_bytes (record { txn_id = txn_id; qty = qty; price = price; symbol = symbol })

-- add_conn: a client is kept with whether it asks for snapshots.
unfoldable pub add_conn : Bool → Server → Server
add_conn is_snap_request s = record s {
  next_client = (s.next_client + 1) % 2 ^ 32;
  clients = put s.next_client is_snap_request s.clients;
}

-- A connection that one of the two acceptors has taken.
unfoldable pub client_accept_cb : Server → Server
unfolding add_conn
client_accept_cb s = add_conn false s

unfoldable pub snap_request_accept_cb : Server → Server
unfolding add_conn
snap_request_accept_cb s = add_conn true s

unfoldable pub remove_client : ℕ → Server → Server
remove_client id s = record s { clients = erase id s.clients }

-- The orders of a level added up, as a uint32_t.
unfoldable pub level_total : ℕ → List Node → ℕ
unfolding add32
level_total acc [] = acc
level_total acc (n ∷ ns) = level_total (add32 acc n.order.qty) ns

-- The first `levels` levels of a range, each into the message.
unfoldable pub add_levels : Side → ℕ → Levels → SnapResponse → SnapResponse
unfolding level_total add_level
add_levels side ℕ.zero ls m = m
add_levels side (ℕ.suc n) [] m = m
add_levels side (ℕ.suc n) ((p, l) ∷ ls) m =
    add_levels side n ls (add_level side (level_total 0 l) p m).0

-- Both loops run from rbegin(): the last levels of the maps come first.
unfoldable pub snapshot_of : List WireLevel → ℕ → Text → Book → SnapResponse
unfolding add_levels new_snap_response
snapshot_of junk levels symbol b =
    add_levels Side.buy levels (reverse b.buys)
      (add_levels Side.sell levels (reverse b.sells) (new_snap_response junk b.txn_id symbol))

unfoldable pub handle_snap_request : List WireLevel → ℕ → Text → ℕ → Server → Server
unfolding snapshot_of get_book store_book snap_response_bytes
handle_snap_request junk client symbol levels s =
    let b = get_book symbol s.engine.books in
    record s {
      engine = record (s.engine) { books = store_book b s.engine.books };
      answers = s.answers ++ (client, snap_response_bytes (snapshot_of junk levels symbol b)) ∷ [];
    }

module _ (stod : Text → ℕ) (show_price : ℕ → Text) where
  -- The lines of the answer, with the engine and its callbacks. `none` is what `execute` and
  -- `convert` leave undefined.
  unfoldable pub action : Text → Engine → Option (Engine × List Text × List Event)
  unfolding deserialize serialize convert execute Option.bind
  action line e =
      let (a, ok) = deserialize stod line in
      if ok
      then Option.bind (execute a e) (λ (e', out).
        Option.map (λ lines. (e', lines, out.events)) (serialize show_price out.results))
      else Option.map (λ text. (e, text ∷ [], [])) (convert show_price a)

  -- What the server does with a line: the answer is printed, and the callbacks are sent.
  unfoldable pub handle_text : Text → Server → Option Server
  unfolding action event_bytes
  handle_text line s =
      Option.map
        (λ (e, lines, events). record s {
          engine = e;
          sent = s.sent ++ map event_bytes events;
          printed = s.printed ++ lines;
        })
        (action line s.engine)

  -- The text of a message is a line.
  unfoldable pub handle_msg : List ℕ → Server → Option Server
  unfolding handle_text c_string
  handle_msg buf s = handle_text (c_string (drop 2 buf)) s

  abbrev pub handled : Option Server → Handled Server
  handled none = undefined
  handled (some s) = advance s

  -- The body of Client::recv_cb. A text without a NUL is read past the memory.
  unfoldable pub client_message : List ℕ → ℕ → Server → Handled Server
  unfolding handle_msg has_msg has_nul
  client_message buf bytes s =
      if has_msg buf bytes
      then (if has_nul (drop 2 buf) then handled (handle_msg buf s) else undefined)
      else stop

  unfoldable pub client_recv_cb : ℕ → List ℕ → ℕ → Server → Loop Server
  unfolding recv_loop client_message
  client_recv_cb = recv_loop client_message

-- The body of Client::snap_request_recv_cb. The symbol is the last field of a request, at byte 14;
-- the size of the message is not compared with that of a request, and a symbol without a NUL is read
-- past the memory.
unfoldable pub request_message : List WireLevel → ℕ → List ℕ → ℕ → Server → Handled Server
unfolding has_nul
request_message junk client buf bytes s = elim (read_snap_request buf bytes) [
  | some m ↦
      if has_nul (drop 14 buf)
      then advance (handle_snap_request junk client m.symbol m.levels s)
      else undefined
  | none ↦ if has_msg buf bytes then advance s else stop
]

unfoldable pub snap_request_recv_cb : List WireLevel → ℕ → ℕ → List ℕ → ℕ → Server → Loop Server
unfolding recv_loop request_message
snap_request_recv_cb junk client = recv_loop (request_message junk client)

-- The callback of a client's socket is chosen when it connects. Without the client there is no
-- socket, and no callback.
module _ (stod : Text → ℕ) (show_price : ℕ → Text) (junk : List WireLevel) where
  unfoldable pub client_callback : ℕ → ℕ → List ℕ → ℕ → Server → Option (Loop Server)
  unfolding client_recv_cb snap_request_recv_cb
  client_callback client fuel buf bytes s = elim (s.clients client) [
    | none ↦ none
    | some true ↦ some (snap_request_recv_cb junk client fuel buf bytes s)
    | some false ↦ some (client_recv_cb stod show_price fuel buf bytes s)
  ]
