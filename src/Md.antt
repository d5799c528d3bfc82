-- ===== src/Md.antt =====
-- md.cpp: the feed handler, which keeps level books from the engine's messages, asks for a snapshot
-- when a message is missing, and publishes what changes.
pub mod Messages
pub mod Loaded
pub mod Snapshots
pub mod Recovered
pub mod Served
pub mod Mirrored
pub mod Matched
pub mod Shown
pub mod Ready
pub mod Followed
pub mod Sync
pub mod Gaps
pub mod InStep
use mathlib.Core.Option
use basicmatch.Base.{
  ℕ, ◌+◌, ◌-◌, ◌%◌, ◌^◌, Bool, true, false, not, List, [], ◌∷◌, ◌++◌, Option, none, some, Text,
  Text-discrete, ite, take, drop, ltb, ◌==◌, if◌then◌else◌, map,
}
use basicmatch.Types.{ActionType, Side, trade, price_zero}
use basicmatch.LevelBook.{
  Level, LevelBook, BookEvent, level_update, snapshot, new_level_book, clear, add, submit, trade_at,
  cancel,
}
use basicmatch.Msg.{
  WireLevel, SnapRequest, SnapResponse, Trade, Submit, Cancel, read_submit, read_cancel, read_trade,
  read_snap_response, has_msg, max_levels,
}
use basicmatch.Wire.{has_nul}
use basicmatch.Recv.{Handled, advance, stop, undefined, Loop, recv_loop}

-- An action that waits for a snapshot.
pub record Deferred : Type 0 where
  pub txn_id : ℕ
  pub action : ActionType
  pub side : Side
  pub qty : ℕ
  pub price : ℕ

pub record Md : Type 0 where
  pub txn_id : ℕ
  pub recovering : Bool
  pub deferred : List (Text × List Deferred)
  pub books : List LevelBook

-- What goes out: the publications of the session, and the calls on the snapshot socket.
pub data Effect : Type 0 where
  pub_snapshot : Text → ℕ × List (ℕ × ℕ) × List (ℕ × ℕ) → Effect
  pub_cancel : Text → ℕ → ℕ → ℕ → Effect
  pub_submit : Text → ℕ → Side → ℕ → ℕ → Effect
  pub_trade : Text → ℕ → ℕ → ℕ → Effect
  pub_recover : Bool → Effect
  send_request : SnapRequest → Effect
  close_snap : Effect

abbrev pub Stepped : Type 0
Stepped = Option (Md × List Effect)

abbrev pub empty_md : Md
empty_md = record { txn_id = 0; recovering = false; deferred = []; books = [] }

-- uint64_t subtraction.
unfoldable pub sub64 : ℕ → ℕ → ℕ
sub64 a b = (a + 2 ^ 64 - b) % 2 ^ 64

unfoldable pub find_book : Text → List LevelBook → Option LevelBook
find_book s [] = none
find_book s (b ∷ bs) = ite (Text-discrete b.symbol s) (some b) (find_book s bs)

unfoldable pub store_book : LevelBook → List LevelBook → List LevelBook
store_book b [] = b ∷ []
store_book b (c ∷ cs) = ite (Text-discrete c.symbol b.symbol) (b ∷ cs) (c ∷ store_book b cs)

unfoldable pub get_book : Text → List LevelBook → LevelBook
unfolding find_book new_level_book
get_book s bs = Option.get_or (find_book s bs) (new_level_book s)

-- deferred_actions_[symbol].emplace_back(...)
unfoldable pub defer : Text → Deferred → List (Text × List Deferred) → List (Text × List Deferred)
defer s d [] = (s, d ∷ []) ∷ []
defer s d ((k, ds) ∷ m) = ite (Text-discrete k s) ((k, ds ++ d ∷ []) ∷ m) ((k, ds) ∷ defer s d m)

unfoldable pub deferred_of : Text → List (Text × List Deferred) → List Deferred
deferred_of s [] = []
deferred_of s ((k, ds) ∷ m) = ite (Text-discrete k s) ds (deferred_of s m)

unfoldable pub drop_deferred : Text → List (Text × List Deferred) → List (Text × List Deferred)
drop_deferred s [] = []
drop_deferred s ((k, ds) ∷ m) = ite (Text-discrete k s) m ((k, ds) ∷ drop_deferred s m)

-- A slot that holds nothing is published with price 0.
unfoldable pub level_pair : Level → ℕ × ℕ
level_pair l = (l.qty, if l.qty == 0 then price_zero else l.price)

-- What a snapshot has: the number of the change before, the sells and the buys.
abbrev pub Snapshot : Type 0
Snapshot = ℕ × List (ℕ × ℕ) × List (ℕ × ℕ)

unfoldable pub vec_levels : LevelBook → Snapshot
unfolding level_pair sub64
vec_levels b = (sub64 b.book_id 1, map level_pair b.sells.slots, map level_pair b.buys.slots)

unfoldable pub on_new_levels : Bool → LevelBook → List Effect
unfolding vec_levels
on_new_levels recovering b = if recovering then [] else pub_snapshot b.symbol (vec_levels b) ∷ []

unfoldable pub on_level_update : Bool → Text → ℕ → Side → ℕ → ℕ → ActionType → List Effect
on_level_update recovering symbol id side qty price action =
    if recovering then [] else elim action [
      | ActionType.cancel ↦ pub_cancel symbol id qty price ∷ []
      | ActionType.submit ↦ pub_submit symbol id side qty price ∷ []
      | _ ↦ pub_trade symbol id qty price ∷ []
    ]

-- The callbacks of a level book.
unfoldable pub publish : Bool → LevelBook → List BookEvent → List Effect
unfolding on_new_levels on_level_update
publish recovering b [] = []
publish recovering b (level_update id side qty price action ∷ es) =
    on_level_update recovering b.symbol id side qty price action ++ publish recovering b es
publish recovering b (snapshot id ∷ es) = on_new_levels recovering b ++ publish recovering b es

-- recover(symbol), with the answer of connect().
unfoldable pub recover : Bool → Text → Md → Md × List Effect
recover connects symbol md = (
  record md { recovering = true },
  pub_recover true
      ∷ (if connects
          then send_request (record { levels = 16; symbol = take 15 symbol }) ∷ []
          else []),
)

unfoldable pub apply_action : Deferred → LevelBook → Option (LevelBook × List BookEvent)
unfolding submit cancel trade_at
apply_action d b = elim d.action [
  | ActionType.submit ↦ some (submit d.side d.price d.qty b)
  | ActionType.cancel ↦ cancel d.price d.qty b
  | _ ↦ trade_at d.price d.qty b
]

-- on_trade, on_cancel and on_submit: put off, ask for a snapshot, or change the book.
unfoldable pub on_action : Bool → Text → Deferred → Md → Stepped
unfolding sub64 defer recover get_book store_book apply_action publish
on_action connects symbol d md =
    if md.recovering
    then some (record md { deferred = defer symbol d md.deferred }, [])
    else if ltb 1 (sub64 d.txn_id md.txn_id)
    then some (recover connects symbol md)
    else Option.map
        (λ (b, es).
          (record md { txn_id = d.txn_id; books = store_book b md.books }, publish false b es))
        (apply_action d (get_book symbol md.books))

unfoldable pub on_trade : Bool → Trade → Md → Stepped
unfolding on_action
on_trade connects m =
    on_action connects m.symbol
      (record { txn_id = m.txn_id; action = trade; side = Side.none; qty = m.qty; price = m.price })

unfoldable pub on_cancel : Bool → Cancel → Md → Stepped
unfolding on_action
on_cancel connects m = on_action connects m.symbol (record {
  txn_id = m.txn_id;
  action = ActionType.cancel;
  side = Side.none;
  qty = m.qty;
  price = m.price;
})

-- (side_t)side, where only two bytes are named.
unfoldable pub byte_side : ℕ → Side
byte_side c = if c == b'B' then Side.buy else if c == b'S' then Side.sell else Side.none

unfoldable pub on_submit : Bool → Submit → Md → Stepped
unfolding on_action byte_side
on_submit connects m = on_action connects m.symbol (record {
  txn_id = m.txn_id;
  action = ActionType.submit;
  side = byte_side m.side;
  qty = m.qty;
  price = m.price;
})

-- The levels of a snapshot up to the first without a side: buys are added as such, all others as
-- sells.
unfoldable pub load_levels : Bool → List WireLevel → LevelBook → LevelBook × List Effect
unfolding add publish
load_levels r [] b = (b, [])
load_levels r (l ∷ ls) b =
    let (b', es) = add (if l.side == b'B' then Side.buy else Side.sell) l.price l.qty b in
    let (c, out) = load_levels r ls b' in
    if l.side == 0 then (b, []) else (c, publish r b' es ++ out)

-- The actions that waited, those after the snapshot alone.
unfoldable pub replay : Bool → ℕ → List Deferred → LevelBook → Option (LevelBook × List Effect)
unfolding apply_action publish Option.bind
replay r txn_id [] b = some (b, [])
replay r txn_id (d ∷ ds) b =
    let rest = replay r txn_id ds in
    if ltb txn_id d.txn_id
    then Option.bind (apply_action d b)
        (λ (b', es). Option.map (λ (c, out). (c, publish r b' es ++ out)) (rest b'))
    else rest b

unfoldable pub on_snapshot : SnapResponse → Md → Stepped
unfolding get_book store_book clear load_levels replay deferred_of drop_deferred on_new_levels
on_snapshot m md =
    let r = md.recovering in
    let (loaded, before) = load_levels r m.levels (clear (get_book m.symbol md.books)) in
    Option.map
      (λ (b, after). (
        record {
          txn_id = m.txn_id;
          recovering = false;
          deferred = drop_deferred m.symbol md.deferred;
          books = store_book b md.books;
        },
        before ++ after ++ close_snap ∷ on_new_levels false b,
      ))
      (replay r m.txn_id (deferred_of m.symbol md.deferred) loaded)

-- The publications of a step are appended to those before it.
abbrev pub Feed : Type 0
Feed = Md × List Effect

abbrev pub handled : List Effect → Stepped → Handled Feed
handled out none = undefined
handled out (some (md, more)) = advance (md, out ++ more)

-- A message with its symbol at an offset. The size of a message is not compared with that of its type,
-- so a symbol without a NUL is read past the memory, and so are the fields where the memory ends
-- before the symbol.
abbrev pub inside : ℕ → List ℕ → Handled Feed → Handled Feed
inside off buf h = if has_nul (drop off buf) then h else undefined

-- The body of `recv_cb`: the types in turn, then any other message that is complete.
unfoldable pub feed_message : Bool → List ℕ → ℕ → Feed → Handled Feed
feed_message connects buf bytes (md, out) = elim (read_submit buf bytes) [
  | some m ↦ inside 28 buf (handled out (on_submit connects m md))
  | none ↦ elim (read_cancel buf bytes) [
    | some m ↦ inside 22 buf (handled out (on_cancel connects m md))
    | none ↦ elim (read_trade buf bytes) [
      | some m ↦ inside 22 buf (handled out (on_trade connects m md))
      | none ↦ if has_msg buf bytes then advance (md, out) else stop
    ]
  ]
]

unfoldable pub recv_cb : Bool → ℕ → List ℕ → ℕ → Feed → Loop Feed
recv_cb connects = recv_loop (feed_message connects)

-- The body of `snap_recv_cb`.
unfoldable pub snap_message : List ℕ → ℕ → Feed → Handled Feed
snap_message buf bytes (md, out) = elim (read_snap_response buf bytes) [
  | some m ↦ inside 430 buf (handled out (on_snapshot m md))
  | none ↦ if has_msg buf bytes then advance (md, out) else stop
]

unfoldable pub snap_recv_cb : ℕ → List ℕ → ℕ → Feed → Loop Feed
unfolding recv_loop snap_message
snap_recv_cb = recv_loop snap_message

-- levels_proc: nothing for an unknown symbol or while recovering.
unfoldable pub levels_proc : Text → Md → Option Snapshot
unfolding find_book vec_levels
levels_proc symbol md =
    if md.recovering then none else Option.map vec_levels (find_book symbol md.books)
