-- ===== src/Tests/Recovery.antt =====
-- The end of a recovery at a small book.
use mathlib.Core.Option
use basicmatch.Base.{
  ℕ, zero, suc, ◌+◌, ◌<◌, ◌≡◌, ◌++◌, List, [], ◌∷◌, Text, codes, refl, arith, true, false, All,
  replicate, length, take,
}
use basicmatch.Types.{Side, OrderInfo, ActionType}
use basicmatch.Book.{Node, Book}
use basicmatch.Msg.{WireLevel, SnapResponse}
use basicmatch.Msg.Snapshot.{IsWireLevel}
use basicmatch.LevelBook.{LevelBook, submit}
use basicmatch.LevelBook.Refines.{IsSoundBook, quantity}
use basicmatch.Recv.{finished}
use basicmatch.Engine
use basicmatch.BasicMatch.{Server, new_server, handle_snap_request}
use basicmatch.BasicMatch.Snapshot.{resting}
use basicmatch.Md.{Md, Deferred, Effect, empty_md, get_book, snap_recv_cb}
use basicmatch.Md.Snapshots.{IsNarrow}
use basicmatch.Md.Recovered.{loaded}
use basicmatch.Md.Served.{IsSendable, snap_recv_cb-handle_snap_request}

abbrev ibm : Text
ibm = codes "IBM"

abbrev entered : ℕ → ℕ → ℕ → Deferred
entered txn_id qty price = record {
  txn_id = txn_id;
  action = ActionType.submit;
  side = Side.buy;
  qty = qty;
  price = price;
}

abbrev level : ℕ → ℕ → ℕ → WireLevel
level side qty price = record { side = side; qty = qty; price = price }

-- A buy of 14 at 98, and three orders that waited for it.
abbrev response : SnapResponse
response = record {
  txn_id = 2;
  n_levels = 1;
  levels = level b'B' 14 98 ∷ level 0 0 0 ∷ [];
  symbol = ibm;
}

abbrev waiting : Md
waiting = record {
  txn_id = 0;
  recovering = true;
  deferred = (ibm, entered 2 5 97 ∷ entered 3 6 97 ∷ []) ∷ [];
  books = [];
}

abbrev book_of_the_rest : LevelBook
book_of_the_rest = (submit Side.buy 97 6 (loaded response waiting)).0

abbrev order : ℕ → Side → ℕ → ℕ → OrderInfo
order id side qty price = record { id = id; symbol = ibm; side = side; qty = qty; price = price }

abbrev node : ℕ → OrderInfo → Node
node ref o = record { ref = ref; order = o }

abbrev book : Book
book = record {
  symbol = ibm;
  txn_id = 5;
  sells =
      (99, node 0 (order 1 Side.sell 5 99) ∷ [])
      ∷ (100, node 1 (order 2 Side.sell 10 100) ∷ [])
      ∷ [];
  buys = (98, node 2 (order 3 Side.buy 7 98) ∷ node 3 (order 4 Side.buy 7 98) ∷ []) ∷ [];
}

book-IsNarrow : IsNarrow book
book-IsNarrow Side.none p = ground arith
book-IsNarrow Side.buy p = ground arith
book-IsNarrow Side.sell p = ground arith

book-IsSendable : IsSendable book
book-IsSendable = record {
  txn_id = omega arith;
  sells = (omega arith, (omega arith, tt));
  buys = (omega arith, tt);
  few = omega arith;
}

abbrev server : Server
server = record new_server { engine = record (new_server.engine) { books = book ∷ [] } }

abbrev junk : List WireLevel
junk = replicate 32 (level 0 0 0)

junk-IsWireLevel : (n : ℕ) → All IsWireLevel (replicate n (level 0 0 0))
junk-IsWireLevel zero = tt
junk-IsWireLevel (suc n) =
    (record { side = omega arith; qty = omega arith; price = omega arith }, junk-IsWireLevel n)

snap_recv_cb-handle_snap_request_example :
    (bytes : List ℕ) × (md' : Md) × (out : List Effect) × ((handle_snap_request junk 1 ibm 16
        server).answers
      ≡ (1, bytes) ∷ [])
    × (snap_recv_cb 2 bytes 446 (empty_md, []) ≡ finished (md', out) 0)
    × (md'.recovering ≡ false)
    × (md'.txn_id ≡ 5)
    × IsSoundBook (get_book ibm md'.books)
    × ((side : Side) (p : ℕ) → quantity side p (get_book ibm md'.books) ≡ resting side p book)
unfolding basicmatch.Engine.get_book get_book basicmatch.LevelBook.new_level_book
    basicmatch.Base.Text-discrete basicmatch.Md.deferred_of
snap_recv_cb-handle_snap_request_example =
    snap_recv_cb-handle_snap_request junk 1 16 ibm server empty_md [] refl (junk-IsWireLevel 32)
      (omega arith, (omega arith, (omega arith, tt))) book-IsSendable (omega arith) (omega arith)
      (omega arith) ((refl, (refl, tt)), (refl, tt)) book-IsNarrow (refl, refl) refl
