-- ===== src/Tests/Messages.antt =====
-- The theorems of the messages, the lines and the receive loops at small messages.
use basicmatch.Base.{
  Bool-cases, ℕ, List, [], ◌∷◌, ◌≡◌, ◌≢◌, some, Text, codes, refl, arith, true, inl, inr,
}
use basicmatch.Types.{cancel}
use basicmatch.Msg.{has_msg}
use basicmatch.Msg.{Trade, Submit, Cancel, msg_size, read_trade, read_submit, read_cancel}
use basicmatch.Msg.RoundTrip.{IsTrade, IsSubmit, IsCancel}
use basicmatch.Serializer.{convert, deserialize}
use basicmatch.Serializer.RoundTrip.{deserialize-convert}
use basicmatch.Recv.{recv_loop, running, advance}
use basicmatch.Recv.Ends.{IsChecking, has_msg-size, recv_loop_ends, recv_loop_spins}
use basicmatch.Md.{Feed, empty_md, feed_message, recv_cb}
use basicmatch.Md.Messages.{
  FeedMsg, submitted, cancelled, all_bytes, total_size, on_messages, recv_cb-all_bytes,
}
use basicmatch.BasicMatch.{client_recv_cb, new_server}
use basicmatch.Cl.{exec_s}
use basicmatch.Cl.Delivery.{IsLine, joined, on_lines, client_recv_cb-exec_s}
use basicmatch.Cl.Delivery
use basicmatch.Msg.{SnapRequest, snap_request_bytes, snap_response_bytes}
use basicmatch.Msg.RoundTrip.{IsSnapRequest}
use basicmatch.Recv.{finished}
use basicmatch.Engine.{get_book}
use basicmatch.BasicMatch.{Server, snapshot_of, snap_request_recv_cb}
use basicmatch.BasicMatch.Requests.{snap_request_recv_cb-snap_request_bytes}

abbrev ibm : Text
ibm = codes "IBM"

abbrev a_trade : Trade
a_trade = record { txn_id = 3; qty = 12; price = 0x7ff0_0000_0000_0001; symbol = ibm }

abbrev a_submit : Submit
a_submit = record {
  txn_id = 1;
  id = 7;
  qty = 12;
  price = 0x7ff0_0000_0000_0001;
  side = 66;
  symbol = ibm;
}

abbrev a_cancel : Cancel
a_cancel = record { txn_id = 2; qty = 12; price = 0x7ff0_0000_0000_0001; symbol = ibm }

a_trade-IsTrade : IsTrade a_trade
a_trade-IsTrade = ground arith

a_submit-IsSubmit : IsSubmit a_submit
a_submit-IsSubmit = ground arith

a_cancel-IsCancel : IsCancel a_cancel
a_cancel-IsCancel = ground arith

abbrev feed : List FeedMsg
feed = submitted a_submit ∷ cancelled a_cancel ∷ []

recv_cb-all_bytes_example :
    recv_cb true 3 (all_bytes feed) (total_size feed) (empty_md, [])
    ≡ on_messages true feed (empty_md, [])
recv_cb-all_bytes_example =
    recv_cb-all_bytes true feed 3 (empty_md, []) (a_submit-IsSubmit, (a_cancel-IsCancel, tt))
      (omega arith)

feed_message-IsChecking : IsChecking (feed_message true)
unfolding feed_message read_submit read_cancel read_trade basicmatch.Msg.has_type
feed_message-IsChecking buf bytes s s' e = elim (Bool-cases (has_msg buf bytes)) [
  | inl z ↦ has_msg-size buf bytes z
  | inr z ↦ ground (arith, z, e)
]

recv_loop_ends_example : recv_loop (feed_message true) 3 (2 ∷ 0 ∷ []) 2 (empty_md, []) ≢ running
unfolding msg_size
recv_loop_ends_example =
    recv_loop_ends (feed_message true) 3 (2 ∷ 0 ∷ []) 2 (empty_md, []) feed_message-IsChecking
      (omega arith) (inr (omega arith, inl refl))

zero_size-advances : (s : Feed) → (s' : Feed) × (feed_message true (0 ∷ 0 ∷ []) 2 s ≡ advance s')
unfolding feed_message read_submit read_cancel read_trade
zero_size-advances (md, out) = ((md, out), refl)

recv_loop_spins_example : recv_loop (feed_message true) 100 (0 ∷ 0 ∷ []) 2 (empty_md, []) ≡ running
unfolding msg_size
recv_loop_spins_example =
    recv_loop_spins (feed_message true) 100 (0 ∷ 0 ∷ []) 2 (empty_md, []) (omega arith) refl
      zero_size-advances

deserialize-convert_example :
    (line : Text) × (convert (λ _. codes "1.00000") (cancel 42) ≡ some line)
    × (deserialize (λ _. 0) line ≡ (cancel 42, true))
deserialize-convert_example = deserialize-convert (λ _. 0) (λ _. codes "1.00000") 42 (omega arith)

abbrev typed : List Text
typed = codes "X 5" ∷ codes "P" ∷ []

client_recv_cb-exec_s_example :
    (ms : List (List ℕ)) × (exec_s typed ≡ some ms)
    × (client_recv_cb
          (λ _. 0)
          (λ _. codes "1.00000")
          3
          (joined ms)
          (Delivery.total_size typed)
          new_server
        ≡ on_lines (λ _. 0) (λ _. codes "1.00000") typed new_server)
client_recv_cb-exec_s_example =
    client_recv_cb-exec_s (λ _. 0) (λ _. codes "1.00000") typed 3 new_server
      (is_line_X, (is_line_P, tt)) (omega arith)
  where
    is_line_X : IsLine (codes "X 5")
    is_line_X = ground arith

    is_line_P : IsLine (codes "P")
    is_line_P = ground arith

abbrev a_request : SnapRequest
a_request = record { levels = 16; symbol = ibm }

a_request-IsSnapRequest : IsSnapRequest a_request
a_request-IsSnapRequest = ground arith

snap_request_recv_cb-snap_request_bytes_example :
    (s' : Server) × (snap_request_recv_cb [] 7 2 (snap_request_bytes a_request) 30 new_server
      ≡ finished s' 0)
    × (s'.answers
        ≡ (7, snap_response_bytes (snapshot_of [] 16 ibm (get_book ibm new_server.engine.books)))
          ∷ [])
    × (s'.sent ≡ [])
    × (s'.printed ≡ [])
snap_request_recv_cb-snap_request_bytes_example =
    snap_request_recv_cb-snap_request_bytes [] 7 a_request new_server a_request-IsSnapRequest
