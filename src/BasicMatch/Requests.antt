-- ===== src/BasicMatch/Requests.antt =====
-- A request for a snapshot, from its bytes to the answer.
use basicmatch.Base.{
  ℕ, ◌≡◌, ◌∙◌, List, [], ◌∷◌, ◌++◌, some, ap, sym, append-nil, true, drop, arith, refl,
}
use basicmatch.Msg.{
  SnapRequest, WireLevel, snap_request_bytes, snap_response_bytes, read_snap_request, msg_size,
}
use basicmatch.Engine.{get_book}
use basicmatch.Msg.RoundTrip.{IsSnapRequest, read_snap_request-snap_request_bytes}
use basicmatch.Wire.{fixed_str, has_nul}
use basicmatch.Wire.Laws.{has_nul-fixed_str}
use basicmatch.Recv.{finished, recv_loop}
use basicmatch.BasicMatch.{
  Server, snapshot_of, handle_snap_request, request_message, snap_request_recv_cb,
}

msg_size-request : (m : SnapRequest) → msg_size (snap_request_bytes m) ≡ 30
unfolding msg_size snap_request_bytes
msg_size-request m = refl

has_nul-request : (m : SnapRequest) → has_nul (drop 14 (snap_request_bytes m)) ≡ true
unfolding snap_request_bytes
has_nul-request m =
    ap has_nul (sym (append-nil (fixed_str 15 m.symbol))) ∙ has_nul-fixed_str 15 m.symbol []

-- A request for a snapshot, well formed, is answered from its bytes: one message goes to the client
-- that asked, the bytes of a snapshot of its symbol's book with the number of levels asked for, what
-- the server sends and prints is as it was, and the loop has used all bytes.
pub snap_request_recv_cb-snap_request_bytes :
    (junk : List WireLevel) (client : ℕ) (m : SnapRequest) (s : Server)
    → IsSnapRequest m
    → (s' : Server) × (snap_request_recv_cb junk client 2 (snap_request_bytes m) 30 s
        ≡ finished s' 0)
      × (s'.answers
          ≡ s.answers
            ++ (
              client,
              snap_response_bytes
                  (snapshot_of junk m.levels m.symbol (get_book m.symbol s.engine.books)),
            )
              ∷ [])
      × (s'.sent ≡ s.sent)
      × (s'.printed ≡ s.printed)
unfolding handle_snap_request snap_request_recv_cb recv_loop request_message
snap_request_recv_cb-snap_request_bytes junk client m s v = (
  handle_snap_request junk client m.symbol m.levels s,
  rw (msg_size-request m, read, request_message, has_nul-request m) refl,
  refl,
  refl,
  refl,
)
  where
    read : read_snap_request (snap_request_bytes m) 30 ≡ some m
    read =
        ap (λ b. read_snap_request b 30) (sym (append-nil (snap_request_bytes m)))
        ∙ read_snap_request-snap_request_bytes m [] 30 v (omega arith)
