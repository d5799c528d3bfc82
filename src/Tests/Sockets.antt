-- ===== src/Tests/Sockets.antt =====
-- A socket's buffer and the event loop at small inputs.
use mathlib.Core.Option
use basicmatch.Base.{
  Bool-cases, ℕ, ◌+◌, List, [], ◌∷◌, ◌≡◌, true, false, none, some, map, arith, refl, inl, inr,
}
use basicmatch.Base.{Text, Option, codes, ◌++◌}
use basicmatch.Addr.{any_address, af_inet, new_addr, new_addr-parts}
use basicmatch.Msg.{has_msg}
use basicmatch.Recv.{Handled, Loop, advance, stop, recv_loop}
use basicmatch.Socket.{Socket, got, on_bytes, recv_cb}
use basicmatch.Recv.Ends.{IsChecking, has_msg-size}
use basicmatch.Socket.{again}
use basicmatch.Socket.Bounds.{IsInside, Rounds, no_more, round, recv_loop-Leaves, Rounds-IsInside}
use basicmatch.Events.{EventData, recv_event, listen_event, Kevent, Kqueue, watch_of, handle_events}
use basicmatch.Events.Watched.{IsServing, handle_events_total}

-- Messages are counted.
abbrev count_message : List ℕ → ℕ → ℕ → Handled ℕ
count_message buf bytes s = elim (has_msg buf bytes) [ true ↦ advance (s + 1) | false ↦ stop ]

abbrev count_cb : List ℕ → ℕ → ℕ → Loop ℕ
count_cb buf bytes s = recv_loop count_message 9 buf bytes s

abbrev socket : List ℕ → ℕ → Socket ℕ
socket pending s = record { pending = pending; user = s }

count_cb-Rounds :
    Rounds count_cb (socket [] 0) ((4 ∷ 0 ∷ 1 ∷ []) ∷ (2 ∷ 4 ∷ 0 ∷ []) ∷ []) (socket (4 ∷ 0 ∷ []) 1)
unfolding on_bytes recv_loop has_msg
count_cb-Rounds =
    round (4 ∷ 0 ∷ 1 ∷ []) (omega arith) (omega arith) refl
      (round {t = socket (4 ∷ 0 ∷ []) 1} (2 ∷ 4 ∷ 0 ∷ []) (omega arith) (omega arith) refl no_more)

count_message-IsChecking : IsChecking count_message
count_message-IsChecking buf bytes s s' e = elim (Bool-cases (has_msg buf bytes)) [
  | inl z ↦ has_msg-size buf bytes z
  | inr z ↦ absurd (cc (rw (z, count_message) at e))
]

Rounds-IsInside_example :
    IsInside (socket (4 ∷ 0 ∷ []) 1)
    × (recv_cb
          (some count_cb)
          (map got ((4 ∷ 0 ∷ 1 ∷ []) ∷ (2 ∷ 4 ∷ 0 ∷ []) ∷ []) ++ again ∷ [])
          (socket [] 0)
        ≡ some (socket (4 ∷ 0 ∷ []) 1, none))
Rounds-IsInside_example =
    Rounds-IsInside count_cb
      (λ buf n s. recv_loop-Leaves count_message count_message-IsChecking 9 buf n s) (omega arith)
      count_cb-Rounds

abbrev watched : Kqueue ℕ
watched = record {
  terminated = false;
  sockets =
      (5, record { sock = 1; cb = listen_event })
      ∷ (6, record { sock = 2; cb = recv_event })
      ∷ (7, record { sock = 3; cb = recv_event })
      ∷ [];
  user = 0;
}

abbrev count_event : EventData → ℕ → Kqueue ℕ → Kqueue ℕ
count_event d n kq = record kq { user = kq.user + 1 }

count_event-IsServing : IsServing {S = ℕ} (λ d n kq. some (count_event d n kq))
count_event-IsServing = record {
  after = count_event;
  comes_back = λ d n kq. refl;
  keeps = λ d n kq i w h. h;
}

abbrev both : List Kevent
both =
    record { ident = 6; eof = true; failed = false; errno = 0 }
    ∷ record { ident = 7; eof = false; failed = false; errno = 0 }
    ∷ []

handle_events_total_example :
    (kq : Kqueue ℕ) × (handle_events (λ d n kq. some (count_event d n kq)) both watched ≡ some kq)
    × (watch_of 7 kq.sockets ≡ some (record { sock = 3; cb = recv_event }))
unfolding watch_of
handle_events_total_example =
    handle_events_total (λ d n kq. some (count_event d n kq)) count_event-IsServing both watched 7
      (record { sock = 3; cb = recv_event }) ((refl, tt), (tt, tt))
      (
        (record { sock = 2; cb = recv_event }, refl),
        ((record { sock = 3; cb = recv_event }, refl), tt),
      )
      refl (inl refl, (inr refl, tt))

-- The address of the server, with INADDR_ANY for what is not one.
abbrev server_ip : Text → Option ℕ
server_ip s = some 3232235880

-- What inet_aton makes of the server's address.
abbrev server_address : ℕ
server_address = Option.get_or (server_ip (codes "192.168.1.104")) any_address

new_addr-parts_example :
    (new_addr server_ip (λ _. 66677) (λ p. p) (codes "192.168.1.104" ++ b':' ∷ codes "66677")
      ≡ record { s_addr = server_address; sin_port = 1141; sin_family = af_inet; port = 1141 })
    × (new_addr server_ip (λ _. 66677) (λ p. p) (codes "192.168.1.104")
        ≡ record { s_addr = server_address; sin_port = 0; sin_family = af_inet; port = 0 })
new_addr-parts_example =
    new_addr-parts server_ip (λ _. 66677) (λ p. p) (codes "192.168.1.104") (codes "66677")
      (ground arith)
