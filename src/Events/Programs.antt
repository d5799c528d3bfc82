-- ===== src/Events/Programs.antt =====
-- basic_match.cpp, md.cpp and cl.cpp: how each program puts its sockets into the event loop and runs
-- it.
use basicmatch.Base.{ℕ, Bool, true, false, List, [], ◌∷◌, Option, some, Text, codes, if◌then◌else◌}
use basicmatch.Events.{
  Kqueue, EventData, SetUp, Waited, connect, listen, init_recv, init_send, loop,
}
use basicmatch.Session.State.{Msgpack, Session, Outcome, endpoint_v}
use basicmatch.Session.Requests.{leave, provide}

-- What the constructor of the server prints at its end.
pub data Started : Type 0 where
  no_order_connections no_snapshot_requests no_market_data construction_complete : Started

-- The address of the server: the first argument, if there is one.
unfoldable pub client_addr : List Text → Text
client_addr [] = codes "192.168.1.104:6677"
client_addr (arg ∷ args) = arg

abbrev pub close_realm : Text
close_realm = codes "wamp.error.close_realm"

abbrev pub levels_name : Text
levels_name = codes "com.simple_cross.levels"

module _ {S : Type 0} where
  -- The market data socket, once both acceptors listen.
  unfoldable pub open_sending : SetUp → Bool → Kqueue S × Bool → Kqueue S × Started
  unfolding init_send
  open_sending md ttl_set (kq, false) = (kq, no_snapshot_requests)
  open_sending md ttl_set (kq, true) =
      (kq, if init_send md ttl_set then construction_complete else no_market_data)

  unfoldable pub open_requests : SetUp → SetUp → Bool → ℕ → Kqueue S × Bool → Kqueue S × Started
  unfolding open_sending listen
  open_requests snap md ttl_set snap_sock (kq, false) = (kq, no_order_connections)
  open_requests snap md ttl_set snap_sock (kq, true) =
      open_sending md ttl_set (listen snap snap_sock kq)

  -- BasicMatch(listen_addr, snap_request_listen_addr, md_send_addr)
  unfoldable pub new_basic_match :
      SetUp → SetUp → SetUp → Bool → ℕ → ℕ → Kqueue S → Kqueue S × Started
  unfolding open_requests listen
  new_basic_match client snap md ttl_set client_sock snap_sock kq =
      open_requests snap md ttl_set snap_sock (listen client client_sock kq)

  -- The server's main runs the loop whether or not its sockets are there.
  unfoldable pub server_main :
      (EventData → ℕ → Kqueue S → Option (Kqueue S))
      → SetUp
      → SetUp
      → SetUp
      → Bool
      → ℕ
      → ℕ
      → List Waited
      → Kqueue S
      → Option (Kqueue S × Bool)
  unfolding new_basic_match loop
  server_main call client snap md ttl_set client_sock snap_sock waits kq =
      loop call waits (new_basic_match client snap md ttl_set client_sock snap_sock kq).0

  -- The client's main: without a connection there is no loop.
  unfoldable pub client_main :
      (EventData → ℕ → Kqueue S → Option (Kqueue S))
      → SetUp
      → ℕ
      → List Waited
      → Kqueue S
      → Option (Kqueue S × Bool)
  unfolding connect loop
  client_main call u sock waits kq =
      let (kq', connected) = connect u sock kq in
      if connected then loop call waits kq' else some (kq', true)

  -- Md::on_join: the levels are provided where the feed can be listened to, else the session is left.
  unfoldable pub on_join :
      {O C : Type 0}
      → Msgpack O
      → C
      → SetUp
      → ℕ
      → Kqueue S
      → Session C
      → Kqueue S × Outcome C (Unit {0})
  unfolding init_recv provide leave
  on_join mp levels_proc u md_sock kq s =
      let (kq', listening) = init_recv u md_sock kq in
      (
        kq',
        if listening
            then provide mp levels_name (endpoint_v levels_proc) s
            else leave mp close_realm s,
      )
