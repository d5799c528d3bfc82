-- ===== src/Events.antt =====
-- st_socket.cpp: the event loop, and the sockets that are put into it.
pub mod Watched
pub mod Handles
pub mod Programs
use mathlib.Core.Option
use basicmatch.Base.{
  ℕ, Bool, true, false, ◌&&◌, ◌||◌, List, [], ◌∷◌, Option, none, some, if◌then◌else◌, ◌==◌,
}

-- The callbacks that an entry may have.
pub data EventCb : Type 0 where
  recv_event listen_event : EventCb

pub record EventData : Type 0 where
  pub sock : ℕ
  pub cb : EventCb

-- An event of kevent, by its flags and data.
pub record Kevent : Type 0 where
  pub ident : ℕ
  pub eof : Bool
  pub failed : Bool
  pub errno : ℕ

-- What a wait for events returned.
pub data Waited : Type 0 where
  events : List Kevent → Waited
  interrupted : Waited
  refused : ℕ → Waited

-- The loop with the entries of its sockets by descriptor, and the state of what the callbacks use.
pub record Kqueue (S : Type 0) : Type 0 where
  pub terminated : Bool
  pub sockets : List (ℕ × EventData)
  pub user : S

unfoldable pub watch_of : ℕ → List (ℕ × EventData) → Option EventData
watch_of fd [] = none
watch_of fd ((k, d) ∷ ws) = if k == fd then some d else watch_of fd ws

unfoldable pub unwatch : ℕ → List (ℕ × EventData) → List (ℕ × EventData)
unwatch fd [] = []
unwatch fd ((k, d) ∷ ws) = let rest = unwatch fd ws in if k == fd then rest else (k, d) ∷ rest

-- sockets_[fd] = EventData(sock, cb)
unfoldable pub watch : ℕ → EventData → List (ℕ × EventData) → List (ℕ × EventData)
watch fd d [] = (fd, d) ∷ []
watch fd d ((k, e) ∷ ws) =
    let rest = watch fd d ws in if k == fd then (fd, d) ∷ ws else (k, e) ∷ rest

module _ {S : Type 0} where
  -- The entry is there whether the kernel takes the descriptor or not; that is the result.
  unfoldable pub add_socket : Bool → ℕ → EventData → Kqueue S → Kqueue S × Bool
  unfolding watch
  add_socket taken fd d kq = (record kq { sockets = watch fd d kq.sockets }, taken)

  unfoldable pub stop_loop : Kqueue S → Kqueue S
  stop_loop kq = record kq { terminated = true }

  -- An event runs the callback of the entry that its data points at. `none` is an entry that is gone,
  -- or a callback that does not come back.
  unfoldable pub handle_event :
      (EventData → ℕ → Kqueue S → Option (Kqueue S)) → Kevent → Kqueue S → Option (Kqueue S)
  unfolding watch_of unwatch Option.bind
  handle_event call e kq = Option.bind (watch_of e.ident kq.sockets) (λ d.
      if e.eof
      then Option.map (λ (k : Kqueue S). record k { sockets = unwatch e.ident k.sockets })
          (call d 1234 kq)
      else call d (if e.failed then e.errno else 0) kq)

  unfoldable pub handle_events :
      (EventData → ℕ → Kqueue S → Option (Kqueue S)) → List Kevent → Kqueue S → Option (Kqueue S)
  unfolding handle_event Option.bind
  handle_events call [] kq = some kq
  handle_events call (e ∷ es) kq = Option.bind (handle_event call e kq) (handle_events call es)

  abbrev pub is_over : Kqueue S → Bool
  is_over kq = kq.terminated || elim kq.sockets [ [] ↦ true | w ∷ ws ↦ false ]

  -- The loop over what its waits return: the state, and whether it has come to its end.
  unfoldable pub loop :
      (EventData → ℕ → Kqueue S → Option (Kqueue S))
      → List Waited
      → Kqueue S
      → Option (Kqueue S × Bool)
  unfolding handle_events Option.bind
  loop call [] kq = some (kq, is_over kq)
  loop call (events es ∷ ws) kq =
      if is_over kq then some (kq, true) else Option.bind (handle_events call es kq) (loop call ws)
  loop call (interrupted ∷ ws) kq =
      let rest = loop call ws kq in if is_over kq then some (kq, true) else rest
  loop call (refused e ∷ ws) kq = some (kq, true)

-- What the system calls of a socket's set-up return: socket's descriptor, and whether bind, connect,
-- listen, the options and kevent succeed.
pub record SetUp : Type 0 where
  pub fd : Option ℕ
  pub binds : Bool
  pub connects : Bool
  pub listens : Bool
  pub sets : Bool
  pub taken : Bool

-- TcpSocket::init: the descriptor, where it is there and bound. The other options only warn.
unfoldable pub init : SetUp → Option ℕ
init u = if u.binds then u.fd else none

module _ {S : Type 0} where
  -- TcpSocket::connect, TcpSocket::listen and UdpSocket::init_recv for the socket `sock`.
  unfoldable pub put_in : Bool → EventCb → SetUp → ℕ → Kqueue S → Kqueue S × Bool
  unfolding init add_socket
  put_in ready cb u sock kq = elim (init u) [
    | none ↦ (kq, false)
    | some fd ↦
        if ready then add_socket u.taken fd (record { sock = sock; cb = cb }) kq else (kq, false)
  ]

  unfoldable pub connect : SetUp → ℕ → Kqueue S → Kqueue S × Bool
  unfolding put_in
  connect u = put_in u.connects recv_event u

  unfoldable pub listen : SetUp → ℕ → Kqueue S → Kqueue S × Bool
  unfolding put_in
  listen u = put_in u.listens listen_event u

  unfoldable pub init_recv : SetUp → ℕ → Kqueue S → Kqueue S × Bool
  unfolding put_in
  init_recv u = put_in u.sets recv_event u

  -- TcpSocket::listen_cb. The new socket is in the loop before the callback gets it. What accept
  -- returned is closed where there is no callback.
  unfoldable pub accepted :
      Option (ℕ → Kqueue S → Option (Kqueue S)) → Bool → Option ℕ → ℕ → Kqueue S → Option (Kqueue S)
  unfolding add_socket
  accepted accept_cb taken none sock kq = some kq
  accepted none taken (some fd) sock kq = some kq
  accepted (some cb) taken (some fd) sock kq =
      cb sock (add_socket taken fd (record { sock = sock; cb = recv_event }) kq).0

  unfoldable pub listen_cb :
      Option (ℕ → Kqueue S → Option (Kqueue S))
      → Bool
      → ℕ
      → Option ℕ
      → ℕ
      → Kqueue S
      → Option (Kqueue S)
  unfolding accepted
  listen_cb accept_cb taken error new_fd sock kq =
      let next = accepted accept_cb taken new_fd sock kq in if error == 0 then next else some kq

-- UdpSocket::init_send
unfoldable pub init_send : SetUp → Bool → Bool
init_send u ttl_set = elim u.fd [ none ↦ false | some fd ↦ u.sets && ttl_set ]
