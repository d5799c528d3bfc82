-- ===== src/Lib.antt =====
-- basicmatch: an order matching server and its market data.
--
-- A client types lines (cl.cpp), which reach the server (basic_match.cpp) as messages. The server
-- parses a line (serializer.cpp) and the engine (engine.cpp) executes the action on the book of its
-- symbol (book.h): an order trades with the resting orders that it crosses, and what is left of it
-- rests. Each trade, each order that rests and each cancellation is called back with a number, and
-- goes out as a datagram (msg.h). The feed handler (md.cpp) reads the datagrams, keeps a book of
-- price levels (level_book.h) for each symbol and publishes its changes through a session
-- (ls_autobahn.cpp). When a number is missing it asks the server for a snapshot, and puts off what
-- comes until the answer is there. All of them receive through sockets (st_socket.cpp), which keep
-- the bytes that a callback leaves for the next round.
--
-- Which file models what:
--   Base         the shared names: numbers, tests, lists, maps as functions, postconditions
--   Types        types.h: Side, ActionType, OrderInfo, OrderAction
--   Book         book.h, book.cpp: Book, with its two maps as lists in the order of iteration
--   Match        engine.cpp: Engine::fill and Engine::match, with what they append and call back
--   Engine       engine.h, engine.cpp: Engine::execute, handle_submit, handle_cancel, get_book;
--                Engine/Registry is about the register of the resting orders, Engine/Used and
--                Engine/Accepted about the ids that are refused, Engine/Conserved about quantity,
--                Engine/Reports about what a request is answered with
--   Delegate     delegate.h: a bound method or nothing, and calling it
--   LevelBook    level_book.h: LevelBook<4>; `add` is add_buy and add_sell, `remove` is remove_buy
--                and remove_sell, by the side
--   Wire, Msg    msg.h: the messages as records and as bytes, and read_s
--   Serializer   serializer.h, serializer.cpp: deserialize, convert, serialize
--   Recv         the loop `while (bytes)` that every receive callback has
--   Md           md.cpp: Md, its handlers, recv_cb, snap_recv_cb, on_snapshot, levels_proc; Md/Loaded,
--                Md/Snapshots and Md/Served go from the server's book to the handler's by a
--                snapshot, and Md/Recovered is about the actions that waited for one; Md/Mirrored,
--                Md/Matched, Md/Shown, Md/Ready and Md/Followed go from an order's callbacks to the
--                handler's book, with LevelBook/Small and LevelBook/Steps for level books of at most
--                four levels a side
--   BasicMatch   basic_match.cpp: BasicMatch and Client; BasicMatch/Callbacks has on_fill, on_submit
--                and on_cancel behind the engine's delegates
--   Cl           cl.cpp: exec_s; Cl/Streamed goes from there to the server's socket
--   Socket       st_socket.h, st_socket.cpp: Socket::recv_cb and the buffer it keeps
--   Addr         st_socket.h, st_socket.cpp: SocketAddr
--   Events       st_socket.cpp: Kqueue, and the sockets that are put into it; Events/Handles has
--                closing and datagrams, Events/Programs the constructor of BasicMatch, Md::on_join
--                and the main functions
--   Session      ls_autobahn.h, ls_autobahn.cpp: session, by the parts Buffer (buffer), State (the
--                members), Branch (its branches), Packing (send, pack_vec, pack_map), Requests
--                (join, leave, stop, subscribe, call, publish, provide), Checks, Registers
--                (subscribed, registered, error), Calls (event, call_result, invoked), Handlers
--                (goodbye, clear, handle_msg) and Receive (parse_msg, recv_cb); the other modules of
--                Session are proofs
--   Tests        runs at concrete inputs
-- Match/Queue says what matching promises, and LevelBook/Refines what a level book holds, without
-- the loops and the representation of the source.
--
-- How the code is represented:
--   A price is the rank of its double among the doubles that are not NaN, so that comparing ranks is
--   comparing prices; a price that is typed cannot be NaN. -0.0 and 0.0 have one rank.
--   An iterator into a level is the address of its node, and following it (`deref`) looks the node
--   up. `none` as the result of an operation is undefined behaviour, such as an iterator that points
--   at no node, or an assertion that fails.
--   The unordered maps are functions (the ids) or lists of pairs or of books (the symbols); their
--   order of iteration, which printing all books depends on, is the order of insertion here.
--   Subtractions and counters wrap at the width of their type: sub16, next64, add32, sub32, sub64.
--   The buffer of a receive callback is the memory from the first byte that has not been used. The
--   handlers of messages are undefined where the text or the symbol of a message has no NUL in it.
--   The count of bytes in a receive loop wraps as its uint16_t does (`less`).
--   The fuel of a receive loop is a number of rounds; one more than there are messages, or than there
--   are bytes in messages that have a size, is enough.
--   The book that a callback reads is the book after the change, which has the numbers that the
--   callbacks of the source read.
--   A session's operation is an action on its state, which returns, throws with the state at the
--   throw, is undefined or runs out of fuel. A round of fuel for each byte is enough for both of
--   its loops, since an object and a size field take bytes.
-- Parameters: std::stod (`stod`), the printing of a double (`show_price`), whether the snapshot
-- socket connects (`connects`), the memory that SnapResponse leaves as it was (`junk`), the
-- results of recv, kevent and the calls that set a socket up, inet_aton, atoi and htons, what
-- msgpack does with objects and bytes (Msgpack), and the user's code behind the delegates of a
-- session (User), which may itself use the session and may throw.
--
-- Not modelled: options of a socket that only warn, and what goes to the error stream. What a socket
-- asks of the system when it is closed and when it sends a datagram is a value (SysCall), and so are
-- the publications of the feed handler (Effect). py/wsproxy.py and web/ are glue in other languages.
pub mod Base
pub mod Types
pub mod Book
pub mod Match
pub mod Delegate
pub mod Engine
pub mod LevelBook
pub mod Wire
pub mod Msg
pub mod Serializer
pub mod Session
pub mod Socket
pub mod Addr
pub mod Events
pub mod Recv
pub mod Md
pub mod BasicMatch
pub mod Cl
pub mod Tests
