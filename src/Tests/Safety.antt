-- ===== src/Tests/Safety.antt =====
-- The server's safety at small sessions.
use basicmatch.Base.{
  replicate, ℕ, suc, List, [], ◌∷◌, ◌≡◌, some, none, Text, codes, All, Ensures, arith, refl, length,
  map,
}
use basicmatch.Types.{OrderInfo, Side, OrderAction, submit, cancel}
use basicmatch.Engine.{Engine, empty_engine, run}
use basicmatch.Engine.Orderly.{AreOrderly}
use basicmatch.Engine.Registry.Tracked.{IsTracked}
use basicmatch.Engine.Registry.Total.{empty-IsTracked, run_total}
use basicmatch.Recv.{finished}
use basicmatch.Recv.Safe.{Safely}
use basicmatch.BasicMatch.{new_server, client_callback, client_recv_cb, client_accept_cb}
use basicmatch.BasicMatch.Total.{IsSafe, client_callback-Safely}
use basicmatch.Cl.Delivery.{IsLine, on_lines}
use basicmatch.Cl.{exec_s}
use basicmatch.Socket.{got, recv_cb}
use basicmatch.Cl.Streamed.{recv_cb-exec_s}
use basicmatch.BasicMatch.{Server}

abbrev ibm : Text
ibm = codes "IBM"

abbrev order : ℕ → Side → ℕ → ℕ → OrderInfo
order id side qty price = record { id = id; symbol = ibm; side = side; qty = qty; price = price }

abbrev requests : List OrderAction
requests =
    submit (order 1 Side.sell 10 100) ∷ submit (order 3 Side.buy 12 100) ∷ cancel 3 ∷ cancel 1 ∷ []

run_total_example :
    (e : Engine) × (run requests empty_engine ≡ some e) × AreOrderly e.books × IsTracked e
run_total_example =
    run_total requests (omega arith, (omega arith, (tt, (tt, tt)))) (tt, (tt, (tt, (tt, tt))))

start-IsSafe : IsSafe empty_engine
start-IsSafe = record { orderly = tt; tracked = empty-IsTracked }

abbrev served : Server
served = client_accept_cb new_server

client_callback-Safely_example : Ensures (Safely (λ s. IsSafe s.engine)) (
    client_callback
      (λ _. 0)
      (λ _. codes "1.0")
      []
      1
      9
      (4 ∷ 0 ∷ 88 ∷ 0 ∷ 7 ∷ replicate 15 0)
      5
      served)
unfolding client_accept_cb
client_callback-Safely_example =
    client_callback-Safely (λ _. 0) (λ _. codes "1.0") [] 1 9 (4 ∷ 0 ∷ 88 ∷ 0 ∷ 7 ∷ replicate 15 0)
      5 served (refl, omega arith) start-IsSafe

-- `X 5` and `P`, cut inside the first message and inside the second size field.
abbrev pieces : List (List ℕ)
pieces = (6 ∷ 0 ∷ 88 ∷ []) ∷ (32 ∷ 53 ∷ 0 ∷ 4 ∷ []) ∷ (0 ∷ 80 ∷ 0 ∷ []) ∷ []

abbrev typed : List Text
typed = codes "X 5" ∷ codes "P" ∷ []

typed-IsLine : All IsLine typed
typed-IsLine = (ground arith, (ground arith, tt))

abbrev messages : List (List ℕ)
messages = (6 ∷ 0 ∷ 88 ∷ 32 ∷ 53 ∷ 0 ∷ []) ∷ (4 ∷ 0 ∷ 80 ∷ 0 ∷ []) ∷ []

exec_s-typed : exec_s typed ≡ some messages
unfolding exec_s
exec_s-typed = refl

recv_cb-exec_s_example :
    (s' : Server) × (on_lines (λ _. 0) (λ _. codes "1.0") typed new_server ≡ finished s' 0)
    × (recv_cb
          (some (λ buf bytes s.
            client_recv_cb (λ _. 0) (λ _. codes "1.0") (suc (length buf)) buf bytes s))
          (map got pieces)
          (record { pending = []; user = new_server })
        ≡ some (record { pending = []; user = s' }, none))
    × IsSafe s'.engine
recv_cb-exec_s_example =
    recv_cb-exec_s (λ _. 0) (λ _. codes "1.0") typed messages pieces new_server typed-IsLine
      start-IsSafe exec_s-typed refl (omega arith, (omega arith, (omega arith, tt)))
