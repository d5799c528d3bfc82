-- ===== src/Engine/Conserved.antt =====
-- engine.cpp: no request makes quantity or loses it.
use mathlib.Core.Option
use basicmatch.Base.{
  ℕ, ◌+◌, ◌≡◌, ◌==◌, ◌||◌, List, [], ◌∷◌, some, All, Ensures-some, arith, refl, sum_of, Bool-cases,
  inl, inr, if◌then◌else◌,
}
use basicmatch.Types.{OrderInfo, OrderAction, submit, cancel, print_all}
use basicmatch.Engine.{Engine, Executed, execute, run, empty_engine, handle_submit, is_some}
use basicmatch.Engine.Orderly.{AreOrderly, Fits, execute-AreOrderly}
use basicmatch.Engine.Registry.Tracked.{IsTracked}
use basicmatch.Engine.Registry.Submitted.{handle_submit-IsTracked}
use basicmatch.Engine.Registry.Cancelled.{handle_cancel-IsTracked}
use basicmatch.Engine.Registry.Total.{IsRequest, empty-IsTracked}
use basicmatch.Engine.Registry.Volume.{volume, moved, Conserves, accept-Conserves}

-- The quantity that an action brings in: that of a submitted order, unless its id is known.
abbrev pub taken : OrderAction → Engine → ℕ
taken (submit o) e = if is_some (e.orders o.id) || e.completed o.id then 0 else o.qty
taken _ e = 0

handle_submit-Conserves :
    (o : OrderInfo) (e : Engine)
    → Fits (submit o)
    → AreOrderly e.books
    → Conserves (taken (submit o) e) e (handle_submit o e)
unfolding handle_submit
handle_submit-Conserves o e f q = elim (Bool-cases (is_some (e.orders o.id) || e.completed o.id)) [
  | inl k ↦ rw k (omega arith)
  | inr k ↦ elim (Bool-cases (o.qty == 0)) [
    | inl z ↦ let nothing : o.qty ≡ 0 = ground (arith, z) in rw (k, z) (omega (arith, nothing))
    | inr z ↦ rw (k, z) (accept-Conserves o e f q)
  ]
]

-- For an action whose quantity is of 16 bits, where the books are in order and the register of
-- resting orders agrees with them: the request is executed; and the quantity that rests in the books
-- after it, together with what the calls that it makes report (a trade counted for both of its
-- orders, a cancellation for its one), is the quantity that rested before together with that of the
-- order that is accepted, if it is a submission of one.
pub execute-Conserves :
    (a : OrderAction) (e : Engine)
    → IsRequest a
    → Fits a
    → AreOrderly e.books
    → IsTracked e
    → (x : Executed) × (execute a e ≡ some x)
      × IsTracked x.0
      × (volume x.0.books + sum_of moved x.1.events ≡ volume e.books + taken a e)
unfolding execute
execute-Conserves (submit o) e h f q t =
    (handle_submit o e, refl, handle_submit-IsTracked o e t, handle_submit-Conserves o e f q)
execute-Conserves (cancel id) e h f q t = handle_cancel-IsTracked id e q t
execute-Conserves print_all e h f q t = (_, refl, t, omega arith)
execute-Conserves (OrderAction.error i) e h f q t = absurd h
execute-Conserves (OrderAction.filled o) e h f q t = absurd h
execute-Conserves (OrderAction.printed o) e h f q t = absurd h

-- What a list of actions brings in, and what its calls report.
abbrev pub brought_in : List OrderAction → Engine → ℕ
brought_in [] e = 0
brought_in (a ∷ rest) e =
    taken a e + Option.get_or (Option.map (λ x. brought_in rest x.0) (execute a e)) 0

abbrev pub reported : List OrderAction → Engine → ℕ
reported [] e = 0
reported (a ∷ rest) e =
    Option.get_or (Option.map (λ x. sum_of moved x.1.events + reported rest x.0) (execute a e)) 0

run_from-volume :
    (actions : List OrderAction) (e : Engine)
    → All Fits actions
    → All IsRequest actions
    → AreOrderly e.books
    → IsTracked e
    → (e' : Engine) × (run actions e ≡ some e')
      × (volume e'.books + reported actions e ≡ volume e.books + brought_in actions e)
unfolding run Option.bind
run_from-volume [] e f h q t = (e, refl, omega arith)
run_from-volume (a ∷ rest) e f h q t =
    let (x, k, t', v) = execute-Conserves a e h.0 f.0 q t in
    let q' =
      Ensures-some (λ x. AreOrderly x.0.books) (execute a e) k (execute-AreOrderly a e f.0 q) in
    let (e', r, w) = run_from-volume rest x.0 f.1 h.1 q' t' in
    (e', rw (k, r) refl, rw k (omega (arith, v, w)))

-- For a list of requests whose quantities are of 16 bits, from the engine without books: the run is
-- defined; and the quantity that rests at its end, together with what all the calls report (a trade
-- counted for both of its orders, a cancellation for its one), is that of all the orders that were
-- accepted.
pub run-volume :
    (actions : List OrderAction)
    → All Fits actions
    → All IsRequest actions
    → (e : Engine) × (run actions empty_engine ≡ some e)
      × (volume e.books + reported actions empty_engine ≡ brought_in actions empty_engine)
run-volume actions f h =
    let (e, r, v) = run_from-volume actions empty_engine f h tt empty-IsTracked in
    (e, r, omega (arith, v))
