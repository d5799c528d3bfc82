-- ===== src/Engine/Registry/Total.antt =====
-- Every request is defined: the engine never follows an address that leads nowhere.
use mathlib.Core.Option
use basicmatch.Base.{◌≡◌, List, [], ◌∷◌, some, All, Ensures-some, refl}
use basicmatch.Types.{OrderAction, submit, cancel, print_all}
use basicmatch.Engine.{Engine, Executed, execute, run, empty_engine, handle_submit}
use basicmatch.Engine.Orderly.{AreOrderly, Fits, execute-AreOrderly}
use basicmatch.Engine.Registry.Tracked.{IsTracked}
use basicmatch.Engine.Registry.Submitted.{handle_submit-IsTracked}
use basicmatch.Engine.Registry.Cancelled.{handle_cancel-IsTracked}

-- The actions that `execute` does not assert against.
abbrev pub IsRequest : OrderAction → Type 0
IsRequest (submit o) = Unit
IsRequest (cancel id) = Unit
IsRequest print_all = Unit
IsRequest _ = ⊥

pub execute_total :
    (a : OrderAction) (e : Engine)
    → IsRequest a
    → AreOrderly e.books
    → IsTracked e
    → (x : Executed) × (execute a e ≡ some x) × IsTracked x.0
unfolding execute
execute_total (submit o) e h q t = (handle_submit o e, refl, handle_submit-IsTracked o e t)
execute_total (cancel id) e h q t =
    let (x, k, t', v) = handle_cancel-IsTracked id e q t in (x, k, t')
execute_total print_all e h q t = (_, refl, t)
execute_total (OrderAction.error i) e h q t = absurd h
execute_total (OrderAction.filled o) e h q t = absurd h
execute_total (OrderAction.printed o) e h q t = absurd h

pub run_from_total :
    (actions : List OrderAction) (e : Engine)
    → All Fits actions
    → All IsRequest actions
    → AreOrderly e.books
    → IsTracked e
    → (e' : Engine) × (run actions e ≡ some e') × AreOrderly e'.books × IsTracked e'
unfolding run Option.bind
run_from_total [] e f h q t = (e, refl, q, t)
run_from_total (a ∷ rest) e f h q t =
    let (x, k, t') = execute_total a e h.0 q t in
    let q' =
      Ensures-some (λ x. AreOrderly x.0.books) (execute a e) k (execute-AreOrderly a e f.0 q) in
    let (e', r, q'', t'') = run_from_total rest x.0 f.1 h.1 q' t' in (e', rw (k, r) refl, q'', t'')

pub empty-IsTracked : IsTracked empty_engine
empty-IsTracked = record {
  homes = tt;
  distinct = tt;
  counted = λ i r. refl;
  injective = λ i j r p q. cc;
  fresh = λ i r p. cc;
}

-- Any list of requests whose quantities are of 16 bits can be executed from the start, one after the
-- other, without undefined behaviour; at the end the books are in order, each registered id has
-- exactly one resting order, at the address that is registered and in the book, on the side and at
-- the price that it names, and no other order rests.
pub run_total :
    (actions : List OrderAction)
    → All Fits actions
    → All IsRequest actions
    → (e : Engine) × (run actions empty_engine ≡ some e) × AreOrderly e.books × IsTracked e
run_total actions f h = run_from_total actions empty_engine f h tt empty-IsTracked
