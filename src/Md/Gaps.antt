-- ===== src/Md/Gaps.antt =====
-- The feed handler at a gap in the numbers of the messages: what comes after waits for a snapshot.
use mathlib.Core.Option
use basicmatch.Base.{
  ◌<◌, ◌≡◌, ◌∙◌, Bool, true, false, List, [], ◌∷◌, ◌++◌, some, Text, arith, refl, sym, append_assoc,
  append-nil, ltb, ap, take, if◌then◌else◌,
}
use basicmatch.Md.{
  pub_recover, send_request, Md, Deferred, sub64, defer, deferred_of, recover, on_action,
}
use basicmatch.Md.Sync.{on_actions}

deferred_of-defer :
    (s : Text) (d : Deferred) (m : List (Text × List Deferred))
    → deferred_of s (defer s d m) ≡ deferred_of s m ++ d ∷ []
unfolding deferred_of defer
deferred_of-defer s d [] = ground arith
deferred_of-defer s d ((k, ds) ∷ m) = ground (arith, deferred_of-defer s d m)

-- Where a handler ended that put actions off: nothing has changed but what waits.
abbrev Waits : Text → List Deferred → Md → Md → Type 0
Waits s ds md md' =
    (md'.recovering ≡ true)
    × (md'.txn_id ≡ md.txn_id)
    × (md'.books ≡ md.books)
    × (deferred_of s md'.deferred ≡ deferred_of s md.deferred ++ ds)

on_action-waits :
    (connects : Bool) (s : Text) (d : Deferred) (md : Md)
    → md.recovering ≡ true
    → on_action connects s d md ≡ some (record md { deferred = defer s d md.deferred }, [])
unfolding on_action
on_action-waits connects s d md r = rw r refl

waiting :
    (connects : Bool) (s : Text) (ds : List Deferred) (md : Md)
    → md.recovering ≡ true
    → (md' : Md) × (on_actions connects s ds md ≡ some (md', [])) × Waits s ds md md'
unfolding on_actions Option.bind
waiting connects s [] md r =
    (md, refl, (r, refl, refl, sym (append-nil (deferred_of s md.deferred))))
waiting connects s (d ∷ ds) md r =
    let next : Md = record md { deferred = defer s d md.deferred } in
    let (md', e, w) = waiting connects s ds next r in
    (
      md',
      rw (on_action-waits connects s d md r, e) refl,
      (
        w.0,
        w.1,
        w.2,
        w.3
            ∙ ap (λ x. x ++ ds) (deferred_of-defer s d md.deferred)
            ∙ append_assoc (deferred_of s md.deferred) (d ∷ []) ds,
      ),
    )

-- Where a handler is not recovering and the number of an action is more than one ahead, it publishes
-- that it recovers and, where its connection to the server comes up, asks once for a snapshot of 16
-- levels of the action's symbol, and for nothing more while other actions follow; its books and its number stay as they were, and the actions of the symbol that come
-- behind that action wait in the order in which they came.
pub on_actions-gap :
    (connects : Bool) (s : Text) (d : Deferred) (ds : List Deferred) (md : Md)
    → md.recovering ≡ false
    → 1 < sub64 d.txn_id md.txn_id
    → (md' : Md) × (on_actions connects s (d ∷ ds) md
        ≡ some (
          md',
          pub_recover true
              ∷ (if connects
                  then send_request (record { levels = 16; symbol = take 15 s }) ∷ []
                  else []),
        ))
      × (md'.recovering ≡ true)
      × (md'.txn_id ≡ md.txn_id)
      × (md'.books ≡ md.books)
      × (deferred_of s md'.deferred ≡ deferred_of s md.deferred ++ ds)
unfolding on_actions on_action recover Option.bind
on_actions-gap connects s d ds md r g =
    let (md', e, w) = waiting connects s ds (recover connects s md).0 refl in
    let gap : ltb 1 (sub64 d.txn_id md.txn_id) ≡ true = ground arith in
    (
      md',
      rw (r, gap, e) (ap (λ out. some (md', out)) (append-nil (recover connects s md).1)),
      w.0,
      w.1,
      w.2,
      w.3,
    )
