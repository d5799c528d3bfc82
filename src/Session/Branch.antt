-- ===== src/Session/Branch.antt =====
-- Branches between the actions of a session, each of which gets the state.
use basicmatch.Base.{Bool, true, false, List, [], ◌∷◌, Option, none, some}
use basicmatch.Session.State.{Action}

infix 1 if◌then◌else◌
module _ {C : Type 0} where
  abbrev pub if◌then◌else◌ : {A : Type 0} → Bool → Action C A → Action C A → Action C A
  if◌then◌else◌ true m n s = m s
  if◌then◌else◌ false m n s = n s

  abbrev pub if_some : {A B : Type 0} → Option A → (A → Action C B) → Action C B → Action C B
  if_some none f m s = m s
  if_some (some a) f m s = f a s

  abbrev pub if_any : {A B : Type 0} → List A → (A → Action C B) → Action C B → Action C B
  if_any [] f m s = m s
  if_any (a ∷ as_left) f m s = f a s
