-- ===== src/Delegate.antt =====
-- delegate.h: a method bound to its object, or nothing. Calling one that is bound to nothing throws,
-- which std::function says of a call of an empty one.
use basicmatch.Base.{Bool, true, false, Option, none, some}

-- A method with result `R` on an object that it may change.
abbrev pub Delegate {ℓ} : Type ℓ → Type ℓ → Type ℓ → Type ℓ
Delegate S A R = Option (S → A → S × R)

module _ {ℓ} {S A R : Type ℓ} where
  abbrev pub unset : Delegate S A R
  unset = none

  -- delegate(a, fn): the call goes to the method of the object that was given.
  abbrev pub bound : (S → A → S × R) → Delegate S A R
  bound fn = some fn

  -- operator(): `none` is the exception of an empty std::function.
  unfoldable pub invoke : Delegate S A R → S → A → Option (S × R)
  invoke none s a = none
  invoke (some fn) s a = some (fn s a)

  -- operator bool()
  unfoldable pub is_set : Delegate S A R → Bool
  is_set none = false
  is_set (some fn) = true
