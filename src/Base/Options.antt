-- ===== src/Base/Options.antt =====
-- Postconditions of results that may be missing.
use mathlib.Core.Path.{◌≡◌, subst}
use mathlib.Core.Option
use mathlib.Core.Option.{Option, none, some}

-- The first value that is there.
abbrev pub or_else {ℓ} : {A : Type ℓ} → Option A → Option A → Option A
or_else none y = y
or_else (some a) y = some a

-- The value has the property, if there is one.
abbrev pub Ensures {ℓ κ} : {A : Type ℓ} → (A → Type κ) → Option A → Type κ
Ensures P none = Unit
Ensures P (some a) = P a

module _ {ℓ κ} {A : Type ℓ} where
  pub Ensures-some : (P : A → Type κ) (m : Option A) {a : A} → m ≡ some a → Ensures P m → P a
  Ensures-some P m e h = subst (Ensures P) e h

  pub Ensures-map {ι ν} :
      {B : Type ι} (P : A → Type κ) (Q : B → Type ν) (f : A → B) (m : Option A)
      → ((a : A) → P a → Q (f a))
      → Ensures P m
      → Ensures Q (Option.map f m)
  Ensures-map P Q f none k h = tt
  Ensures-map P Q f (some a) k h = k a h

  pub Ensures-bind {ι} :
      {B : Type ι} (Q : B → Type κ) (m : Option A) (f : A → Option B)
      → ((a : A) → Ensures Q (f a))
      → Ensures Q (Option.bind m f)
  unfolding Option.bind
  Ensures-bind Q none f k = tt
  Ensures-bind Q (some a) f k = k a

  pub Ensures-both {ι} :
      (P : A → Type κ) (Q : A → Type ι) (m : Option A)
      → Ensures P m
      → Ensures Q m
      → Ensures (λ a. P a × Q a) m
  Ensures-both P Q none h k = tt
  Ensures-both P Q (some a) h k = (h, k)

pub Ensures-any {ℓ} : {A : Type ℓ} (m : Option A) → Ensures (λ _. Unit {0}) m
Ensures-any none = tt
Ensures-any (some a) = tt
