-- ===== src/Base/Maps.antt =====
-- Hash maps and sets that the program only reads and writes by key, as functions of the key.
use Prim.Native.Nat.{ℕ}
use mathlib.Core.Bool.{Bool, true}
use mathlib.Core.Option.{Option, none, some}
use basicmatch.Base.Tests.{◌==◌, if◌then◌else◌}

-- std::unordered_map<uint32_t, V>: the value of each key that is present.
abbrev pub IdMap {ℓ} : Type ℓ → Type ℓ
IdMap V = ℕ → Option V

module _ {ℓ} {V : Type ℓ} where
  abbrev pub empty_map : IdMap V
  empty_map k = none

  -- m[k] = v
  abbrev pub put : ℕ → V → IdMap V → IdMap V
  put k v m j = if k == j then some v else m j

  -- m.erase(k)
  abbrev pub erase : ℕ → IdMap V → IdMap V
  erase k m j = if k == j then none else m j

-- std::unordered_set<uint32_t>
abbrev pub IdSet : Type 0
IdSet = ℕ → Bool

abbrev pub insert : ℕ → IdSet → IdSet
insert k s j = if k == j then true else s j
