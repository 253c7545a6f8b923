-- ===== src/Prelude/Maps.antt =====
-- Contract storage: a key that was never set, or was removed, reads as `none`.
use Prim.Native.Nat.{ℕ}
use mathlib.Core.Option.{Option, none, some}
use comebackhere_contracts.Prelude.Tests.{◌==◌, if◌then◌else◌}

abbrev pub Map {ℓ} : Type ℓ → Type ℓ
Map V = ℕ → Option V

module _ {ℓ} {V : Type ℓ} where
  abbrev pub put : ℕ → V → Map V → Map V
  put k v m j = if k == j then some v else m j

  abbrev pub remove : ℕ → Map V → Map V
  remove k m j = if k == j then none else m j

  -- The same for an entry that is always read with a default.
  abbrev pub assign : ℕ → V → (ℕ → V) → ℕ → V
  assign k v m j = if k == j then v else m j
