-- ===== src/Prelude/Maps.antt =====
-- Go maps keyed by numbers, as association lists; a key that is not there reads as `none`.
use Prim.Native.Nat.{ℕ}
use mathlib.Core.Path.{◌≡◌}
use mathlib.Core.List.{List, [], ◌∷◌}
use mathlib.Core.Option.{Option, none, some}
use native.Mathlib.Omega.{arith}
use quantime.Prelude.Tests.{◌==◌, if◌then◌else◌}

module _ {ℓ} {V : Type ℓ} where
  unfoldable pub lookup : ℕ → List (ℕ × V) → Option V
  lookup k [] = none
  lookup k ((j, v) ∷ m) = if k == j then some v else lookup k m

  -- `delete(m, k)`
  unfoldable pub erase : ℕ → List (ℕ × V) → List (ℕ × V)
  erase k [] = []
  erase k ((j, v) ∷ m) = let rest = erase k m in if k == j then rest else (j, v) ∷ rest

  -- `m[k] = v`
  unfoldable pub insert : ℕ → V → List (ℕ × V) → List (ℕ × V)
  insert k v m = (k, v) ∷ erase k m

  pub lookup-erase :
      (j k : ℕ) (m : List (ℕ × V)) → lookup j (erase k m) ≡ (if j == k then none else lookup j m)
  unfolding lookup erase
  lookup-erase j k [] = ground arith
  lookup-erase j k ((i, v) ∷ m) = ground (arith, lookup-erase j k m)

  pub lookup-insert :
      (j k : ℕ) (v : V) (m : List (ℕ × V))
      → lookup j (insert k v m) ≡ (if j == k then some v else lookup j m)
  unfolding lookup insert
  lookup-insert j k v m = ground (arith, lookup-erase j k m)
