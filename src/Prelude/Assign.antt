-- ===== src/Prelude/Assign.antt =====
-- A function on thread numbers, changed at one of them.
use Prim.Native.Nat.{ℕ}
use mathlib.Core.Path.{◌≡◌}
use mathlib.Core.Bool.{true, false}
use clht.Prelude.Tests.{◌==◌, if◌then◌else◌}

module _ {ℓ} {A : Type ℓ} where
  abbrev pub assign : (ℕ → A) → ℕ → A → ℕ → A
  assign call t c u = if t == u then c else call u

  pub assign-here : (call : ℕ → A) (t u : ℕ) (c : A) → (t == u) ≡ true → assign call t c u ≡ c
  assign-here call t u c e = rw e

  pub assign-there :
      (call : ℕ → A) (t u : ℕ) (c : A) → (t == u) ≡ false → assign call t c u ≡ call u
  assign-there call t u c e = rw e
