-- ===== src/Common/Maps.antt =====
-- A Go map with whole numbers as keys, as an association list.
use Prim.Native.Nat.{ℕ, suc, ◌≤◌}
use mathlib.Core.Bool.{Bool}
use mathlib.Core.Option.{Option, none, some}
use mathlib.Core.List.{List, [], ◌∷◌}
use native.Mathlib.Omega.{arith}
use firebirdsql_otel.Common.Tests.{◌==◌, if◌then◌else◌}
use firebirdsql_otel.Common.Lists.{length}

module _ {ℓ} {A : Type ℓ} where
  -- `m[k]`
  unfoldable pub find_key : ℕ → List (ℕ × A) → Option A
  find_key k [] = none
  find_key k ((j, a) ∷ m) = if j == k then some a else find_key k m

  -- `delete(m, k)`
  unfoldable pub remove_key : ℕ → List (ℕ × A) → List (ℕ × A)
  remove_key k [] = []
  remove_key k ((j, a) ∷ m) = let rest = remove_key k m in if j == k then rest else (j, a) ∷ rest

  -- `m[k] = a`
  unfoldable pub put_key : ℕ → A → List (ℕ × A) → List (ℕ × A)
  put_key k a [] = (k, a) ∷ []
  put_key k a ((j, b) ∷ m) = if j == k then (k, a) ∷ m else (j, b) ∷ put_key k a m

  -- The entries whose value passes the test are deleted.
  unfoldable pub remove_values : (A → Bool) → List (ℕ × A) → List (ℕ × A)
  remove_values p [] = []
  remove_values p ((j, a) ∷ m) = let rest = remove_values p m in if p a then rest else (j, a) ∷ rest

  pub length-remove_key : (k : ℕ) (m : List (ℕ × A)) → length (remove_key k m) ≤ length m
  unfolding remove_key
  length-remove_key k [] = omega arith
  length-remove_key k ((j, a) ∷ m) = ground (arith, length-remove_key k m)

  pub length-put_key : (k : ℕ) (a : A) (m : List (ℕ × A)) → length (put_key k a m) ≤ suc (length m)
  unfolding put_key
  length-put_key k a [] = omega arith
  length-put_key k a ((j, b) ∷ m) = ground (arith, length-put_key k a m)

  pub length-remove_values :
      (p : A → Bool) (m : List (ℕ × A)) → length (remove_values p m) ≤ length m
  unfolding remove_values
  length-remove_values p [] = omega arith
  length-remove_values p ((j, a) ∷ m) = ground (arith, length-remove_values p m)
