-- ===== src/Prelude/JsSet.antt =====
-- A JavaScript `Set`: its elements in the order of insertion.
use Prim.Native.Nat.{◌≤◌}
use mathlib.Core.Path.{◌≡◌}
use mathlib.Core.Bool.{Bool, true, false, ◌||◌}
use mathlib.Core.List.{List, [], ◌∷◌}
use native.Mathlib.Omega.{arith}
use clawsembly_kernel.Prelude.Tests.{if◌then◌else◌}
use clawsembly_kernel.Prelude.Lists.{length}
use clawsembly_kernel.Prelude.Equality.{Eq, ◌==◌}

module _ {ℓ} {A : Type ℓ} ⦃e : Eq A⦄ where
  unfoldable pub has : A → List A → Bool
  has a [] = false
  has a (x ∷ xs) = (x == a) || has a xs

  unfoldable pub add : A → List A → List A
  add a [] = a ∷ []
  add a (x ∷ xs) = if x == a then x ∷ xs else x ∷ add a xs

  -- An element occurs once, so `delete` may drop every one that is equal.
  unfoldable pub delete : A → List A → List A
  delete a [] = []
  delete a (x ∷ xs) = if x == a then delete a xs else x ∷ delete a xs

  pub has-add : (a b : A) (xs : List A) → has b (add a xs) ≡ (if a == b then true else has b xs)
  unfolding has add
  has-add a b [] = ground arith
  has-add a b (x ∷ xs) = ground (arith, has-add a b xs, e.beq_iff x a, e.beq_iff a b, e.beq_iff x b)

  pub length-delete-le : (a : A) (xs : List A) → length (delete a xs) ≤ length xs
  unfolding delete
  length-delete-le a [] = omega arith
  length-delete-le a (x ∷ xs) = ground (arith, length-delete-le a xs)

  pub has-delete :
      (a b : A) (xs : List A) → has b (delete a xs) ≡ (if a == b then false else has b xs)
  unfolding has delete
  has-delete a b [] = ground arith
  has-delete a b (x ∷ xs) =
      ground (arith, has-delete a b xs, e.beq_iff x a, e.beq_iff a b, e.beq_iff x b)
