-- ===== src/Prelude/Sort.antt =====
-- `ORDER BY` of a query, as an insertion sort that keeps the order of equal keys.
use Prim.Native.Nat.{ℕ, suc, ◌+◌, ◌≤◌}
use mathlib.Core.Path.{◌≡◌, refl, ◌∙◌}
use mathlib.Core.Bool.{Bool, false}
use mathlib.Core.Logic.{inl, inr}
use mathlib.Core.List.{List, [], ◌∷◌}
use native.Mathlib.Omega.{arith}
use lite_iam.Prelude.Tests.{if◌then◌else◌, ◌==◌, Bool-cases}
use lite_iam.Prelude.Lists.{count_where, length}

module _ {ℓ} {A : Type ℓ} (precedes : A → A → Bool) where
  abbrev pub insert_in_order : A → List A → List A
  insert_in_order x [] = x ∷ []
  insert_in_order x (y ∷ ys) = if precedes x y then x ∷ (y ∷ ys) else y ∷ insert_in_order x ys

  -- `ORDER BY`
  unfoldable pub order_by : List A → List A
  order_by [] = []
  order_by (x ∷ xs) = insert_in_order x (order_by xs)

  count-insert :
      (p : A → Bool) (x : A) (ys : List A)
      → count_where p (insert_in_order x ys) ≡ (if p x then 1 else 0) + count_where p ys
  count-insert p x [] = refl
  count-insert p x (y ∷ ys) = ground (arith, count-insert p x ys)

  length-insert : (x : A) (ys : List A) → length (insert_in_order x ys) ≡ suc (length ys)
  length-insert x [] = refl
  length-insert x (y ∷ ys) = ground (arith, length-insert x ys)

  -- Ordering keeps how many rows pass a test, and how many there are.
  pub count-order_by : (p : A → Bool) (xs : List A) → count_where p (order_by xs) ≡ count_where p xs
  unfolding order_by
  count-order_by p [] = refl
  count-order_by p (x ∷ xs) = omega (arith, count-insert p x (order_by xs), count-order_by p xs)

  pub length-order_by : (xs : List A) → length (order_by xs) ≡ length xs
  unfolding order_by
  length-order_by [] = refl
  length-order_by (x ∷ xs) = omega (arith, length-insert x (order_by xs), length-order_by xs)

module _ {ℓ} {A : Type ℓ} (key : A → ℕ) (precedes precedes' : A → A → Bool)
    (agree : (a b : A) → (key b == key a) ≡ false → precedes a b ≡ precedes' a b) where
  insert-agree :
      (x : A) (ys : List A)
      → count_where (λ y. key y == key x) ys ≡ 0
      → insert_in_order precedes x ys ≡ insert_in_order precedes' x ys
  insert-agree x [] alone = refl
  insert-agree x (y ∷ ys) alone = elim (Bool-cases (key y == key x)) [
    | inl same ↦ absurd (ground arith)
    | inr other ↦ rw (agree x y other, insert-agree x ys (ground arith)) refl
  ]

  -- Two orders that agree on rows of different keys order a list alike whose keys are different.
  pub order_by-agree :
      (xs : List A)
      → ((n : ℕ) → count_where (λ y. key y == n) xs ≤ 1)
      → order_by precedes xs ≡ order_by precedes' xs
  unfolding order_by
  order_by-agree [] apart = refl
  order_by-agree (x ∷ xs) apart =
      let rest = order_by-agree xs (λ n. (let here = apart n in ground arith)) in
      let others : count_where (λ y. key y == key x) xs ≡ 0 =
        (let here = apart (key x) in ground arith) in
      rw rest (
        insert-agree x (order_by precedes' xs)
          (count-order_by precedes' (λ y. key y == key x) xs ∙ others))
