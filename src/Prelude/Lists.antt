-- ===== src/Prelude/Lists.antt =====
-- Tables as lists of rows: the queries that the handlers make, and lengths and counts.
use Prim.Native.Nat.{ℕ, zero, suc, ◌+◌, ◌≤◌}
use mathlib.Core.Path.{◌≡◌, refl, ap}
use mathlib.Core.Bool.{Bool, true, false}
use mathlib.Core.List.{List, [], ◌∷◌, ◌++◌}
use mathlib.Core.Option.{Option, none, some}
use native.Mathlib.Omega.{arith}
use lite_iam.Prelude.Tests.{if◌then◌else◌, ◌==◌}

module _ {ℓ} {A : Type ℓ} where
  abbrev pub length : List A → ℕ
  length [] = 0
  length (x ∷ xs) = suc (length xs)

  abbrev pub drop : ℕ → List A → List A
  drop zero xs = xs
  drop (suc n) [] = []
  drop (suc n) (x ∷ xs) = drop n xs

  -- `xs[:n]`
  abbrev pub take : ℕ → List A → List A
  take zero xs = []
  take (suc n) [] = []
  take (suc n) (x ∷ xs) = x ∷ take n xs

  -- `db.scalar(select(T).where(p))`: the first row that passes.
  abbrev pub find : (A → Bool) → List A → Option A
  find p [] = none
  find p (x ∷ xs) = if p x then some x else find p xs

  -- `select(T).where(p)`: the rows that pass.
  abbrev pub select_where : (A → Bool) → List A → List A
  select_where p [] = []
  select_where p (x ∷ xs) = let rest = select_where p xs in if p x then x ∷ rest else rest

  -- `update(T).where(p).values(…)`: each row that passes is changed.
  abbrev pub update_where : (A → Bool) → (A → A) → List A → List A
  update_where p f [] = []
  update_where p f (x ∷ xs) = (if p x then f x else x) ∷ update_where p f xs

  -- `delete(T).where(p)`: the rows that pass are gone.
  abbrev pub delete_where : (A → Bool) → List A → List A
  delete_where p [] = []
  delete_where p (x ∷ xs) = let rest = delete_where p xs in if p x then rest else x ∷ rest

  -- `select(count()).where(p)`
  abbrev pub count_where : (A → Bool) → List A → ℕ
  count_where p [] = 0
  count_where p (x ∷ xs) = (if p x then 1 else 0) + count_where p xs

  pub count-snoc :
      (p : A → Bool) (xs : List A) (x : A)
      → count_where p (xs ++ x ∷ []) ≡ count_where p xs + (if p x then 1 else 0)
  count-snoc p [] x = ground arith
  count-snoc p (y ∷ xs) x = ground (arith, count-snoc p xs x)

  pub length-select : (p : A → Bool) (xs : List A) → length (select_where p xs) ≡ count_where p xs
  length-select p [] = refl
  length-select p (x ∷ xs) = ground (arith, length-select p xs)

  -- A selection counts no more than the table.
  pub count-select :
      (q p : A → Bool) (xs : List A) → count_where q (select_where p xs) ≤ count_where q xs
  count-select q p [] = omega arith
  count-select q p (x ∷ xs) = ground (arith, count-select q p xs)

  -- A query that finds nothing counts nothing.
  pub count_none : (p : A → Bool) (xs : List A) → find p xs ≡ none → count_where p xs ≡ 0
  count_none p [] unknown = refl
  count_none p (x ∷ xs) unknown = ground (arith, count_none p xs)

  -- An UPDATE that keeps a test keeps its count.
  pub count-update :
      (q p : A → Bool) (f : A → A) (xs : List A)
      → ((a : A) → q (f a) ≡ q a)
      → count_where q (update_where p f xs) ≡ count_where q xs
  count-update q p f [] keep = refl
  count-update q p f (x ∷ xs) keep = ground (arith, keep x, count-update q p f xs keep)

  nil_slice : (n m : ℕ) → take m [] ≡ take n []
  nil_slice zero zero = refl
  nil_slice zero (suc m) = refl
  nil_slice (suc n) zero = refl
  nil_slice (suc n) (suc m) = refl

  -- A slice in two parts.
  pub take-add : (m n : ℕ) (xs : List A) → take (m + n) xs ≡ take m xs ++ take n (drop m xs)
  take-add zero n xs = let e : 0 + n ≡ n = omega arith in rw e refl
  take-add (suc m) n [] = nil_slice n (suc m + n)
  take-add (suc m) n (x ∷ xs) =
      let e : suc m + n ≡ suc (m + n) = omega arith in rw e (ap (λ ys. x ∷ ys) (take-add m n xs))

  pub take_of_length-le : (n : ℕ) (xs : List A) → length xs ≤ n → take n xs ≡ xs
  take_of_length-le zero [] short = refl
  take_of_length-le zero (x ∷ xs) short = absurd (omega arith)
  take_of_length-le (suc n) [] short = refl
  take_of_length-le (suc n) (x ∷ xs) short = ground (arith, take_of_length-le n xs)

  pub length-append : (xs ys : List A) → length (xs ++ ys) ≡ length xs + length ys
  length-append [] ys = omega arith
  length-append (x ∷ xs) ys = omega (arith, length-append xs ys)

-- `x in xs`
abbrev pub contains : List ℕ → ℕ → Bool
contains [] a = false
contains (x ∷ xs) a = if a == x then true else contains xs a

-- `xs.remove(x)`: the first occurrence.
abbrev pub remove : List ℕ → ℕ → List ℕ
remove [] a = []
remove (x ∷ xs) a = if a == x then xs else x ∷ remove xs a

-- A dict as a list of items; of two items with one key the first is the one that holds, so
-- `{**a, **b}` is `b ++ a`.
abbrev pub lookup {ℓ} : {V : Type ℓ} → ℕ → List (ℕ × V) → Option V
lookup k [] = none
lookup k ((j, v) ∷ d) = if k == j then some v else lookup k d

abbrev pub bind? {ℓ κ} : {A : Type ℓ} {B : Type κ} → Option A → (A → Option B) → Option B
bind? none f = none
bind? (some a) f = f a

-- `list(x or [])`
abbrev pub or_empty {ℓ} : {A : Type ℓ} → Option (List A) → List A
or_empty none = []
or_empty (some xs) = xs

-- `not xs`
abbrev pub is_empty {ℓ} : {A : Type ℓ} → List A → Bool
is_empty [] = true
is_empty (x ∷ xs) = false
