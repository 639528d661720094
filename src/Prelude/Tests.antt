-- ===== src/Prelude/Tests.antt =====
-- Boolean tests on native numbers, texts and optional columns.
use Prim.Native.Nat.{ℕ, zero, suc, compare, Ordering}
use mathlib.Core.Path.{◌≡◌, refl}
use mathlib.Core.Logic.{◌⊎◌, inl, inr}
use mathlib.Core.Bool.{Bool, true, false}
use mathlib.Core.Option.{Option, none, some}
use native.Mathlib.Omega.{arith}

abbrev pub ltb : ℕ → ℕ → Bool
ltb a b = elim (compare a b) [ Ordering.lt ↦ true | _ ↦ false ]

abbrev pub leb : ℕ → ℕ → Bool
leb a b = elim (compare a b) [ Ordering.gt ↦ false | _ ↦ true ]

infix 50 ◌==◌
abbrev pub ◌==◌ : ℕ → ℕ → Bool
a == b = elim (compare a b) [ Ordering.eq ↦ true | _ ↦ false ]

infix 1 if◌then◌else◌
abbrev pub if◌then◌else◌ {ℓ} : {A : Type ℓ} → Bool → A → A → A
if true then x else y = x
if false then x else y = y

-- A text that only is compared. The empty text is 0.
abbrev pub Text : Type 0
Text = ℕ

-- Python's truth of a text.
abbrev pub truthy : Text → Bool
truthy zero = false
truthy (suc n) = true

-- Python's truth of an optional text.
abbrev pub truthy? : Option Text → Bool
truthy? none = false
truthy? (some t) = truthy t

abbrev pub is_some {ℓ} : {A : Type ℓ} → Option A → Bool
is_some none = false
is_some (some a) = true

-- `column = value` in SQL: a NULL is equal to nothing.
abbrev pub sql_eq : Option ℕ → ℕ → Bool
sql_eq none v = false
sql_eq (some u) v = u == v

-- `column > value` in SQL: a NULL compares with nothing.
abbrev pub sql_gt : Option ℕ → ℕ → Bool
sql_gt none v = false
sql_gt (some u) v = ltb v u

-- To split on a computed value and keep the equation.
pub Bool-cases : (b : Bool) → (b ≡ true) ⊎ (b ≡ false)
Bool-cases true = inl refl
Bool-cases false = inr refl

pub Option-cases {ℓ} : {A : Type ℓ} (o : Option A) → (o ≡ none) ⊎ ((a : A) × (o ≡ some a))
Option-cases none = inl refl
Option-cases (some a) = inr (a, refl)

-- What a positive test of equality says.
pub eq_of_== : (a b : ℕ) → (a == b) ≡ true → a ≡ b
eq_of_== a b h = ground arith

-- Python's `not Model.column`: a class attribute is an object, and objects are true.
abbrev pub not_attribute : Bool
not_attribute = false

-- Python's `Model.column is None`: a class attribute is an object, and never None.
abbrev pub attribute_is_none : Bool
attribute_is_none = false
