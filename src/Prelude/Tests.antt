-- ===== src/Prelude/Tests.antt =====
-- The conditional, Boolean tests on the native numbers, and splits that keep the equation.
use Prim.Native.Nat.{ℕ, compare, Ordering}
use mathlib.Core.Path.{◌≡◌, refl}
use mathlib.Core.Logic.{◌⊎◌, inl, inr}
use mathlib.Core.Bool.{Bool, true, false}
use mathlib.Core.Option.{Option, none, some}

abbrev pub ltb : ℕ → ℕ → Bool
ltb a b = elim (compare a b) [ Ordering.lt ↦ true | _ ↦ false ]

abbrev pub leb : ℕ → ℕ → Bool
leb a b = elim (compare a b) [ Ordering.gt ↦ false | _ ↦ true ]

infix 1 if◌then◌else◌
abbrev pub if◌then◌else◌ {ℓ} : {A : Type ℓ} → Bool → A → A → A
if true then x else y = x
if false then x else y = y

pub Bool-cases : (b : Bool) → (b ≡ true) ⊎ (b ≡ false)
Bool-cases true = inl refl
Bool-cases false = inr refl

pub Option-cases {ℓ} : {A : Type ℓ} (o : Option A) → (o ≡ none) ⊎ ((a : A) × (o ≡ some a))
Option-cases none = inl refl
Option-cases (some a) = inr (a, refl)

pub data OrderingCases (o : Ordering) : Type 0 where
  is_lt : o ≡ Ordering.lt → OrderingCases o
  is_eq : o ≡ Ordering.eq → OrderingCases o
  is_gt : o ≡ Ordering.gt → OrderingCases o

pub Ordering-cases : (o : Ordering) → OrderingCases o
Ordering-cases Ordering.lt = is_lt refl
Ordering-cases Ordering.eq = is_eq refl
Ordering-cases Ordering.gt = is_gt refl
