-- ===== src/Prelude/HashSet.antt =====
-- `HashSet`: its elements in iteration order, each once.
use mathlib.Core.Path.{◌≡◌, refl, subst}
use mathlib.Core.Logic.{◌≢◌, inl, inr}
use mathlib.Core.Bool.{Bool, true, false, ◌||◌}
use mathlib.Core.List.{List, [], ◌∷◌, ◌++◌}
use native.Mathlib.Omega.{arith}
use league_mod.Prelude.Tests.{if◌then◌else◌, Bool-cases}
use league_mod.Prelude.Order.{Ord, ◌==◌, eq_iff, eq→≡}
use league_mod.Prelude.Lists.{All}

module _ {ℓ} {A : Type ℓ} ⦃o : Ord A⦄ where
  abbrev pub contains : A → List A → Bool
  contains a [] = false
  contains a (x ∷ xs) = (x == a) || contains a xs

  -- `HashSet::insert`.
  unfoldable pub insert : A → List A → List A
  insert a xs = if contains a xs then xs else xs ++ (a ∷ [])

  pub contains-append_one :
      (a b : A) (xs : List A) → contains b (xs ++ (a ∷ [])) ≡ contains b xs || (a == b)
  contains-append_one a b [] = ground arith
  contains-append_one a b (x ∷ xs) = ground (arith, contains-append_one a b xs)

  pub contains-insert :
      (a b : A) (xs : List A) → contains b (insert a xs) ≡ contains b xs || (a == b)
  unfolding insert
  contains-insert a b xs = ground (arith, eq_iff a b, contains-append_one a b xs)

  -- No element twice.
  abbrev pub Distinct : List A → Type 0
  Distinct [] = Unit {0}
  Distinct (x ∷ xs) = (contains x xs ≡ false) × Distinct xs

  pub append_one-Distinct :
      (a : A) (xs : List A) → Distinct xs → contains a xs ≡ false → Distinct (xs ++ (a ∷ []))
  append_one-Distinct a [] d new = (refl, tt)
  append_one-Distinct a (x ∷ xs) d new =
      ground
        (arith, contains-append_one a x xs, eq_iff a x, eq_iff x a, append_one-Distinct a xs d.1)

  pub insert-Distinct : (a : A) (xs : List A) → Distinct xs → Distinct (insert a xs)
  unfolding insert
  insert-Distinct a xs d = elim (Bool-cases (contains a xs)) [
    | inl old ↦ rw old d
    | inr new ↦ rw new (append_one-Distinct a xs d new)
  ]

  pub insert-ne-nil : (a : A) (xs : List A) → insert a xs ≢ []
  unfolding insert
  insert-ne-nil a [] = λ e. cc
  insert-ne-nil a (x ∷ xs) = ground arith

pub All_of_contains {κ} :
    {A : Type 0} ⦃o : Ord A⦄ (P : A → Type κ) (a : A) (xs : List A)
    → All P xs
    → contains a xs ≡ true
    → P a
All_of_contains P a [] h c = cc
All_of_contains P a (x ∷ xs) h c = elim (Bool-cases (x == a)) [
  | inl e ↦ subst P (eq→≡ x a e) h.0
  | inr e ↦ All_of_contains P a xs h.1 (ground arith)
]
