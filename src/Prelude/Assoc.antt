-- ===== src/Prelude/Assoc.antt =====
-- What `HashMap` and `BTreeMap` share: a map is the list of its entries in iteration order.
use mathlib.Core.Path.{◌≡◌, refl, sym, subst, subst₂}
use mathlib.Core.Logic.{◌⊎◌, inl, inr}
use mathlib.Core.Bool.{Bool, true, false}
use mathlib.Core.List.{List, [], ◌∷◌}
use mathlib.Core.Option.{Option, none, some}
use native.Mathlib.Omega.{arith}
use league_mod.Prelude.Lists.{All}
use league_mod.Prelude.Tests.{if◌then◌else◌, Bool-cases}
use league_mod.Prelude.Order.{Ord, ◌==◌, eq_iff, eq→≡}

abbrev pub Assoc {ℓ κ} : Type ℓ → Type κ → Type (ℓ ⊔ κ)
Assoc K V = List (K × V)

abbrev pub is_some {ℓ} : {A : Type ℓ} → Option A → Bool
is_some none = false
is_some (some a) = true

module _ {ℓ} {K V : Type ℓ} ⦃o : Ord K⦄ where
  -- `get`
  abbrev pub get : K → Assoc K V → Option V
  get k [] = none
  get k ((j, v) ∷ m) = if j == k then some v else get k m

  -- `contains_key`
  abbrev pub contains_key : K → Assoc K V → Bool
  contains_key k m = is_some (get k m)

  -- `remove`
  abbrev pub remove : K → Assoc K V → Assoc K V
  remove k [] = []
  remove k ((j, v) ∷ m) = let rest = remove k m in if j == k then rest else (j, v) ∷ rest

  -- `retain`
  abbrev pub retain : (K → V → Bool) → Assoc K V → Assoc K V
  retain p [] = []
  retain p ((j, v) ∷ m) = let rest = retain p m in if p j v then (j, v) ∷ rest else rest

  -- `keys`
  abbrev pub keys : Assoc K V → List K
  keys [] = []
  keys ((j, v) ∷ m) = j ∷ keys m

  -- No two entries have one key: what every map of the program satisfies.
  abbrev pub Distinct : Assoc K V → Type ℓ
  Distinct [] = Unit
  Distinct ((j, v) ∷ m) = (get j m ≡ none) × Distinct m

  pub get-remove :
      (k j : K) (m : Assoc K V) → get j (remove k m) ≡ (if k == j then none else get j m)
  get-remove k j [] = ground arith
  get-remove k j ((i, v) ∷ m) = ground (arith, get-remove k j m, eq_iff i k, eq_iff i j, eq_iff k j)

-- Membership, as a case for each entry.
abbrev pub In : {A : Type 0} → A → List A → Type 0
In x [] = ⊥
In x (y ∷ ys) = (x ≡ y) ⊎ In x ys

pub All_of_In {κ} : {A : Type 0} (P : A → Type κ) {x : A} (xs : List A) → All P xs → In x xs → P x
All_of_In P [] h i = elim i [ ]
All_of_In P (y ∷ ys) h (inl e) = subst P (sym e) h.0
All_of_In P (y ∷ ys) h (inr i) = All_of_In P ys h.1 i

module _ {K V : Type 0} ⦃o : Ord K⦄ where
  pub In-of_get : (k : K) (v : V) (m : Assoc K V) → get k m ≡ some v → In (k, v) m
  In-of_get k v [] h = cc
  In-of_get k v ((i, w) ∷ m) h = ground (arith, eq_iff i k, In-of_get k v m)

  pub get_of_In : (k : K) (v : V) (m : Assoc K V) → Distinct m → In (k, v) m → get k m ≡ some v
  get_of_In k v [] d h = elim h [ ]
  get_of_In k v ((i, w) ∷ m) d h = ground (arith, eq_iff i k, get_of_In k v m d.1)

-- `retain` keeps an entry by a test on its key and value.
module _ {ℓ} {K V : Type ℓ} ⦃o : Ord K⦄ (p : K → V → Bool) where
  abbrev keep : K → Option V → Option V
  keep j none = none
  keep j (some v) = if p j v then some v else none

  retain_absent : (j : K) (m : Assoc K V) → get j m ≡ none → get j (retain p m) ≡ none
  retain_absent j [] h = refl
  retain_absent j ((i, v) ∷ m) h = ground (arith, retain_absent j m)

  pub get-retain : (j : K) (m : Assoc K V) → Distinct m → get j (retain p m) ≡ keep j (get j m)
  get-retain j [] d = refl
  get-retain j ((i, v) ∷ m) d =
      ground (arith, get-retain j m d.1, eq_iff i j, retain_absent i m d.0)

  pub retain-Distinct : (m : Assoc K V) → Distinct m → Distinct (retain p m)
  retain-Distinct [] d = tt
  retain-Distinct ((i, v) ∷ m) d = ground (arith, retain_absent i m d.0, retain-Distinct m d.1)

-- A predicate of every entry.
module _ {κ} {K V : Type 0} ⦃o : Ord K⦄ (P : K → V → Type κ) where
  abbrev pub AllEntries : Assoc K V → Type κ
  AllEntries [] = Unit {κ}
  AllEntries ((k, v) ∷ m) = P k v × AllEntries m

  pub entry_of : (k : K) (v : V) (m : Assoc K V) → AllEntries m → get k m ≡ some v → P k v
  entry_of k v [] a e = cc
  entry_of k v ((j, w) ∷ m) a e = elim (Bool-cases (j == k)) [
    | inl t ↦ let same : w ≡ v = ground arith in subst₂ P (eq→≡ j k t) same a.0
    | inr t ↦ entry_of k v m a.1 (ground arith)
  ]
