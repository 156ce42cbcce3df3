-- ===== src/Prelude/HashMap.antt =====
-- `HashMap::insert`: a present key keeps its place. The iteration order of a hash map is not
-- specified; theorems on the program's maps hold for every order of the entries.
use mathlib.Core.Path.{◌≡◌, refl}
use mathlib.Core.Logic.{inl, inr}
use mathlib.Core.List.{[], ◌∷◌}
use mathlib.Core.Option.{some}
use native.Mathlib.Omega.{arith}
use league_mod.Prelude.Tests.{if◌then◌else◌, Bool-cases}
use league_mod.Prelude.Order.{Ord, ◌==◌, eq_iff}
use league_mod.Prelude.Lists.{length}
use Prim.Native.Nat.{◌+◌}
use league_mod.Prelude.Assoc.{Assoc, get, contains_key, Distinct, AllEntries}

abbrev pub HashMap {ℓ κ} : Type ℓ → Type κ → Type (ℓ ⊔ κ)
HashMap K V = Assoc K V

module _ {ℓ} {K V : Type ℓ} ⦃o : Ord K⦄ where
  unfoldable pub insert : K → V → HashMap K V → HashMap K V
  insert key new [] = (key, new) ∷ []
  insert key new ((other, old) ∷ entries) =
      let more = insert key new entries in
      if other == key then (key, new) ∷ entries else (other, old) ∷ more

  pub get-insert :
      (key query : K) (new : V) (entries : HashMap K V)
      → get query (insert key new entries) ≡ (if key == query then some new else get query entries)
  unfolding insert
  get-insert key query new [] = refl
  get-insert key query new ((other, old) ∷ entries) = ground (
    arith,
    get-insert key query new entries,
    eq_iff other query,
    eq_iff other key,
    eq_iff key query,
  )

  -- A new key adds an entry.
  pub length-insert :
      (k : K) (v : V) (m : HashMap K V)
      → length (insert k v m) ≡ (if contains_key k m then length m else length m + 1)
  unfolding insert
  length-insert k v [] = ground arith
  length-insert k v ((j, w) ∷ m) = ground (arith, length-insert k v m)

  pub insert-Distinct : (k : K) (v : V) (m : HashMap K V) → Distinct m → Distinct (insert k v m)
  unfolding insert
  insert-Distinct k v [] d = (refl, tt)
  insert-Distinct k v ((i, w) ∷ m) d =
      ground (arith, eq_iff i k, eq_iff k i, get-insert k i v m, insert-Distinct k v m d.1)

module _ {κ} {K V : Type 0} ⦃o : Ord K⦄ (P : K → V → Type κ) where
  pub insert-AllEntries :
      (k : K) (v : V) (m : HashMap K V) → P k v → AllEntries P m → AllEntries P (insert k v m)
  unfolding insert
  insert-AllEntries k v [] p a = (p, tt)
  insert-AllEntries k v ((j, w) ∷ m) p a = elim (Bool-cases (j == k)) [
    | inl t ↦ rw t (p, a.1)
    | inr t ↦ rw t (a.0, insert-AllEntries k v m p a.1)
  ]
