-- ===== src/Prelude/TreeMap.antt =====
-- `BTreeMap`: the entries in the order of their keys.
pub mod Sorted
use mathlib.Core.Path.{◌≡◌, refl}
use mathlib.Core.List.{List, [], ◌∷◌}
use mathlib.Core.Option.{Option, none, some}
use native.Mathlib.Omega.{arith}
use Prim.Native.Nat.{Ordering}
use league_mod.Prelude.Tests.{if◌then◌else◌}
use league_mod.Prelude.Order.{Ord, ◌==◌, eq_iff}
use league_mod.Prelude.Assoc.{Assoc, get, Distinct}

abbrev pub TreeMap {ℓ κ} : Type ℓ → Type κ → Type (ℓ ⊔ κ)
TreeMap K V = Assoc K V

module _ {ℓ} {K V : Type ℓ} ⦃o : Ord K⦄ where
  unfoldable pub insert : K → V → TreeMap K V → TreeMap K V
  insert k v [] = (k, v) ∷ []
  insert k v ((j, w) ∷ m) =
      let rest = insert k v m in
      elim (o.cmp k j) [
        | Ordering.lt ↦ (k, v) ∷ (j, w) ∷ m
        | Ordering.eq ↦ (k, v) ∷ m
        | Ordering.gt ↦ (j, w) ∷ rest
      ]

  -- Every key of the map is above `k`.
  abbrev pub Above : K → TreeMap K V → Type 0
  Above k [] = Unit {0}
  Above k ((j, v) ∷ m) = (o.cmp k j ≡ Ordering.lt) × Above k m

  -- The keys rise along the list.
  abbrev pub IsSorted : TreeMap K V → Type 0
  IsSorted [] = Unit {0}
  IsSorted ((j, v) ∷ m) = Above j m × IsSorted m

  pub get-insert :
      (k j : K) (v : V) (m : TreeMap K V)
      → get j (insert k v m) ≡ (if k == j then some v else get j m)
  unfolding insert
  get-insert k j v [] = refl
  get-insert k j v ((i, w) ∷ m) = ground (
    arith,
    eq_iff k j,
    o.eq_of_cmp k i,
    o.cmp_flip k i,
    eq_iff i j,
    eq_iff k i,
    o.cmp_refl i,
    get-insert k j v m,
  )
