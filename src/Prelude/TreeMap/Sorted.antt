-- ===== src/Prelude/TreeMap/Sorted.antt =====
-- Sorted entries: insertion keeps them sorted, and lookups determine them.
use mathlib.Core.Path.{◌≡◌, refl, sym, subst}
use mathlib.Core.Bool.{Bool}
use mathlib.Core.List.{List, [], ◌∷◌}
use mathlib.Core.Option.{none, some}
use native.Mathlib.Omega.{arith}
use Prim.Native.Nat.{Ordering}
use league_mod.Prelude.Tests.{Ordering-cases, is_lt, is_eq, is_gt}
use league_mod.Prelude.Order.{Ord, eq_iff, eq_refl}
use league_mod.Prelude.Assoc.{get, Distinct, retain}
use league_mod.Prelude.TreeMap.{TreeMap, insert, Above, IsSorted}

module _ {ℓ} {K V : Type ℓ} ⦃o : Ord K⦄ where
  pub Above-insert :
      (j k : K) (v : V) (m : TreeMap K V)
      → o.cmp j k ≡ Ordering.lt
      → Above j m
      → Above j (insert k v m)
  unfolding insert
  Above-insert j k v [] h a = (h, tt)
  Above-insert j k v ((i, w) ∷ m) h a = ground (arith, Above-insert j k v m h a.1)

  pub Above-trans : (j k : K) (m : TreeMap K V) → o.cmp j k ≡ Ordering.lt → Above k m → Above j m
  Above-trans j k [] h a = tt
  Above-trans j k ((i, w) ∷ m) h a = (o.cmp_trans j k i h a.0, Above-trans j k m h a.1)

  pub insert-IsSorted : (k : K) (v : V) (m : TreeMap K V) → IsSorted m → IsSorted (insert k v m)
  unfolding insert
  insert-IsSorted k v [] s = (tt, tt)
  insert-IsSorted k v ((i, w) ∷ m) s = ground (
    arith,
    o.eq_of_cmp k i,
    o.cmp_flip k i,
    Above-trans k i m,
    Above-insert i k v m,
    insert-IsSorted k v m s.1,
  )

  -- No key below all others is found.
  pub get-Above : (k : K) (m : TreeMap K V) → Above k m → get k m ≡ none
  get-Above k [] a = refl
  get-Above k ((i, w) ∷ m) a = ground (arith, eq_iff i k, o.cmp_refl k, get-Above k m a.1)

  pub IsSorted-Distinct : (m : TreeMap K V) → IsSorted m → Distinct m
  IsSorted-Distinct [] s = tt
  IsSorted-Distinct ((i, w) ∷ m) s = (get-Above i m s.0, IsSorted-Distinct m s.1)

  get_head : (k : K) (v : V) (m : TreeMap K V) → get k ((k, v) ∷ m) ≡ some v
  get_head k v m = rw (eq_refl k)

  head_below :
      (k : K) (v : V) (m : TreeMap K V) (i : K) (w : V) (n : TreeMap K V)
      → o.cmp k i ≡ Ordering.lt
      → Above i n
      → get k ((k, v) ∷ m) ≡ get k ((i, w) ∷ n)
      → ⊥
  head_below k v m i w n h a e =
      cc (get_head k v m, e, get-Above k ((i, w) ∷ n) (h, Above-trans k i n h a))

  tail_lookups :
      (k : K) (v w : V) (m n : TreeMap K V)
      → Above k m
      → Above k n
      → ((j : K) → get j ((k, v) ∷ m) ≡ get j ((k, w) ∷ n))
      → (j : K) → get j m ≡ get j n
  tail_lookups k v w m n a b e j = ground (arith, e j, eq_iff k j, get-Above k m a, get-Above k n b)

  abbrev SameAt : K → V → TreeMap K V → V → TreeMap K V → K → Type ℓ
  SameAt k v m w n i =
      Above i n
      → ((j : K) → get j ((k, v) ∷ m) ≡ get j ((i, w) ∷ n))
      → ◌≡◌ {A = List (K × V)} ((k, v) ∷ m) ((i, w) ∷ n)

  cons_ext :
      (k : K) (v w : V) (m n : TreeMap K V)
      → Above k m
      → (((j : K) → get j m ≡ get j n) → m ≡ n)
      → SameAt k v m w n k
  cons_ext k v w m n a rec b e =
      cc (rec (tail_lookups k v w m n a b e), get_head k v m, get_head k w n, e k)

  -- Two sorted maps with the same lookups are the same list.
  pub sorted_ext :
      (m n : TreeMap K V) → IsSorted m → IsSorted n → ((j : K) → get j m ≡ get j n) → m ≡ n
  sorted_ext [] [] s t e = refl
  sorted_ext [] ((k, w) ∷ n) s t e = cc (e k, get_head k w n)
  sorted_ext ((k, v) ∷ m) [] s t e = cc (e k, get_head k v m)
  sorted_ext ((k, v) ∷ m) ((i, w) ∷ n) s t e = elim (Ordering-cases (o.cmp k i)) [
    | is_lt h ↦ absurd (head_below k v m i w n h t.0 (e k))
    | is_gt h ↦ absurd (head_below i w n k v m (o.cmp_flip k i h) s.0 (sym (e i)))
    | is_eq h ↦
        subst (SameAt k v m w n) (o.eq_of_cmp k i h)
          (cons_ext k v w m n s.0 (sorted_ext m n s.1 t.1)) t.0 e
  ]

module _ {ℓ} {K V : Type ℓ} ⦃o : Ord K⦄ (p : K → V → Bool) where
  Above-retain : (k : K) (m : TreeMap K V) → Above k m → Above k (retain p m)
  Above-retain k [] a = tt
  Above-retain k ((i, w) ∷ m) a = ground (arith, Above-retain k m a.1)

  pub retain-IsSorted : (m : TreeMap K V) → IsSorted m → IsSorted (retain p m)
  retain-IsSorted [] s = tt
  retain-IsSorted ((i, w) ∷ m) s = ground (arith, Above-retain i m s.0, retain-IsSorted m s.1)
