-- ===== src/Prelude/Order.antt =====
-- `Ord`: the three-way comparison of keys, with the laws that maps and sorts rest on.
use Prim.Native.Nat.{ℕ, compare, Ordering}
use mathlib.Core.Path.{◌≡◌, refl, ap}
use mathlib.Core.Logic.{◌↔◌}
use mathlib.Core.Bool.{Bool, true, false}
use mathlib.Core.List.{List, [], ◌∷◌}
use native.Mathlib.Omega.{arith}

pub record Ord {ℓ} (A : Type ℓ) : Type ℓ where
  pub cmp : A → A → Ordering
  pub cmp_refl : (a : A) → cmp a a ≡ Ordering.eq
  pub eq_of_cmp : (a b : A) → cmp a b ≡ Ordering.eq → a ≡ b
  pub cmp_trans :
      (a b c : A) → cmp a b ≡ Ordering.lt → cmp b c ≡ Ordering.lt → cmp a c ≡ Ordering.lt
  pub cmp_flip : (a b : A) → cmp a b ≡ Ordering.gt → cmp b a ≡ Ordering.lt

abbrev is_equal : Ordering → Bool
is_equal Ordering.eq = true
is_equal _ = false

infix 50 ◌==◌
abbrev pub ◌==◌ {ℓ} : {A : Type ℓ} ⦃o : Ord A⦄ → A → A → Bool
◌==◌ ⦃o⦄ a b = is_equal (o.cmp a b)

module _ {ℓ} {A : Type ℓ} ⦃o : Ord A⦄ where
  pub eq_refl : (a : A) → (a == a) ≡ true
  eq_refl a = ap is_equal (o.cmp_refl a)

  pub eq→≡ : (a b : A) → (a == b) ≡ true → a ≡ b
  eq→≡ a b h = o.eq_of_cmp a b (ground arith)

  pub eq_iff : (a b : A) → ((a == b) ≡ true) ↔ (a ≡ b)
  eq_iff a b = (eq→≡ a b, λ e. rw e (eq_refl b))

  pub ne_of_lt : (a b : A) → o.cmp a b ≡ Ordering.lt → (a == b) ≡ false
  ne_of_lt a b h = rw h

pub nat_refl : (a : ℕ) → compare a a ≡ Ordering.eq
nat_refl a = ground arith

pub nat_eq : (a b : ℕ) → compare a b ≡ Ordering.eq → a ≡ b
nat_eq a b h = ground arith

pub nat_trans :
    (a b c : ℕ) → compare a b ≡ Ordering.lt → compare b c ≡ Ordering.lt → compare a c ≡ Ordering.lt
nat_trans a b c h k = ground arith

pub nat_flip : (a b : ℕ) → compare a b ≡ Ordering.gt → compare b a ≡ Ordering.lt
nat_flip a b h = ground arith

instance abbrev pub nat_ord : Ord ℕ
nat_ord = record {
  cmp = compare;
  cmp_refl = nat_refl;
  eq_of_cmp = nat_eq;
  cmp_trans = nat_trans;
  cmp_flip = nat_flip;
}

-- `Ordering::then`.
abbrev pub or_else : Ordering → Ordering → Ordering
or_else Ordering.lt _ = Ordering.lt
or_else Ordering.eq r = r
or_else Ordering.gt _ = Ordering.gt

-- The lexicographic order of slices and strings.
module _ {ℓ} {A : Type ℓ} ⦃o : Ord A⦄ where
  abbrev pub cmp_list : List A → List A → Ordering
  cmp_list [] [] = Ordering.eq
  cmp_list [] (y ∷ ys) = Ordering.lt
  cmp_list (x ∷ xs) [] = Ordering.gt
  cmp_list (x ∷ xs) (y ∷ ys) = or_else (o.cmp x y) (cmp_list xs ys)

  pub list_refl : (xs : List A) → cmp_list xs xs ≡ Ordering.eq
  list_refl [] = refl
  list_refl (x ∷ xs) = rw (o.cmp_refl x) (list_refl xs)

  pub list_eq : (xs ys : List A) → cmp_list xs ys ≡ Ordering.eq → xs ≡ ys
  list_eq [] [] h = refl
  list_eq [] (y ∷ ys) h = cc
  list_eq (x ∷ xs) [] h = cc
  list_eq (x ∷ xs) (y ∷ ys) h = ground (arith, o.eq_of_cmp x y, list_eq xs ys)

  pub list_trans :
      (xs ys zs : List A)
      → cmp_list xs ys ≡ Ordering.lt
      → cmp_list ys zs ≡ Ordering.lt
      → cmp_list xs zs ≡ Ordering.lt
  list_trans [] [] zs h k = cc
  list_trans [] (y ∷ ys) [] h k = cc
  list_trans [] (y ∷ ys) (z ∷ zs) h k = refl
  list_trans (x ∷ xs) [] zs h k = cc
  list_trans (x ∷ xs) (y ∷ ys) [] h k = cc
  list_trans (x ∷ xs) (y ∷ ys) (z ∷ zs) h k = ground (
    arith,
    o.eq_of_cmp x y,
    o.eq_of_cmp y z,
    o.cmp_trans x y z,
    o.cmp_refl x,
    list_trans xs ys zs,
  )

  pub list_flip : (xs ys : List A) → cmp_list xs ys ≡ Ordering.gt → cmp_list ys xs ≡ Ordering.lt
  list_flip [] [] h = cc
  list_flip [] (y ∷ ys) h = cc
  list_flip (x ∷ xs) [] h = refl
  list_flip (x ∷ xs) (y ∷ ys) h =
      ground (arith, o.eq_of_cmp x y, o.cmp_flip x y, o.cmp_refl x, list_flip xs ys)

  instance abbrev pub list_ord : Ord (List A)
  list_ord = record {
    cmp = cmp_list;
    cmp_refl = list_refl;
    eq_of_cmp = list_eq;
    cmp_trans = list_trans;
    cmp_flip = list_flip;
  }

module _ {ℓ} {A B : Type ℓ} ⦃o : Ord A⦄ ⦃q : Ord B⦄ where
  abbrev pub cmp_pair : A × B → A × B → Ordering
  cmp_pair (a, b) (c, d) = or_else (o.cmp a c) (q.cmp b d)

  pub pair_refl : (x : A × B) → cmp_pair x x ≡ Ordering.eq
  pair_refl (a, b) = rw (o.cmp_refl a) (q.cmp_refl b)

  pub pair_eq : (x y : A × B) → cmp_pair x y ≡ Ordering.eq → x ≡ y
  pair_eq (a, b) (c, d) h = ground (arith, o.eq_of_cmp a c, q.eq_of_cmp b d)

  pub pair_trans :
      (x y z : A × B)
      → cmp_pair x y ≡ Ordering.lt
      → cmp_pair y z ≡ Ordering.lt
      → cmp_pair x z ≡ Ordering.lt
  pair_trans (a, b) (c, d) (e, f) h k =
      ground (
        arith,
        o.eq_of_cmp a c,
        o.eq_of_cmp c e,
        o.cmp_trans a c e,
        o.cmp_refl a,
        q.cmp_trans b d f,
      )

  pub pair_flip : (x y : A × B) → cmp_pair x y ≡ Ordering.gt → cmp_pair y x ≡ Ordering.lt
  pair_flip (a, b) (c, d) h =
      ground (arith, o.eq_of_cmp a c, o.cmp_flip a c, o.cmp_refl a, q.cmp_flip b d)

  instance abbrev pub pair_ord : Ord (A × B)
  pair_ord = record {
    cmp = cmp_pair;
    cmp_refl = pair_refl;
    eq_of_cmp = pair_eq;
    cmp_trans = pair_trans;
    cmp_flip = pair_flip;
  }
