-- ===== src/Prelude/Int.antt =====
-- Signed integers over the native numbers, with their order: the `i32` of the layer priorities.
use Prim.Native.Nat.{ℕ, compare, Ordering}
use mathlib.Core.Path.{◌≡◌}
use native.Mathlib.Omega.{arith}
use league_mod.Prelude.Order.{Ord}

-- `negsuc n` is -(n + 1).
pub data ℤ : Type 0 where
  pos : ℕ → ℤ
  negsuc : ℕ → ℤ

abbrev pub cmp_int : ℤ → ℤ → Ordering
cmp_int (pos a) (pos b) = compare a b
cmp_int (pos a) (negsuc b) = Ordering.gt
cmp_int (negsuc a) (pos b) = Ordering.lt
cmp_int (negsuc a) (negsuc b) = compare b a

pub int_refl : (a : ℤ) → cmp_int a a ≡ Ordering.eq
int_refl a = ground arith

pub int_eq : (a b : ℤ) → cmp_int a b ≡ Ordering.eq → a ≡ b
int_eq a b h = ground arith

pub int_trans :
    (a b c : ℤ) → cmp_int a b ≡ Ordering.lt → cmp_int b c ≡ Ordering.lt → cmp_int a c ≡ Ordering.lt
int_trans a b c h k = ground arith

pub int_flip : (a b : ℤ) → cmp_int a b ≡ Ordering.gt → cmp_int b a ≡ Ordering.lt
int_flip a b h = ground arith

instance abbrev pub int_ord : Ord ℤ
int_ord = record {
  cmp = cmp_int;
  cmp_refl = int_refl;
  eq_of_cmp = int_eq;
  cmp_trans = int_trans;
  cmp_flip = int_flip;
}
