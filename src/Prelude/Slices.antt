-- ===== src/Prelude/Slices.antt =====
-- Parts of a byte string: what stands at an offset, and writing over it.
use Prim.Native.Nat.{ℕ, ◌+◌}
use mathlib.Core.Path.{◌≡◌, refl, ap, ◌∙◌}
use mathlib.Core.Bool.{true}
use mathlib.Core.List.{List, [], ◌∷◌, ◌++◌, append_assoc}
use native.Mathlib.Omega.{arith}
use league_mod.Prelude.Tests.{leb}
use league_mod.Prelude.Lists.{length, take, drop, length-append}

-- What a `seek` to the offset and a write leave.
abbrev pub overwrite : ℕ → List ℕ → List ℕ → List ℕ
overwrite offset bytes written =
    take offset written ++ (bytes ++ drop (offset + length bytes) written)

pub take-append : {A : Type 0} (xs ys : List A) → take (length xs) (xs ++ ys) ≡ xs
take-append [] ys = ground arith
take-append (x ∷ xs) ys = ap (λ l. x ∷ l) (take-append xs ys)

pub drop-append : {A : Type 0} (xs ys : List A) → drop (length xs) (xs ++ ys) ≡ ys
drop-append [] ys = ground arith
drop-append (x ∷ xs) ys = drop-append xs ys

pub le-append : {A : Type 0} (xs ys : List A) → leb (length xs) (length (xs ++ ys)) ≡ true
le-append [] ys = ground arith
le-append (x ∷ xs) ys = ground (arith, le-append xs ys)

-- Over space of their length, the bytes stand between what was before and after.
pub overwrite-over :
    (before space after bytes : List ℕ)
    → length space ≡ length bytes
    → overwrite (length before) bytes ((before ++ space) ++ after) ≡ before ++ (bytes ++ after)
overwrite-over before space after bytes h =
    let end : length before + length bytes ≡ length (before ++ space) =
      omega (arith, length-append before space) in
    rw (end, drop-append (before ++ space) after, append_assoc before space after)
      (rw (take-append before (space ++ after)) refl)

-- The stored bytes stand at the offset, in a file whose data begin at `base`.
pub record Holds (base : ℕ) (bytes : List ℕ) (offset : ℕ) (stored : List ℕ) : Type 0 where
  pub before : List ℕ
  pub after : List ℕ
  pub split : bytes ≡ before ++ (stored ++ after)
  pub offset_is : offset ≡ base + length before

pub Holds-grow :
    (base : ℕ) (bytes more : List ℕ) (offset : ℕ) (stored : List ℕ)
    → Holds base bytes offset stored
    → Holds base (bytes ++ more) offset stored
Holds-grow base bytes more offset stored h = record {
  before = h.before;
  after = h.after ++ more;
  split =
      ap (λ b. b ++ more) h.split
      ∙ append_assoc h.before (stored ++ h.after) more
      ∙ ap (λ t. h.before ++ t) (append_assoc stored h.after more);
  offset_is = h.offset_is;
}
