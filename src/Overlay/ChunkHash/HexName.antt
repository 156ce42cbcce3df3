-- ===== src/Overlay/ChunkHash/HexName.antt =====
-- A file that is named by its chunk's hash, as the readers of packed WADs name them.
use Prim.Native.Nat.{◌^◌, ◌/◌, ◌%◌, ◌*◌, ◌+◌}
use native.Mathlib.Nat.{pow-suc}
use league_mod.Prelude.{
  list_ord, ℕ, zero, suc, ◌≡◌, ◌<◌, refl, ap, ◌∙◌, Bool, true, false, none, some, [], ◌∷◌, ◌++◌,
  Text, arith, ltb, length, take, all, any, length-append, if◌then◌else◌, ◌==◌, nat_ord,
}
use league_mod.Prelude.Outcome.{Result, ok}
use league_mod.Overlay.FilePath.{FilePath, file_name}
use league_mod.Overlay.Types.{Error}
use league_mod.Overlay.Externals.{Externals}
use league_mod.Overlay.Distribute.{or_empty}
use league_mod.Overlay.ChunkHash.{
  last_dot, file_stem, is_hexdigit, digit_value, from_hex, is_hex_stem, hash_chunk_name,
  normalize_chunk_path, normalize_rel_path_for_hash, resolve_chunk_hash, dot,
}

-- A digit of `format!("{:016x}")`.
abbrev pub hex_digit : ℕ → ℕ
hex_digit d = if ltb d 10 then b'0' + d else 87 + d

-- `w` digits, the high one first.
abbrev pub to_hex : ℕ → ℕ → Text
to_hex zero n = []
to_hex (suc w) n = to_hex w (n / 16) ++ (hex_digit (n % 16) ∷ [])

digit_value-hex_digit : (d : ℕ) → d < 16 → digit_value (hex_digit d) ≡ d
unfolding digit_value
digit_value-hex_digit d h = ground arith

is_hexdigit-hex_digit : (d : ℕ) → d < 16 → is_hexdigit (hex_digit d) ≡ true
unfolding is_hexdigit
is_hexdigit-hex_digit d h = ground arith

from_hex-snoc :
    (acc b : ℕ) (s : Text) → from_hex acc (s ++ (b ∷ [])) ≡ 16 * from_hex acc s + digit_value b
unfolding from_hex
from_hex-snoc acc b [] = refl
from_hex-snoc acc b (c ∷ s) = from_hex-snoc (16 * acc + digit_value c) b s

from_hex-to_hex : (w n : ℕ) → n < 16 ^ w → from_hex 0 (to_hex w n) ≡ n
unfolding from_hex
from_hex-to_hex zero n h = omega arith
from_hex-to_hex (suc w) n h =
    let smaller : n / 16 < 16 ^ w = omega (arith, pow-suc 16 w) in
    let digit : n % 16 < 16 = omega arith in
    from_hex-snoc 0 (hex_digit (n % 16)) (to_hex w (n / 16))
    ∙ omega (arith, from_hex-to_hex w (n / 16) smaller, digit_value-hex_digit (n % 16) digit)

length-to_hex : (w n : ℕ) → length (to_hex w n) ≡ w
length-to_hex zero n = refl
length-to_hex (suc w) n =
    length-append (to_hex w (n / 16)) (hex_digit (n % 16) ∷ [])
    ∙ omega (arith, length-to_hex w (n / 16))

all-snoc :
    (p : ℕ → Bool) (s : Text) (b : ℕ) → all p s ≡ true → p b ≡ true → all p (s ++ (b ∷ [])) ≡ true
all-snoc p [] b a h = ground arith
all-snoc p (c ∷ s) b a h = ground (arith, all-snoc p s b)

all-to_hex : (w n : ℕ) → all is_hexdigit (to_hex w n) ≡ true
all-to_hex zero n = refl
all-to_hex (suc w) n =
    all-snoc is_hexdigit (to_hex w (n / 16)) (hex_digit (n % 16)) (all-to_hex w (n / 16))
      (is_hexdigit-hex_digit (n % 16) (omega arith))

last_dot-append :
    (s t : Text) (i : ℕ) → last_dot t ≡ some i → last_dot (s ++ t) ≡ some (length s + i)
unfolding last_dot
last_dot-append [] t i e = ground (arith, e)
last_dot-append (b ∷ s) t i e = ground (arith, last_dot-append s t i e)

take-append : (s t : Text) → take (length s) (s ++ t) ≡ s
take-append [] t = ground arith
take-append (b ∷ s) t = ap (λ l. b ∷ l) (take-append s t)

-- The bytes have no dot.
abbrev pub IsDotless : Text → Type 0
IsDotless s = any (λ b. b == dot) s ≡ false

last_dot-none : (s : Text) → IsDotless s → last_dot s ≡ none
unfolding last_dot
last_dot-none [] d = refl
last_dot-none (b ∷ s) d = ground (arith, last_dot-none s)

last_dot-extension : (s : Text) → IsDotless s → last_dot (dot ∷ s) ≡ some 0
unfolding last_dot
last_dot-extension s d = rw (last_dot-none s d) refl

file_stem-extension :
    (s ext : Text) → (length s == 0) ≡ false → IsDotless ext → file_stem (s ++ (dot ∷ ext)) ≡ s
unfolding file_stem
file_stem-extension s ext n d =
    let at : last_dot (s ++ (dot ∷ ext)) ≡ some (length s) =
      last_dot-append s (dot ∷ ext) 0 (last_dot-extension ext d) ∙ ap some (omega arith) in
    rw (at, file_stem) (rw n (take-append s (dot ∷ ext)))

file_name-snoc : (dir : FilePath) (name : Text) → file_name (dir ++ (name ∷ [])) ≡ some name
unfolding file_name
file_name-snoc [] name = refl
file_name-snoc (c ∷ []) name = refl
file_name-snoc (c ∷ d ∷ dir) name = file_name-snoc (d ∷ dir) name

is_hex_stem-to_hex : (n : ℕ) → is_hex_stem (to_hex 16 n) ≡ true
unfolding is_hex_stem
is_hex_stem-to_hex n = rw (length-to_hex 16 n, all-to_hex 16 n) refl

choose_hex :
    (s stem : Text) (named : Result Error ℕ)
    → s ≡ stem
    → is_hex_stem stem ≡ true
    → (if is_hex_stem s then ok (from_hex 0 s) else named) ≡ ok (from_hex 0 stem)
choose_hex s stem named e t = rw (e, t) refl

resolve_chunk_hash-stem :
    (e : Externals) (path : FilePath) (stem : Text)
    → file_stem (or_empty (file_name path)) ≡ stem
    → is_hex_stem stem ≡ true
    → resolve_chunk_hash e path ≡ ok (from_hex 0 stem)
unfolding resolve_chunk_hash
resolve_chunk_hash-stem e path stem s t =
    choose_hex (file_stem (or_empty (file_name path))) stem
      (ok (hash_chunk_name e (normalize_chunk_path e (normalize_rel_path_for_hash path)))) s t

nonzero : (k : ℕ) → k ≡ 16 → (k == 0) ≡ false
nonzero k e = rw e refl

-- A file in any directory whose name is a 64-bit number in sixteen lower-case hexadecimal digits, a
-- dot and an extension without a dot has that number as its chunk hash.
pub resolve_chunk_hash-to_hex :
    (e : Externals) (dir : FilePath) (n : ℕ) (ext : Text)
    → n < 16 ^ 16
    → IsDotless ext
    → resolve_chunk_hash e (dir ++ ((to_hex 16 n ++ (dot ∷ ext)) ∷ [])) ≡ ok n
resolve_chunk_hash-to_hex e dir n ext h d =
    let long : (length (to_hex 16 n) == 0) ≡ false =
      nonzero (length (to_hex 16 n)) (length-to_hex 16 n) in
    resolve_chunk_hash-stem e (dir ++ ((to_hex 16 n ++ (dot ∷ ext)) ∷ [])) (to_hex 16 n)
      (ap (λ name. file_stem (or_empty name)) (file_name-snoc dir (to_hex 16 n ++ (dot ∷ ext)))
        ∙ (file_stem-extension (to_hex 16 n) ext long d))
      (is_hex_stem-to_hex n)
    ∙ ap ok (from_hex-to_hex 16 n h)
