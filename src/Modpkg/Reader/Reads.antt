-- ===== src/Modpkg/Reader/Reads.antt =====
-- When a reader takes given bytes off the input and yields a value, whatever follows them.
use league_mod.Prelude.{ℕ, ◌^◌, ◌<◌, ◌≡◌, refl, subst, List, [], ◌++◌, length, nat_ord}
use mathlib.Core.List.{append_assoc}
use league_mod.Prelude.Bytes.{le_bytes, from_le, from_le-le_bytes, length-le_bytes}
use league_mod.Prelude.Slices.{take-append, drop-append, le-append}
use league_mod.Prelude.Outcome.{ok}
use league_mod.Modpkg.Types.{ModpkgError}
use league_mod.Modpkg.Reader.{Reader, ◌>>=◌, pure, read_exact, read_uint}

pub record Reads {A : Type 0} (m : Reader A) (bytes : List ℕ) (a : A) : Type 0 where
  pub run : (rest : List ℕ) → m (bytes ++ rest) ≡ ok (a, rest)

pub Reads-pure : {A : Type 0} (a : A) → Reads (pure a) [] a
Reads-pure a = record { run = λ rest. refl }

pub Reads->>= :
    {A B : Type 0} (m : Reader A) (f : A → Reader B) {s t : List ℕ} {a : A} {b : B}
    → Reads m s a
    → Reads (f a) t b
    → Reads (m >>= f) (s ++ t) b
Reads->>= m f {s} {t} {a} {b} r q = record {
  run = λ rest. rw (append_assoc s t rest) (rw (r.run (t ++ rest)) (q.run rest));
}

-- The last step of a reader takes the bytes that are left.
pub Reads-last :
    {A B : Type 0} (m : Reader A) (f : A → B) {s : List ℕ} {a : A}
    → Reads m s a
    → Reads (m >>= λ v. pure (f v)) s (f a)
Reads-last m f r = record { run = λ rest. rw (r.run rest) refl }

pub Reads-read_exact :
    (e : ModpkgError) (bytes : List ℕ) → Reads (read_exact e (length bytes)) bytes bytes
unfolding read_exact
Reads-read_exact e bytes = record {
  run = λ rest. rw (le-append bytes rest, take-append bytes rest, drop-append bytes rest) refl;
}

pub Reads-read_uint :
    (e : ModpkgError) (w n : ℕ) → n < 256 ^ w → Reads (read_uint e w) (le_bytes w n) n
unfolding read_uint
Reads-read_uint e w n h =
    let exact : Reads (read_exact e w) (le_bytes w n) (le_bytes w n) =
      subst (λ k. Reads (read_exact e k) (le_bytes w n) (le_bytes w n)) (length-le_bytes w n)
        (Reads-read_exact e (le_bytes w n)) in
    subst (Reads (read_uint e w) (le_bytes w n)) (from_le-le_bytes w n h)
      (Reads-last (read_exact e w) from_le exact)

-- The integer of any bytes.
pub Reads-read_uint_of :
    (e : ModpkgError) (bytes : List ℕ) → Reads (read_uint e (length bytes)) bytes (from_le bytes)
unfolding read_uint
Reads-read_uint_of e bytes = Reads-last _ from_le (Reads-read_exact e bytes)

pub Reads-retype :
    {A : Type 0} {m : Reader A} {bytes : List ℕ} {a b : A}
    → a ≡ b
    → Reads m bytes a
    → Reads m bytes b
Reads-retype {A} {m} {bytes} e r = subst (Reads m bytes) e r
