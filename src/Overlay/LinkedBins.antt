-- ===== src/Overlay/LinkedBins.antt =====
-- crates/ltk_overlay/src/linked_bins.rs: the linked files that a property-bin declares, and the
-- mods whose bins declare files that are in no reach.
pub mod RoundTrip
use league_mod.Prelude.{
  ℕ, zero, suc, Option, none, some, List, [], ◌∷◌, Text, text, ltb, leb, length, take, drop,
  if◌then◌else◌, ◌==◌, nat_ord, list_ord,
}
use league_mod.Prelude.Bytes.{from_le}

abbrev pub max_linked_files : ℕ
max_linked_files = 100000

infixl 5 ◌>>=◌
abbrev pub ◌>>=◌ {ℓ κ} : {A : Type ℓ} {B : Type κ} → Option A → (A → Option B) → Option B
none >>= f = none
some a >>= f = f a

-- `read_exact` of `n` bytes from a cursor: the bytes and the rest, if there are so many.
unfoldable pub read_exact : ℕ → List ℕ → Option (List ℕ × List ℕ)
read_exact n s = if leb n (length s) then some (take n s, drop n s) else none

-- `read_u16::<LE>` and `read_u32::<LE>`
unfoldable pub read_uint : ℕ → List ℕ → Option (ℕ × List ℕ)
unfolding read_exact
read_uint n s = read_exact n s >>= λ r. some (from_le r.0, r.1)

module _ (lossy : List ℕ → Text) where
  unfoldable pub read_links : ℕ → List ℕ → Option (List Text)
  read_links zero s = some []
  read_links (suc n) s = do
    (len, s₁) ← read_uint 2 s
    (buf, s₂) ← read_exact len s₁
    links ← read_links n s₂
    some (lossy buf ∷ links)

  unfoldable pub read_prop : List ℕ → Option (List Text)
  unfolding read_links
  read_prop s = do
    (version, s₁) ← read_uint 4 s
    if ltb version 2 then some [] else do
      (count, s₂) ← read_uint 4 s₁
      if ltb max_linked_files count then none else read_links count s₂

  read_magic : List ℕ → List ℕ → Option (List Text)
  unfolding read_prop
  read_magic magic s = if magic == text "PROP" then read_prop s else none

  unfoldable pub parse_linked_bins : List ℕ → Option (List Text)
  unfolding read_magic
  parse_linked_bins bytes = do
    (magic, s) ← read_exact 4 bytes
    if magic == text "PTCH"
        then (do
          (a, s₁) ← read_uint 4 s
          (b, s₂) ← read_uint 4 s₁
          (inner, s₃) ← read_exact 4 s₂
          read_magic inner s₃)
        else read_magic magic s
