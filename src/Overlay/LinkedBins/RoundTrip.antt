-- ===== src/Overlay/LinkedBins/RoundTrip.antt =====
-- The links of a property-bin are read as they were written.
use Prim.Native.Nat.{◌^◌}
use league_mod.Prelude.{
  ℕ, ◌≡◌, ◌<◌, ◌≤◌, refl, ap, ◌∙◌, false, some, List, [], ◌∷◌, ◌++◌, map, Text, text, arith, ltb,
  length, take, drop, All, length-append,
}
use league_mod.Prelude.Bytes.{le_bytes, length-le_bytes, from_le-le_bytes}
use league_mod.Overlay.LinkedBins.{
  max_linked_files, read_exact, read_uint, read_links, read_prop, parse_linked_bins,
}

take-append : (xs ys : List ℕ) → take (length xs) (xs ++ ys) ≡ xs
take-append [] ys = ground arith
take-append (x ∷ xs) ys = ap (λ l. x ∷ l) (take-append xs ys)

drop-append : (xs ys : List ℕ) → drop (length xs) (xs ++ ys) ≡ ys
drop-append [] ys = ground arith
drop-append (x ∷ xs) ys = drop-append xs ys

read_exact-append :
    (n : ℕ) (xs ys : List ℕ) → length xs ≡ n → read_exact n (xs ++ ys) ≡ some (xs, ys)
unfolding read_exact
read_exact-append n xs ys e =
    rw (← e, take-append xs ys, drop-append xs ys) (ground (arith, length-append xs ys))

read_uint-append :
    (w n : ℕ) (ys : List ℕ) → n < 256 ^ w → read_uint w (le_bytes w n ++ ys) ≡ some (n, ys)
unfolding read_uint
read_uint-append w n ys h =
    rw (read_exact-append w (le_bytes w n) ys (length-le_bytes w n))
      (ap (λ m. some (m, ys)) (from_le-le_bytes w n h))

-- The links as the format writes them, with what follows.
abbrev pub encode_links : List (List ℕ) → List ℕ → List ℕ
encode_links [] rest = rest
encode_links (s ∷ ss) rest = le_bytes 2 (length s) ++ (s ++ encode_links ss rest)

-- A `PROP` section.
abbrev pub encode_prop : ℕ → List (List ℕ) → List ℕ → List ℕ
encode_prop version ss rest =
    text "PROP" ++ (le_bytes 4 version ++ (le_bytes 4 (length ss) ++ encode_links ss rest))

-- A `PTCH` header and its `PROP` section.
abbrev pub encode_ptch : ℕ → ℕ → List ℕ → List ℕ
encode_ptch a b prop = text "PTCH" ++ (le_bytes 4 a ++ (le_bytes 4 b ++ prop))

module _ (lossy : List ℕ → Text) where
  read_links-encode :
      (ss : List (List ℕ)) (rest : List ℕ)
      → All (λ s. length s < 256 ^ 2) ss
      → read_links lossy (length ss) (encode_links ss rest) ≡ some (map lossy ss)
  unfolding read_links
  read_links-encode [] rest a = refl
  read_links-encode (s ∷ ss) rest (h, a) =
      rw
        (
          read_uint-append 2 (length s) (s ++ encode_links ss rest) h,
          read_exact-append (length s) s (encode_links ss rest) refl,
          read_links-encode ss rest a,
        )
        refl

  read_prop-encode :
      (version : ℕ) (ss : List (List ℕ)) (rest : List ℕ)
      → 2 ≤ version
      → version < 256 ^ 4
      → length ss ≤ max_linked_files
      → All (λ s. length s < 256 ^ 2) ss
      → read_prop lossy (le_bytes 4 version ++ (le_bytes 4 (length ss) ++ encode_links ss rest))
        ≡ some (map lossy ss)
  unfolding read_prop
  read_prop-encode version ss rest v w n a =
      let new_version : ltb version 2 ≡ false = ground arith in
      let few : ltb max_linked_files (length ss) ≡ false = ground arith in
      let small : length ss < 256 ^ 4 = omega arith in
      rw
        (
          read_uint-append 4 version (le_bytes 4 (length ss) ++ encode_links ss rest) w,
          new_version,
          read_uint-append 4 (length ss) (encode_links ss rest) small,
          few,
        )
        (read_links-encode ss rest a)

  parse-prop :
      (bytes s : List ℕ)
      → read_exact 4 bytes ≡ some (text "PROP", s)
      → parse_linked_bins lossy bytes ≡ read_prop lossy s
  unfolding parse_linked_bins
  parse-prop bytes s e = rw (e, parse_linked_bins) refl

  parse-ptch :
      (bytes s t u v : List ℕ) (a b : ℕ)
      → read_exact 4 bytes ≡ some (text "PTCH", s)
      → read_uint 4 s ≡ some (a, t)
      → read_uint 4 t ≡ some (b, u)
      → read_exact 4 u ≡ some (text "PROP", v)
      → parse_linked_bins lossy bytes ≡ read_prop lossy v
  unfolding parse_linked_bins
  parse-ptch bytes s t u v a b e f g h = rw (e, parse_linked_bins) (rw (f, g, h) refl)

  -- For a version of at least 2, at most 100000 links, link lengths of two bytes and other numbers
  -- of four bytes: parsing a property-bin gives back the links that it was written with, decoded,
  -- both for a bare section and behind a patch header, whatever follows.
  pub parse-encode :
      (version a b : ℕ) (ss : List (List ℕ)) (rest : List ℕ)
      → 2 ≤ version
      → version < 256 ^ 4
      → a < 256 ^ 4
      → b < 256 ^ 4
      → length ss ≤ max_linked_files
      → All (λ s. length s < 256 ^ 2) ss
      → (parse_linked_bins lossy (encode_prop version ss rest) ≡ some (map lossy ss))
        × (parse_linked_bins lossy (encode_ptch a b (encode_prop version ss rest))
            ≡ some (map lossy ss))
  parse-encode version a b ss rest v w x y n all =
      let body = le_bytes 4 version ++ (le_bytes 4 (length ss) ++ encode_links ss rest) in
      let prop = read_prop-encode version ss rest v w n all in
      let header = read_exact-append 4 (text "PROP") body refl in
      (
        parse-prop (encode_prop version ss rest) body header ∙ prop,
        parse-ptch (encode_ptch a b (encode_prop version ss rest)) _ _ _ body a b
              (read_exact-append 4 (text "PTCH")
                (le_bytes 4 a ++ (le_bytes 4 b ++ encode_prop version ss rest)) refl)
              (read_uint-append 4 a (le_bytes 4 b ++ encode_prop version ss rest) x)
              (read_uint-append 4 b (encode_prop version ss rest) y) header
            ∙ prop,
      )
