-- ===== src/Modpkg/Write/Entries.antt =====
-- The entries that were written, and the chunks that they were made of.
use league_mod.Prelude.{
  ℕ, ◌≡◌, refl, sym, ap, ◌∙◌, ◌⊎◌, inl, inr, some, List, [], ◌∷◌, ◌++◌, arith, length, All, nat_ord,
  list_ord, pair_ord, eq_iff,
}
use league_mod.Prelude.Assoc.{In, get, Distinct, AllEntries}
use league_mod.Prelude.HashMap.{HashMap}
use league_mod.Prelude.Outcome.{Result, ok}
use league_mod.Overlay.Externals.{Externals}
use league_mod.Modpkg.Types.{ModpkgChunk}
use league_mod.Modpkg.Crates.{Crates}
use league_mod.Modpkg.Archive.{Key}
use league_mod.Modpkg.Builder.{ModpkgBuilderError, ModpkgChunkBuilder, key}
use league_mod.Modpkg.Tables.{values}
use league_mod.Modpkg.Write.{Indices, WrittenData, chunk_of}
use league_mod.Modpkg.Write.Stored.{Keeps, Processed, nil, cons}

pub length-values : {K V : Type 0} (m : HashMap K V) → length (values m) ≡ length m
length-values [] = refl
length-values ((k, v) ∷ m) = omega (arith, length-values m)

pub All-append :
    {A : Type 0} (P : A → Type 0) (xs ys : List A) → All P xs → All P ys → All P (xs ++ ys)
All-append P [] ys a b = b
All-append P (x ∷ xs) ys a b = (a.0, All-append P xs ys a.1 b)

pub In-append : {A : Type 0} (a : A) (xs ys : List A) → In a (xs ++ ys) → In a xs ⊎ In a ys
In-append a [] ys i = inr i
In-append a (x ∷ xs) ys (inl e) = inl (inl e)
In-append a (x ∷ xs) ys (inr i) = elim (In-append a xs ys i) [ inl l ↦ inl (inr l) | inr r ↦ inr r ]

pub In-append_left : {A : Type 0} (a : A) (xs ys : List A) → In a xs → In a (xs ++ ys)
In-append_left a [] ys i = elim i [ ]
In-append_left a (x ∷ xs) ys (inl e) = inl e
In-append_left a (x ∷ xs) ys (inr i) = inr (In-append_left a xs ys i)

pub In-append_right : {A : Type 0} (a : A) (xs ys : List A) → In a ys → In a (xs ++ ys)
In-append_right a [] ys i = i
In-append_right a (x ∷ xs) ys i = inr (In-append_right a xs ys i)

module _ (x : Crates) (e : Externals)
    (provide : ModpkgChunkBuilder → Result ModpkgBuilderError (List ℕ)) where
  pub length-Processed :
      {base : ℕ} {indices : Indices} {bytes : List ℕ} {chunks : List ModpkgChunkBuilder}
      {entries : List ModpkgChunk}
      → Processed x e base provide indices bytes chunks entries
      → length entries ≡ length chunks
  length-Processed nil = refl
  length-Processed (cons p k rest) = omega (arith, length-Processed rest)

  -- What an entry of the table was made of.
  pub record Made (base : ℕ) (indices : Indices) (bytes : List ℕ) (chunks : List ModpkgChunkBuilder)
      (n : ModpkgChunk) : Type 0 where
    pub chunk : ModpkgChunkBuilder
    pub raw : List ℕ
    pub entry : WrittenData
    pub there : In chunk chunks
    pub provided : provide chunk ≡ ok raw
    pub keeps : Keeps x e base bytes raw entry
    pub made : n ≡ chunk_of e indices chunk raw entry

  pub In-Processed :
      {base : ℕ} {indices : Indices} {bytes : List ℕ} {chunks : List ModpkgChunkBuilder}
      {entries : List ModpkgChunk} (n : ModpkgChunk)
      → Processed x e base provide indices bytes chunks entries
      → In n entries
      → Made base indices bytes chunks n
  In-Processed n nil i = elim i [ ]
  In-Processed n (cons {chunk} {raw} {entry} p k rest) (inl same) = record {
    chunk = chunk;
    raw = raw;
    entry = entry;
    there = inl refl;
    provided = p;
    keeps = k;
    made = same;
  }
  In-Processed n (cons p k rest) (inr i) =
      let m = In-Processed n rest i in
      record {
        chunk = m.chunk;
        raw = m.raw;
        entry = m.entry;
        there = inr m.there;
        provided = m.provided;
        keeps = m.keeps;
        made = m.made;
      }

  -- Each chunk has an entry.
  pub Processed-In :
      {base : ℕ} {indices : Indices} {bytes : List ℕ} {chunks : List ModpkgChunkBuilder}
      {entries : List ModpkgChunk} (c : ModpkgChunkBuilder)
      → Processed x e base provide indices bytes chunks entries
      → In c chunks
      → (n : ModpkgChunk) × In n entries
        × (raw : List ℕ) × (entry : WrittenData) × (n ≡ chunk_of e indices c raw entry)
  Processed-In c nil i = elim i [ ]
  Processed-In {indices} c (cons {chunk} {raw} {entry} p k rest) (inl same) =
      (_, inl refl, raw, entry, ap (λ d. chunk_of e indices d raw entry) (sym same))
  Processed-In c (cons p k rest) (inr i) =
      let m = Processed-In c rest i in (m.0, inr m.1, m.2, m.3, m.4)

  pub All-Processed :
      (P : ModpkgChunk → Type 0) {base : ℕ} {indices : Indices} {bytes : List ℕ}
      {chunks : List ModpkgChunkBuilder} {entries : List ModpkgChunk}
      → ((n : ModpkgChunk) → Made base indices bytes chunks n → P n)
      → Processed x e base provide indices bytes chunks entries
      → All P entries
  All-Processed P f nil = tt
  All-Processed P f (cons {chunk} {raw} {entry} p k rest) = (
    f _ (record {
      chunk = chunk;
      raw = raw;
      entry = entry;
      there = inl refl;
      provided = p;
      keeps = k;
      made = refl;
    }),
    All-Processed P
        (λ n m. f n (record {
          chunk = m.chunk;
          raw = m.raw;
          entry = m.entry;
          there = inr m.there;
          provided = m.provided;
          keeps = m.keeps;
          made = m.made;
        }))
        rest,
  )

-- A map whose entries are keyed by their chunk.
module _ (e : Externals) where
  pub In-values :
      (k : Key) (c : ModpkgChunkBuilder) (m : HashMap Key ModpkgChunkBuilder)
      → get k m ≡ some c
      → In c (values m)
  In-values k c [] h = cc
  In-values k c ((j, d) ∷ m) h = ground (arith, eq_iff j k, In-values k c m)

  pub get_of_values :
      (d : ModpkgChunkBuilder) (m : HashMap Key ModpkgChunkBuilder)
      → Distinct m
      → AllEntries (λ k c. key e c ≡ k) m
      → In d (values m)
      → get (key e d) m ≡ some d
  get_of_values d [] u a i = elim i [ ]
  get_of_values d ((j, c) ∷ m) u a (inl same) =
      let here : j ≡ key e d = sym (ap (key e) same ∙ a.0) in
      let is_d : c ≡ d = sym same in ground (arith, eq_iff j (key e d), here, is_d)
  get_of_values d ((j, c) ∷ m) u a (inr i) =
      let there = get_of_values d m u.1 a.1 i in ground (arith, eq_iff j (key e d), u.0, there)
