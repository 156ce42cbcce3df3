-- ===== src/Modpkg/Write/Selected.antt =====
-- The regular chunks of a builder are its chunks, if none has the path of a chunk of the package itself.
use league_mod.Prelude.{
  ℕ, ◌≡◌, refl, sym, ap, subst, ◌∙◌, inl, inr, Bool, true, false, not, Bool-cases, Option, none,
  some, List, [], ◌∷◌, ◌++◌, map, Text, arith, length, length-append, select, All, if◌then◌else◌,
  eq_iff, nat_ord, list_ord, pair_ord,
}
use league_mod.Prelude.Assoc.{In, is_some, AllEntries}
use league_mod.Prelude.HashMap.{HashMap}
use league_mod.Prelude.HashSet.{contains}
use league_mod.Overlay.Externals.{Externals}
use league_mod.Overlay.ChunkHash.{hash_chunk_name}
use league_mod.Modpkg.Types.{
  ModpkgChunk, metadata_chunk_path, thumbnail_chunk_path, readme_chunk_path,
}
use league_mod.Modpkg.Crates.{Crates}
use league_mod.Modpkg.Archive.{Key}
use league_mod.Modpkg.Builder.{ModpkgChunkBuilder, ModpkgBuilder}
use league_mod.Modpkg.Builder.Invariant.{IsNamed, Synced}
use league_mod.Modpkg.Tables.{values, all_builders}
use league_mod.Modpkg.Write.{path_hashes, sort_builders, collect_regular_chunks}
use league_mod.Modpkg.Write.Meta.{AreMeta, nil, cons, optional, meta_contents}

select_split :
    {A : Type 0} (p : A → Bool) (xs ys : List A)
    → All (λ c. p c ≡ true) xs
    → All (λ c. p c ≡ false) ys
    → select p (xs ++ ys) ≡ xs
select_split p [] [] a b = refl
select_split p [] (y ∷ ys) a b = rw (b.0) (select_split p [] ys a b.1)
select_split p (x ∷ xs) ys a b = rw (a.0) (ap (λ l. x ∷ l) (select_split p xs ys a.1 b))

module _ (e : Externals) where
  abbrev pub NamedIn : ModpkgBuilder → ℕ → Type 0
  NamedIn b =
      IsNamed (hash_chunk_name e metadata_chunk_path) (hash_chunk_name e thumbnail_chunk_path)
        (hash_chunk_name e readme_chunk_path) (is_some b.thumbnail) (is_some b.readme)

  hashes_of : List (Text × List ℕ) → List ℕ
  hashes_of contents = map (λ (r : Text × List ℕ). hash_chunk_name e r.0) contents

  IsNamed-contains :
      (t r : Option (List ℕ)) (h : ℕ)
      → IsNamed
          (hash_chunk_name e metadata_chunk_path)
          (hash_chunk_name e thumbnail_chunk_path)
          (hash_chunk_name e readme_chunk_path)
          (is_some t)
          (is_some r)
          h
      → contains h (
          hash_chunk_name e metadata_chunk_path
          ∷ hashes_of (optional thumbnail_chunk_path t ++ optional readme_chunk_path r))
        ≡ true
  unfolding hashes_of
  IsNamed-contains t r h n = ground (
    arith,
    eq_iff (hash_chunk_name e metadata_chunk_path) h,
    eq_iff (hash_chunk_name e thumbnail_chunk_path) h,
    eq_iff (hash_chunk_name e readme_chunk_path) h,
  )

  contains-IsNamed :
      (t r : Option (List ℕ)) (h : ℕ)
      → contains h (
          hash_chunk_name e metadata_chunk_path
          ∷ hashes_of (optional thumbnail_chunk_path t ++ optional readme_chunk_path r))
        ≡ true
      → IsNamed
          (hash_chunk_name e metadata_chunk_path)
          (hash_chunk_name e thumbnail_chunk_path)
          (hash_chunk_name e readme_chunk_path)
          (is_some t)
          (is_some r)
          h
  unfolding hashes_of
  contains-IsNamed t r h n = ground (
    arith,
    eq_iff (hash_chunk_name e metadata_chunk_path) h,
    eq_iff (hash_chunk_name e thumbnail_chunk_path) h,
    eq_iff (hash_chunk_name e readme_chunk_path) h,
  )

  AreMeta-path_hashes :
      (x : Crates) (base : ℕ) (path_indices : HashMap ℕ ℕ) {bytes : List ℕ}
      {contents : List (Text × List ℕ)} {chunks : List ModpkgChunk}
      → AreMeta x e base path_indices bytes contents chunks
      → path_hashes chunks ≡ hashes_of contents
  unfolding path_hashes hashes_of
  AreMeta-path_hashes x base path_indices nil = refl
  AreMeta-path_hashes x base path_indices (cons {path} {raw} {c} {contents} {chunks} m rest) =
      rw (m.path_hash_is)
        (ap (λ l. hash_chunk_name e path ∷ l) (AreMeta-path_hashes x base path_indices rest))

  All-regular :
      (b : ModpkgBuilder) (hashes : List ℕ) (m : HashMap Key ModpkgChunkBuilder)
      → ((h : ℕ) → contains h hashes ≡ true → NamedIn b h)
      → AllEntries (λ k c. ¬ NamedIn b c.path_hash) m
      → All (λ c. not (contains c.path_hash hashes) ≡ true) (values m)
  All-regular b hashes [] f a = tt
  All-regular b hashes ((k, c) ∷ m) f a = (
    elim (Bool-cases (contains c.path_hash hashes)) [
      | inl t ↦ absurd (a.0 (f c.path_hash t))
      | inr t ↦ rw t refl
    ],
    All-regular b hashes m f a.1,
  )

  pub All-meta :
      (b : ModpkgBuilder) (hashes : List ℕ) (m : HashMap Key ModpkgChunkBuilder)
      → ((h : ℕ) → NamedIn b h → contains h hashes ≡ true)
      → AllEntries (λ k c. NamedIn b c.path_hash) m
      → All (λ c. not (contains c.path_hash hashes) ≡ false) (values m)
  All-meta b hashes [] f a = tt
  All-meta b hashes ((k, c) ∷ m) f a = (rw (f c.path_hash a.0) refl, All-meta b hashes m f a.1)

  module _ (x : Crates) (base : ℕ) (path_indices : HashMap ℕ ℕ) (b : ModpkgBuilder)
      (synced : Synced e b.meta_chunks (is_some b.thumbnail) (is_some b.readme)) where
    pub collect_regular_chunks-eq-sort :
        (bytes metadata : List ℕ) (meta : List ModpkgChunk)
        → AreMeta x e base path_indices bytes (meta_contents b metadata) meta
        → AllEntries (λ k c. ¬ NamedIn b c.path_hash) b.chunks
        → collect_regular_chunks b meta ≡ sort_builders (values b.chunks)
    unfolding collect_regular_chunks all_builders hashes_of
    collect_regular_chunks-eq-sort bytes metadata meta are free =
        let same = AreMeta-path_hashes x base path_indices are in
        rw same (
          ap sort_builders (
            select_split _ (values b.chunks) (values b.meta_chunks)
              (All-regular b (hashes_of (meta_contents b metadata)) b.chunks
                (contains-IsNamed b.thumbnail b.readme) free)
              (All-meta b (hashes_of (meta_contents b metadata)) b.meta_chunks
                (IsNamed-contains b.thumbnail b.readme) synced.named)))

    length-optional :
        (path : Text) (o : Option (List ℕ))
        → length (optional path o) ≡ (if is_some o then 1 else 0)
    length-optional path none = refl
    length-optional path (some raw) = refl

    length-AreMeta :
        {bytes : List ℕ} {contents : List (Text × List ℕ)} {chunks : List ModpkgChunk}
        → AreMeta x e base path_indices bytes contents chunks
        → length chunks ≡ length contents
    length-AreMeta nil = refl
    length-AreMeta (cons m rest) = omega (arith, length-AreMeta rest)

    -- As many chunks of the package itself are written as the builder has.
    pub length-meta :
        (bytes metadata : List ℕ) (meta : List ModpkgChunk)
        → AreMeta x e base path_indices bytes (meta_contents b metadata) meta
        → length meta ≡ length b.meta_chunks
    length-meta bytes metadata meta are =
        length-AreMeta are
        ∙ omega (
          arith,
          synced.count,
          length-append (optional thumbnail_chunk_path b.thumbnail)
              (optional readme_chunk_path b.readme),
          length-optional thumbnail_chunk_path b.thumbnail,
          length-optional readme_chunk_path b.readme,
        )

  contains-path_hashes :
      (n : ModpkgChunk) (chunks : List ModpkgChunk)
      → In n chunks
      → contains n.path_hash (path_hashes chunks) ≡ true
  unfolding path_hashes
  contains-path_hashes n [] i = elim i [ ]
  contains-path_hashes n (c ∷ chunks) (inl same) =
      let hash : c.path_hash ≡ n.path_hash = ap (λ (d : ModpkgChunk). d.path_hash) (sym same) in
      ground (arith, eq_iff c.path_hash n.path_hash, hash)
  contains-path_hashes n (c ∷ chunks) (inr i) = ground (arith, contains-path_hashes n chunks i)

  -- An entry of the package itself has one of the paths.
  pub meta-NamedIn :
      (x : Crates) (base : ℕ) (path_indices : HashMap ℕ ℕ) (b : ModpkgBuilder)
      (bytes metadata : List ℕ) (meta : List ModpkgChunk) (n : ModpkgChunk)
      → AreMeta x e base path_indices bytes (meta_contents b metadata) meta
      → In n meta
      → NamedIn b n.path_hash
  unfolding hashes_of
  meta-NamedIn x base path_indices b bytes metadata meta n are i =
      contains-IsNamed b.thumbnail b.readme n.path_hash (
        subst (λ l. contains n.path_hash l ≡ true) (AreMeta-path_hashes x base path_indices are)
          (contains-path_hashes n meta i))

  -- Each of the paths is that of an entry of the package itself.
  pub NamedIn-contains :
      (x : Crates) (base : ℕ) (path_indices : HashMap ℕ ℕ) (b : ModpkgBuilder)
      (bytes metadata : List ℕ) (meta : List ModpkgChunk)
      → AreMeta x e base path_indices bytes (meta_contents b metadata) meta
      → (h : ℕ) → NamedIn b h
      → contains h (path_hashes meta) ≡ true
  unfolding hashes_of
  NamedIn-contains x base path_indices b bytes metadata meta are h n =
      rw (AreMeta-path_hashes x base path_indices are) (IsNamed-contains b.thumbnail b.readme h n)
