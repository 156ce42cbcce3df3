-- ===== src/Modpkg/Write/RoundTrip.antt =====
-- What `build_to_writer` writes mounts, and every chunk loads as its content.
use league_mod.Prelude.{
  ℕ, ◌+◌, ◌^◌, ◌<◌, ◌≡◌, refl, sym, ap, subst, ◌∙◌, inl, inr, true, some, Option-cases, List, [],
  ◌++◌, arith, length, nat_ord, list_ord, pair_ord,
}
use mathlib.Core.List.{append_assoc}
use league_mod.Prelude.Assoc.{In, get, contains_key, AllEntries, entry_of}
use league_mod.Prelude.HashMap.{HashMap}
use league_mod.Prelude.Outcome.{Result, ok}
use league_mod.Overlay.Externals.{Externals}
use league_mod.Modpkg.Types.{ModpkgChunk}
use league_mod.Modpkg.Crates.{Crates, Documented}
use league_mod.Modpkg.Archive.{
  Key, Modpkg, load_chunk_decompressed, load_chunk_decompressed_by_hash,
}
use league_mod.Modpkg.Builder.{ModpkgBuilderError, ModpkgChunkBuilder, ModpkgBuilder, key}
use league_mod.Modpkg.Builder.Invariant.{IsBuilder}
use league_mod.Modpkg.Format.{write_alignment, chunks_bytes}
use league_mod.Modpkg.Tables.{values, collect_unique_layers, validate_layers}
use league_mod.Modpkg.Mount.{mount_from_reader}
use league_mod.Modpkg.Mount.Fields.{layer_hashes}
use league_mod.Modpkg.Mount.Layout.{Layout, front_of, file_of, package_of, mount-file_of}
use league_mod.Modpkg.Write.{WrittenData, chunk_of, sort_builders, indices_of, build_to_writer}
use league_mod.Modpkg.Write.Stored.{Keeps, NoCollision}
use league_mod.Modpkg.Write.Regular.{In-sort_builders, sort_builders-In}
use league_mod.Modpkg.Write.Selected.{NamedIn}
use league_mod.Modpkg.Write.Placed.{HasWidth}
use league_mod.Modpkg.Write.Parts.{reserved, Parts, build_to_writer-Built}
use league_mod.Modpkg.Write.Loading.{load-Keeps, key_of, add_chunks_found, add_chunks-In}
use league_mod.Modpkg.Write.Entries.{In-append, In-append_right, Made, In-Processed, Processed-In}
use league_mod.Modpkg.Write.Entries.{In-values, get_of_values}
use league_mod.Modpkg.Write.Selected.{meta-NamedIn}
use league_mod.Modpkg.Write.Written.{
  Fits, layout_of, toc_is, table_fits, length-file, written-IsLayout, leads,
}

module _ (x : Crates) (e : Externals)
    (provide : ModpkgChunkBuilder → Result ModpkgBuilderError (List ℕ)) (b : ModpkgBuilder) where
  -- What the builder and the other crates have to satisfy.
  pub record IsBuildable : Type 0 where
    pub documented : Documented x
    pub width : HasWidth e
    pub no_collision : NoCollision e provide
    pub builder : IsBuilder e b
    pub free : AllEntries (λ k c. ¬ NamedIn e b c.path_hash) b.chunks
    pub fits : Fits b provide

  module _ (v : IsBuildable) (written : List ℕ) (entries : List ModpkgChunk)
      (parts : Parts x e provide b written entries)
      (validated : validate_layers b.layers (collect_unique_layers e b).0 ≡ ok tt)
      (small : length (reserved e b) + length parts.bytes < 2 ^ 64) where
    chunk_key :
        (n : ModpkgChunk) (c : ModpkgChunkBuilder) (raw : List ℕ) (entry : WrittenData)
        → In c (sort_builders (values b.chunks))
        → n ≡ chunk_of e (indices_of e b) c raw entry
        → key_of (layer_hashes e b.layers) n ≡ key e c
    unfolding chunk_of key
    chunk_key n c raw entry i made =
        ap (key_of (layer_hashes e b.layers)) made
        ∙ ap (λ h. (c.path_hash, h))
            (leads x e provide b v.builder written entries parts v.width v.fits validated small c
              raw entry i).hash_is

    -- The key of an entry is that of the chunk it was made of.
    Made-key :
        (n : ModpkgChunk)
        → (m : Made x e provide
            (length (reserved e b))
            (indices_of e b)
            parts.bytes
            (sort_builders (values b.chunks))
            n)
        → key_of (layer_hashes e b.layers) n ≡ key e m.chunk
    Made-key n m = chunk_key n m.chunk m.raw m.entry m.there m.made

    module _ (before : List ℕ) (at_base : length before ≡ length (reserved e b)) where
      Made-loads :
          (n : ModpkgChunk)
          → (m : Made x e provide
              (length (reserved e b))
              (indices_of e b)
              parts.bytes
              (sort_builders (values b.chunks))
              n)
          → load_chunk_decompressed x (before ++ parts.bytes) n ≡ ok m.raw
      unfolding chunk_of
      Made-loads n m =
          subst (λ c. load_chunk_decompressed x (before ++ parts.bytes) c ≡ ok m.raw) (sym m.made)
            (load-Keeps x e before parts.bytes m.raw
              (chunk_of e (indices_of e b) m.chunk m.raw m.entry)
              (subst (λ base. Keeps x e base parts.bytes m.raw m.entry) (sym at_base) m.keeps) refl)

      -- An entry with the key of a chunk was made of that chunk, and loads as its content.
      entry-loads :
          (k : Key) (c : ModpkgChunkBuilder) (n : ModpkgChunk)
          → get k b.chunks ≡ some c
          → In n entries
          → key_of (layer_hashes e b.layers) n ≡ k
          → (raw : List ℕ) × (provide c ≡ ok raw)
            × (load_chunk_decompressed x (before ++ parts.bytes) n ≡ ok raw)
      unfolding key
      entry-loads k c n here there same =
          elim (In-append n parts.meta parts.regular (subst (In n) parts.entries_are there)) [
            | inl i ↦
                let named =
                  meta-NamedIn e x (length (reserved e b)) (indices_of e b).paths b parts.bytes
                    parts.metadata parts.meta n parts.are_meta i in
                let hash : n.path_hash ≡ c.path_hash =
                  ap (λ (j : Key). j.0)
                    (same
                      ∙ sym (entry_of (λ j d. key e d ≡ j) k c b.chunks v.builder.keyed here)) in
                absurd (
                  entry_of (λ j d. ¬ NamedIn e b d.path_hash) k c b.chunks v.free here
                    (subst (NamedIn e b) hash named))
            | inr i ↦
                let m = In-Processed x e provide n parts.processed i in
                let key_is : key e m.chunk ≡ k = sym (Made-key n m) ∙ same in
                let found =
                  get_of_values e m.chunk b.chunks v.builder.distinct v.builder.keyed
                    (In-sort_builders m.chunk (values b.chunks) m.there) in
                let is_c : m.chunk ≡ c = cc (ap (λ j. get j b.chunks) key_is, found, here) in
                (m.raw, ap provide (sym is_c) ∙ m.provided, Made-loads n m)
          ]

    -- Each chunk has an entry with its key.
    entry-there :
        (k : Key) (c : ModpkgChunkBuilder)
        → get k b.chunks ≡ some c
        → contains_key k (package_of e (layout_of x e provide b entries parts.bytes)).chunks ≡ true
    entry-there k c here =
        let listed = sort_builders-In c (values b.chunks) (In-values e k c b.chunks here) in
        let n = Processed-In x e provide c parts.processed listed in
        let there : In n.0 entries =
          subst (In n.0) (sym parts.entries_are)
            (In-append_right n.0 parts.meta parts.regular n.1) in
        subst
          (λ j.
            contains_key j (package_of e (layout_of x e provide b entries parts.bytes)).chunks
            ≡ true)
          (chunk_key n.0 c n.2 n.3 listed n.4
            ∙ entry_of (λ j d. key e d ≡ j) k c b.chunks v.builder.keyed here)
          (add_chunks-In (layer_hashes e b.layers) n.0 entries ([], []) there)

    -- The chunk of a key loads from the mounted package.
    package-loads :
        (k : Key) (c : ModpkgChunkBuilder)
        → get k b.chunks ≡ some c
        → (raw : List ℕ) × (provide c ≡ ok raw)
          × (load_chunk_decompressed_by_hash x
                (package_of e (layout_of x e provide b entries parts.bytes))
                k
              ≡ ok raw)
    unfolding load_chunk_decompressed_by_hash file_of
    package-loads k c here =
        let a : Layout = layout_of x e provide b entries parts.bytes in
        let chunks : HashMap Key ModpkgChunk = (package_of e a).chunks in
        let before : List ℕ = write_alignment (front_of a) ++ chunks_bytes entries in
        elim (Option-cases (get k chunks)) [
          | inl absent ↦ absurd (ground (arith, absent, entry-there k c here))
          | inr (n, found) ↦
              elim (add_chunks_found (layer_hashes e b.layers) k n entries ([], []) found) [
                | inl early ↦ cc
                | inr (there, same) ↦
                    let r =
                      entry-loads before (table_fits x e provide b v.builder written entries parts)
                        k c n here there same in
                    (
                      r.0,
                      r.1,
                      rw
                          (
                            found,
                            ← append_assoc (write_alignment (front_of a)) (chunks_bytes entries)
                                parts.bytes,
                          )
                          r.2,
                    )
              ]
        ]

  -- A file that was built: a file of the format, with its entries and data.
  pub record IsBuilt (file : List ℕ) : Type 0 where
    pub written : List ℕ
    pub entries : List ModpkgChunk
    pub parts : Parts x e provide b written entries
    pub validated : validate_layers b.layers (collect_unique_layers e b).0 ≡ ok tt
    pub is_file : file ≡ file_of (layout_of x e provide b entries parts.bytes)
    pub length_is : length file ≡ length (reserved e b) + length parts.bytes
    pub mounts :
        mount_from_reader x e file ≡ ok (package_of e (layout_of x e provide b entries parts.bytes))

  pub build-IsBuilt :
      (file : List ℕ)
      → IsBuildable
      → length file < 2 ^ 64
      → build_to_writer x e provide b ≡ ok file
      → IsBuilt file
  build-IsBuilt file v small h =
      let built =
        build_to_writer-Built x e provide b v.documented v.no_collision v.builder v.free file h in
      let parts = built.parts in
      let a : Layout = layout_of x e provide b built.entries parts.bytes in
      let is_file : file ≡ file_of a =
        built.file_is ∙ toc_is x e provide b v.builder built.written built.entries parts in
      let length_is : length file ≡ length (reserved e b) + length parts.bytes =
        ap (length {A = ℕ}) is_file
        ∙ length-file x e provide b v.builder built.written built.entries parts in
      record {
        written = built.written;
        entries = built.entries;
        parts = parts;
        validated = built.validated;
        is_file = is_file;
        length_is = length_is;
        mounts =
            ap (mount_from_reader x e) is_file
            ∙ mount-file_of x e v.documented a (
                written-IsLayout x e provide b v.builder built.written built.entries parts v.width
                  v.fits built.validated (omega (arith, small, length_is)));
      }

  -- Where what was compressed decompresses to itself, texts are read up to the null byte, hashes
  -- have 64 bits, no two contents of the same length have one xxHash3, the builder is one that its
  -- functions make, no chunk has the path hash of a chunk of the package itself that is there, and
  -- names, counts and contents have sizes that the format holds: a file below 2 ^ 64 bytes that
  -- `build_to_writer` writes is mounted, its layer table is that of the builder, in order, and each
  -- chunk of the builder loads, decompressed, by its key as the content that was provided for it.
  pub load-mount-build :
      (file : List ℕ)
      → IsBuildable
      → length file < 2 ^ 64
      → build_to_writer x e provide b ≡ ok file
      → (m : Modpkg) × (mount_from_reader x e file ≡ ok m)
        × (m.layer_indices ≡ layer_hashes e b.layers)
        × ((k : Key) (c : ModpkgChunkBuilder)
            → get k b.chunks ≡ some c
            → (raw : List ℕ) × (provide c ≡ ok raw)
              × (load_chunk_decompressed_by_hash x m k ≡ ok raw))
  load-mount-build file v small h =
      let w = build-IsBuilt file v small h in
      (
        package_of e (layout_of x e provide b w.entries w.parts.bytes),
        w.mounts,
        refl,
        package-loads v w.written w.entries w.parts w.validated (omega (arith, small, w.length_is)),
      )
