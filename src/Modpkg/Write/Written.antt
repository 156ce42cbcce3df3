-- ===== src/Modpkg/Write/Written.antt =====
-- What `build_to_writer` writes is a file of the format.
use league_mod.Prelude.{
  ℕ, ◌+◌, ◌*◌, ◌^◌, ◌<◌, ◌≡◌, refl, sym, ap, subst, ◌∙◌, List, ◌++◌, Text, arith, length,
  length-append, All, replicate, nat_ord, list_ord, pair_ord,
}
use league_mod.Prelude.Assoc.{In, All_of_In}
use league_mod.Prelude.Outcome.{Result, ok}
use league_mod.Overlay.Externals.{Externals}
use league_mod.Modpkg.Types.{ModpkgChunk, no_layer_index, size_of}
use league_mod.Modpkg.Crates.{Crates, IsCText}
use league_mod.Modpkg.Builder.{ModpkgBuilderError, ModpkgChunkBuilder, ModpkgBuilder, key}
use league_mod.Modpkg.Builder.Invariant.{IsBuilder}
use league_mod.Modpkg.Format.{write_alignment, chunks_bytes, write_chunk_toc}
use league_mod.Modpkg.Tables.{
  values, all_builders, collect_unique_paths, collect_unique_layers, collect_unique_wads,
  validate_layers,
}
use league_mod.Modpkg.Tables.Unique.{
  IsTable, collect_unique_paths-IsTable, collect_unique_wads-IsTable,
}
use league_mod.Modpkg.Mount.Fields.{IsLayer, layer_hashes}
use league_mod.Modpkg.Mount.Layout.{Layout, IsLayout, IsPlaced, front_of, file_of}
use league_mod.Modpkg.Write.{WrittenData, chunk_of, sort_builders, front, indices_of}
use league_mod.Modpkg.Write.Meta.{AreMeta}
use league_mod.Modpkg.Write.Toc.{length-chunks_bytes, length-zeros, write_chunk_toc-over}
use league_mod.Modpkg.Write.Regular.{length-sort_builders, In-sort_builders}
use league_mod.Modpkg.Write.Selected.{length-meta}
use league_mod.Modpkg.Write.Placed.{
  HasWidth, LeadsTo, layer-LeadsTo, chunk_of-IsPlaced, IsMeta-IsPlaced,
}
use league_mod.Modpkg.Write.Parts.{reserved, Parts}
use league_mod.Modpkg.Write.Entries.{
  length-values, All-append, In-append_left, length-Processed, Made, All-Processed,
}

-- A builder whose parts fit the format.
pub record Fits (b : ModpkgBuilder)
    (provide : ModpkgChunkBuilder → Result ModpkgBuilderError (List ℕ)) : Type 0 where
  pub layers_fit : All IsLayer b.layers
  pub layer_count_fits : length b.layers < no_layer_index
  pub chunk_count_fits : length b.chunks + length b.meta_chunks < 2 ^ 32
  pub paths_fit : All (λ c. IsCText c.path) (all_builders b)
  pub wads_fit : All (λ c. IsCText c.wad) (all_builders b)
  pub hashes_fit : All (λ c. c.path_hash < 2 ^ 64) (all_builders b)
  pub contents_fit :
      (c : ModpkgChunkBuilder) (raw : List ℕ) → provide c ≡ ok raw → length raw < 2 ^ 64

module _ (x : Crates) (e : Externals)
    (provide : ModpkgChunkBuilder → Result ModpkgBuilderError (List ℕ)) (b : ModpkgBuilder) where
  -- The file's parts.
  abbrev pub layout_of : List ModpkgChunk → List ℕ → Layout
  layout_of entries bytes = record {
    layers = b.layers;
    paths = (collect_unique_paths b).0;
    wads = (collect_unique_wads e b).0;
    chunks = entries;
    tail = bytes;
  }

  module _ (synced : IsBuilder e b) (written : List ℕ) (entries : List ModpkgChunk)
      (parts : Parts x e provide b written entries) where
    pub length-entries : length entries ≡ length b.chunks + length b.meta_chunks
    length-entries =
        ap (length {A = ModpkgChunk}) parts.entries_are
        ∙ length-append parts.meta parts.regular
        ∙ omega (
          arith,
          length-meta e x (length (reserved e b)) (indices_of e b).paths b synced.synced parts.bytes
              parts.metadata parts.meta parts.are_meta,
          length-Processed x e provide parts.processed,
          length-sort_builders (values b.chunks),
          length-values b.chunks,
        )

    space_is :
        length {A = ℕ} (replicate ((length b.chunks + length b.meta_chunks) * size_of) 0)
        ≡ length (chunks_bytes entries)
    space_is =
        length-zeros ((length b.chunks + length b.meta_chunks) * size_of)
        ∙ sym (length-chunks_bytes entries ∙ ap (λ n. n * size_of) length-entries)

    front-eq : front_of (layout_of entries parts.bytes) ≡ front e b
    unfolding front_of front
    front-eq = rw length-entries refl

    -- The table over the space makes a file of the format.
    pub toc_is :
        write_chunk_toc (length (write_alignment (front e b))) entries written
        ≡ file_of (layout_of entries parts.bytes)
    unfolding file_of
    toc_is =
        ap (write_chunk_toc (length (write_alignment (front e b))) entries) parts.written_is
        ∙ write_chunk_toc-over (write_alignment (front e b)) _ parts.bytes entries space_is
        ∙ ap (λ f. write_alignment f ++ (chunks_bytes entries ++ parts.bytes)) (sym front-eq)

    -- The table takes the place of the space.
    pub table_fits :
        length (write_alignment (front_of (layout_of entries parts.bytes)) ++ chunks_bytes entries)
        ≡ length (reserved e b)
    table_fits =
        ap (λ f. length (write_alignment f ++ chunks_bytes entries)) front-eq
        ∙ omega (
          arith,
          length-append (write_alignment (front e b)) (chunks_bytes entries),
          length-append (write_alignment (front e b))
              (replicate ((length b.chunks + length b.meta_chunks) * size_of) 0),
          space_is,
        )

    pub length-file :
        length (file_of (layout_of entries parts.bytes))
        ≡ length (reserved e b) + length parts.bytes
    unfolding file_of
    length-file =
        ap (λ f. length (write_alignment f ++ (chunks_bytes entries ++ parts.bytes))) front-eq
        ∙ omega (
          arith,
          length-append (write_alignment (front e b)) (chunks_bytes entries ++ parts.bytes),
          length-append (chunks_bytes entries) parts.bytes,
          length-append (write_alignment (front e b))
              (replicate ((length b.chunks + length b.meta_chunks) * size_of) 0),
          space_is,
        )

    module _ (width : HasWidth e) (fits : Fits b provide)
        (validated : validate_layers b.layers (collect_unique_layers e b).0 ≡ ok tt)
        (small : length (reserved e b) + length parts.bytes < 2 ^ 64) where
      paths-IsTable : IsTable IsCText (length (all_builders b)) (collect_unique_paths b)
      paths-IsTable = collect_unique_paths-IsTable IsCText b fits.paths_fit

      wads-IsTable : IsTable IsCText (length (all_builders b)) (collect_unique_wads e b)
      wads-IsTable = collect_unique_wads-IsTable e IsCText b fits.wads_fit

      is_builder :
          (c : ModpkgChunkBuilder) → In c (sort_builders (values b.chunks)) → In c (all_builders b)
      unfolding all_builders
      is_builder c i =
          In-append_left c (values b.chunks) (values b.meta_chunks)
            (In-sort_builders c (values b.chunks) i)

      pub leads :
          (c : ModpkgChunkBuilder) (raw : List ℕ) (entry : WrittenData)
          → In c (sort_builders (values b.chunks))
          → LeadsTo
              (layer_hashes e b.layers)
              (chunk_of e (indices_of e b) c raw entry).layer_index
              (key e c).1
      unfolding chunk_of indices_of
      leads c raw entry i = layer-LeadsTo e b c validated fits.layer_count_fits (is_builder c i)

      regular-IsPlaced :
          (n : ModpkgChunk)
          → Made x e provide
              (length (reserved e b))
              (indices_of e b)
              parts.bytes
              (sort_builders (values b.chunks))
              n
          → IsPlaced (layer_hashes e b.layers) n
      unfolding indices_of
      regular-IsPlaced n m = subst (IsPlaced (layer_hashes e b.layers)) (sym m.made) (
          chunk_of-IsPlaced x e width (length (reserved e b)) parts.bytes small
            (layer_hashes e b.layers) (indices_of e b) m.chunk m.raw m.entry (key e m.chunk).1
            m.keeps
            (All_of_In (λ c. c.path_hash < 2 ^ 64) (all_builders b) fits.hashes_fit
              (is_builder m.chunk m.there))
            (fits.contents_fit m.chunk m.raw m.provided) paths-IsTable.indices_fit
            wads-IsTable.indices_fit (leads m.chunk m.raw m.entry m.there))

      meta-IsPlaced :
          {contents : List (Text × List ℕ)} {chunks : List ModpkgChunk}
          → AreMeta x e (length (reserved e b)) (indices_of e b).paths parts.bytes contents chunks
          → All (IsPlaced (layer_hashes e b.layers)) chunks
      unfolding indices_of
      meta-IsPlaced AreMeta.nil = tt
      meta-IsPlaced (AreMeta.cons {path} {raw} {c} m rest) = (
        IsMeta-IsPlaced x e width (length (reserved e b)) parts.bytes small
            (layer_hashes e b.layers) (indices_of e b).paths path raw c m paths-IsTable.indices_fit,
        meta-IsPlaced rest,
      )

      length-all_builders : length (all_builders b) ≡ length b.chunks + length b.meta_chunks
      unfolding all_builders
      length-all_builders =
          length-append (values b.chunks) (values b.meta_chunks)
          ∙ omega (arith, length-values b.chunks, length-values b.meta_chunks)

      pub written-IsLayout : IsLayout e (layout_of entries parts.bytes)
      written-IsLayout = record {
        layers_fit = fits.layers_fit;
        layer_count_fits = omega (arith, fits.layer_count_fits);
        paths_fit = paths-IsTable.texts_fit;
        path_count_fits =
            omega (arith, paths-IsTable.few, length-all_builders, fits.chunk_count_fits);
        wads_fit = wads-IsTable.texts_fit;
        wad_count_fits =
            omega (arith, wads-IsTable.few, length-all_builders, fits.chunk_count_fits);
        chunks_fit = subst (All (IsPlaced (layer_hashes e b.layers))) (sym parts.entries_are) (
            All-append (IsPlaced (layer_hashes e b.layers)) parts.meta parts.regular
              (meta-IsPlaced parts.are_meta)
              (All-Processed x e provide (IsPlaced (layer_hashes e b.layers)) regular-IsPlaced
                parts.processed));
        chunk_count_fits = omega (arith, length-entries, fits.chunk_count_fits);
      }
