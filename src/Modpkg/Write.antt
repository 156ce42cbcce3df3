-- ===== src/Modpkg/Write.antt =====
-- crates/ltk_modpkg/src/builder.rs: `build_to_writer`. The writer is the list of the bytes written;
-- writing and seeking do not fail.
pub mod Stored
pub mod Meta
pub mod Toc
pub mod Regular
pub mod Placed
pub mod Selected
pub mod Parts
pub mod Loading
pub mod Entries
pub mod Written
pub mod RoundTrip
pub mod Succeeds
pub mod Bounds
pub mod Front
pub mod Shadowed
pub mod ByPath
use league_mod.Prelude.{
  ℕ, ◌+◌, ◌-◌, ◌*◌, ◌%◌, ◌^◌, Bool, not, ◌&&◌, Option, none, some, List, [], ◌∷◌, ◌++◌, map, Text,
  Ordering, cmp_list, or_else, leb, length, take, drop, replicate, any, select, if◌then◌else◌, ◌==◌,
  nat_ord, list_ord, pair_ord,
}
use league_mod.Prelude.Assoc.{get, contains_key}
use league_mod.Prelude.HashMap.{HashMap, insert}
use league_mod.Prelude.HashSet.{contains}
use league_mod.Prelude.Int.{ℤ, pos, negsuc}
use league_mod.Prelude.Bytes.{le_bytes}
use league_mod.Prelude.Outcome.{Result, ok, err, ◌>>=◌, ◌>>◌}
use league_mod.Overlay.Externals.{Externals}
use league_mod.Overlay.FilePath.{is_empty}
use league_mod.Overlay.ChunkHash.{hash_chunk_name}
use league_mod.Modpkg.Types.{
  ModpkgError, ModpkgCompression, uncompressed, zstd, ModpkgLayer, ModpkgChunk, ModpkgMetadata,
  no_layer_index, no_wad_index, size_of, base_layer_name, metadata_chunk_path, thumbnail_chunk_path,
  readme_chunk_path,
}
use league_mod.Modpkg.Crates.{Crates}
use league_mod.Modpkg.Archive.{Key}
use league_mod.Modpkg.Names.{hash_layer_name, hash_wad_name}
use league_mod.Modpkg.Mount.{magic}
use league_mod.Modpkg.Builder.{
  ModpkgBuilderError, io_error, modpkg_error, missing_base_layer, layer_not_found,
  ModpkgChunkBuilder, ModpkgBuilder,
}
use league_mod.Modpkg.Format.{header, write_layers, write_texts, write_alignment, write_chunk_toc}
use league_mod.Modpkg.Tables.{
  all_builders, collect_unique_paths, collect_unique_layers, collect_unique_wads, validate_layers,
  build_layer_index_map, or_zero, or_no_index,
}

-- The index of each hash in the tables.
pub record Indices : Type 0 where
  pub paths : HashMap ℕ ℕ
  pub layers : HashMap ℕ ℕ
  pub wads : HashMap ℕ ℕ

-- What `written_by_content` keeps of data that was written.
pub record WrittenData : Type 0 where
  pub data_offset : ℕ
  pub compressed_size : ℕ
  pub compressed_checksum : ℕ
  pub compression : ModpkgCompression

abbrev pub max_compressed_size_percent : ℕ
max_compressed_size_percent = 95

abbrev pub or_io_error : {A : Type 0} → Result ModpkgError A → Result ModpkgBuilderError A
or_io_error (ok a) = ok a
or_io_error (err _) = err io_error

abbrev pub or_modpkg_error : {A : Type 0} → Result ModpkgError A → Result ModpkgBuilderError A
or_modpkg_error (ok a) = ok a
or_modpkg_error (err failure) = err (modpkg_error failure)

abbrev pub Contents : Type 0
Contents = HashMap Key WrittenData

module _ (e : Externals) where
  -- What is written before the chunk table.
  unfoldable pub front : ModpkgBuilder → List ℕ
  front b =
      header (length b.chunks + length b.meta_chunks)
      ++ (write_layers b.layers
          ++ (write_texts (collect_unique_paths b).0 ++ write_texts (collect_unique_wads e b).0))

  unfoldable pub indices_of : ModpkgBuilder → Indices
  indices_of b = record {
    paths = (collect_unique_paths b).1;
    layers = build_layer_index_map e b.layers;
    wads = (collect_unique_wads e b).1;
  }

  unfoldable pub chunk_of : Indices → ModpkgChunkBuilder → List ℕ → WrittenData → ModpkgChunk
  chunk_of indices chunk raw entry = record {
    path_hash = chunk.path_hash;
    data_offset = entry.data_offset;
    compression = entry.compression;
    compressed_size = entry.compressed_size;
    uncompressed_size = length raw;
    compressed_checksum = entry.compressed_checksum;
    uncompressed_checksum = e.xxh3_64 raw;
    path_index = or_zero (get chunk.path_hash indices.paths);
    layer_index =
        if is_empty chunk.layer
        then no_layer_index
        else or_no_index (get (hash_layer_name e chunk.layer) indices.layers);
    wad_index =
        if is_empty chunk.wad
        then no_wad_index
        else or_no_index (get (hash_wad_name e chunk.wad) indices.wads);
  }

  unfoldable pub write_meta_chunk : HashMap ℕ ℕ → Text → List ℕ → List ℕ → List ℕ × ModpkgChunk
  write_meta_chunk path_indices path raw written =
      let path_hash = hash_chunk_name e path in
      (
        written ++ raw,
        record {
          path_hash = path_hash;
          data_offset = length written;
          compression = uncompressed;
          compressed_size = length raw;
          uncompressed_size = length raw;
          compressed_checksum = e.xxh3_64 raw;
          uncompressed_checksum = e.xxh3_64 raw;
          path_index = or_zero (get path_hash path_indices);
          layer_index = no_layer_index;
          wad_index = no_wad_index;
        },
      )

  unfoldable pub write_optional :
      HashMap ℕ ℕ → Text → Option (List ℕ) → List ℕ → List ℕ × List ModpkgChunk
  write_optional path_indices path none written = (written, [])
  write_optional path_indices path (some raw) written =
      let (written', chunk) = write_meta_chunk path_indices path raw written in
      (written', chunk ∷ [])

unfoldable pub path_hashes : List ModpkgChunk → List ℕ
path_hashes chunks = map (λ c. c.path_hash) chunks

-- Insertion sort by WAD and layer: stable, as `sort_by` is.
unfoldable pub insert_builder :
    ModpkgChunkBuilder → List ModpkgChunkBuilder → List ModpkgChunkBuilder
insert_builder c [] = c ∷ []
insert_builder c (d ∷ chunks) =
    let rest = insert_builder c chunks in
    elim (or_else (cmp_list c.wad d.wad) (cmp_list c.layer d.layer)) [
      | Ordering.gt ↦ d ∷ rest
      | _ ↦ c ∷ d ∷ chunks
    ]

unfoldable pub sort_builders : List ModpkgChunkBuilder → List ModpkgChunkBuilder
sort_builders [] = []
sort_builders (c ∷ chunks) = insert_builder c (sort_builders chunks)

unfoldable pub collect_regular_chunks : ModpkgBuilder → List ModpkgChunk → List ModpkgChunkBuilder
unfolding path_hashes
collect_regular_chunks b meta_chunks =
    sort_builders
      (select (λ c. not (contains c.path_hash (path_hashes meta_chunks))) (all_builders b))

module _ (x : Crates) where
  -- The data that are stored, and how: compressed only if that is worth it.
  unfoldable pub compress_chunk_data :
      List ℕ → ModpkgCompression → Result ModpkgBuilderError (List ℕ × ModpkgCompression)
  compress_chunk_data raw uncompressed = ok (raw, uncompressed)
  compress_chunk_data raw zstd = do
    compressed ← or_io_error (x.compress raw)
    if leb (length raw * max_compressed_size_percent % 2 ^ 64) (length compressed * 100 % 2 ^ 64)
        then ok (raw, uncompressed)
        else ok (compressed, zstd)

module _ (x : Crates) (e : Externals) where
  unfoldable pub write_new :
      List ℕ
      → ModpkgCompression
      → List ℕ
      → Contents
      → Result ModpkgBuilderError (WrittenData × (List ℕ × Contents))
  write_new raw requested written contents = do
    (stored, compression) ← compress_chunk_data x raw requested
    let entry : WrittenData = record {
      data_offset = length written;
      compressed_size = length stored;
      compressed_checksum = e.xxh3_64 stored;
      compression = compression;
    }
    ok (entry, (written ++ stored, insert (e.xxh3_64 raw, length raw) entry contents))

  -- Content that was written before is not written again.
  unfoldable pub write_content :
      List ℕ
      → ModpkgCompression
      → List ℕ
      → Contents
      → Result ModpkgBuilderError (WrittenData × (List ℕ × Contents))
  write_content raw requested written contents = elim (get (e.xxh3_64 raw, length raw) contents) [
    | some existing ↦ ok (existing, (written, contents))
    | none ↦ write_new raw requested written contents
  ]

  module _ (provide : ModpkgChunkBuilder → Result ModpkgBuilderError (List ℕ)) where
    -- The bytes after the loop, and the entries of the chunks.
    unfoldable pub process_chunks :
        Indices
        → List ModpkgChunkBuilder
        → List ℕ
        → Contents
        → Result ModpkgBuilderError (List ℕ × List ModpkgChunk)
    process_chunks indices [] written contents = ok (written, [])
    process_chunks indices (chunk ∷ chunks) written contents = do
      raw ← provide chunk
      (entry, (written', contents')) ← write_content raw chunk.compression written contents
      (all_written, entries) ← process_chunks indices chunks written' contents'
      ok (all_written, chunk_of e indices chunk raw entry ∷ entries)

  -- Metadata, thumbnail and readme.
  unfoldable pub process_meta_chunks :
      ModpkgBuilder → HashMap ℕ ℕ → List ℕ → Result ModpkgBuilderError (List ℕ × List ModpkgChunk)
  process_meta_chunks b path_indices written = do
    raw ← or_modpkg_error (x.to_msgpack b.metadata)
    let (w₁, metadata_chunk) = write_meta_chunk e path_indices metadata_chunk_path raw written
    let (w₂, thumbnail_chunks) = write_optional e path_indices thumbnail_chunk_path b.thumbnail w₁
    let (w₃, readme_chunks) = write_optional e path_indices readme_chunk_path b.readme w₂
    ok (w₃, metadata_chunk ∷ (thumbnail_chunks ++ readme_chunks))

  module _ (provide : ModpkgChunkBuilder → Result ModpkgBuilderError (List ℕ)) where
    unfoldable pub process_all_chunks :
        ModpkgBuilder → Indices → List ℕ → Result ModpkgBuilderError (List ℕ × List ModpkgChunk)
    process_all_chunks b indices written = do
      (w₁, meta_chunks) ← process_meta_chunks b indices.paths written
      (w₂, regular_chunks) ←
          process_chunks provide indices (collect_regular_chunks b meta_chunks) w₁ []
      ok (w₂, meta_chunks ++ regular_chunks)

    unfoldable pub build_to_writer : ModpkgBuilder → Result ModpkgBuilderError (List ℕ)
    build_to_writer b = do
      validate_layers b.layers (collect_unique_layers e b).0
      let before = write_alignment (front e b)
      let total_chunks = length b.chunks + length b.meta_chunks
      (written, all_chunks) ←
          process_all_chunks b (indices_of e b) (before ++ replicate (total_chunks * size_of) 0)
      ok (write_chunk_toc (length before) all_chunks written)
