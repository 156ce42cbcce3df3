-- ===== src/Tests/Archive.antt =====
-- A small package: one layer, a readme, two chunks with the same content.
use league_mod.Prelude.{
  ℕ, ◌+◌, ◌%◌, ◌^◌, ◌<◌, ◌≤◌, ◌≡◌, refl, ◌∙◌, subst, sym, ap, true, false, List, [], ◌∷◌, ◌++◌,
  Text, text, length, all, any, map, none, some, if◌then◌else◌, ◌==◌, nat_ord, pair_ord, arith, All,
  inl, inr,
}
use league_mod.Prelude.Outcome.{Result, ok, err}
use league_mod.Overlay.Externals.{Externals}
use league_mod.Overlay.GameIndex.{to_ascii_lowercase}
use league_mod.Overlay.ChunkHash.{hash_chunk_name}
use league_mod.Modpkg.Types.{
  ModpkgError, io_ext_error, uncompressed, zstd, no_wad_index, ModpkgChunk, base_layer_name,
  default_metadata, metadata_chunk_path,
}
use league_mod.Modpkg.Crates.{Crates, Documented}
use league_mod.Modpkg.Archive.{
  Key, Modpkg, load_chunk_decompressed_by_hash, load_chunk_decompressed_by_path,
}
use league_mod.Modpkg.Reader.{Fault, panicked}
use league_mod.Modpkg.Mount.{mount_from_reader}
use league_mod.Modpkg.Builder.{
  ModpkgBuilder, ModpkgChunkBuilder, ModpkgBuilderError, default_builder, with_chunk, with_path,
  with_readme, with_compression, new_chunk, with_layer, base, key,
}
use league_mod.Modpkg.Builder.Invariant.{is_lower_ascii}
use league_mod.Modpkg.Tables.{values, all_builders, is_defined}
use league_mod.Modpkg.Write.{build_to_writer, process_all_chunks, indices_of}
use league_mod.Modpkg.Write.Placed.{HasWidth}
use league_mod.Tests.Data.{total}

abbrev with_byte : ℕ → Result ModpkgError (Text × List ℕ) → Result ModpkgError (Text × List ℕ)
with_byte b (ok (t, rest)) = ok (b ∷ t, rest)
with_byte b (err failure) = err failure

unfoldable pub until_nul : List ℕ → Result ModpkgError (Text × List ℕ)
until_nul [] = err io_ext_error
until_nul (b ∷ s) = let rest = with_byte b (until_nul s) in if b == 0 then ok ([], s) else rest

-- The text is read up to the null byte; nothing gets smaller by compression.
abbrev pub crates : Crates
crates = record {
  read_str_until_nul = until_nul;
  compress = λ bytes. ok bytes;
  decompress = λ bytes n. ok bytes;
  to_msgpack = λ m. ok (1 ∷ 2 ∷ []);
  from_msgpack = λ bytes. ok default_metadata;
}

until_nul-text :
    (t rest : List ℕ) → any (λ b. b == 0) t ≡ false → until_nul (t ++ (0 ∷ rest)) ≡ ok (t, rest)
unfolding until_nul
until_nul-text [] rest h = refl
until_nul-text (b ∷ t) rest h = ground (arith, until_nul-text t rest)

pub crates-Documented : Documented crates
crates-Documented = record {
  reads_str = λ t rest v. until_nul-text t rest v.no_null;
  decompresses = λ raw stored h. sym h;
}

-- Sums of 64 bits as hashes.
abbrev pub hashing : Externals
hashing = record {
  xxh3_64 = λ bytes. total bytes % 2 ^ 64;
  xxh64 = λ bytes. total bytes % 2 ^ 64;
  to_lowercase = to_ascii_lowercase;
  from_utf8_lossy = λ s. s;
}

pub hashing-HasWidth : HasWidth hashing
hashing-HasWidth = record { xxh3-lt = λ bytes. omega arith; xxh64-lt = λ bytes. omega arith }

pub lower-ascii : (t : Text) → all is_lower_ascii t ≡ true → to_ascii_lowercase t ≡ t
unfolding to_ascii_lowercase
lower-ascii [] h = refl
lower-ascii (b ∷ t) h = ground (arith, lower-ascii t)

abbrev pub a_chunk : ModpkgChunkBuilder
a_chunk = with_path hashing new_chunk (text "a")

abbrev pub b_chunk : ModpkgChunkBuilder
b_chunk = with_compression (with_path hashing new_chunk (text "b")) zstd

abbrev pub a_builder : ModpkgBuilder
a_builder =
    with_chunk hashing
      (with_chunk hashing
        (with_readme hashing (with_layer (default_builder hashing) base) (text "hi")) a_chunk)
      b_chunk

abbrev pub provided : ModpkgChunkBuilder → Result ModpkgBuilderError (List ℕ)
provided c = ok (7 ∷ 8 ∷ [])

-- What a run unfolds.
unfoldable pub computed_package : ModpkgBuilder → Result ModpkgBuilderError (List ℕ)
unfolding total league_mod.Modpkg.Archive.position league_mod.Modpkg.Archive.load_raw
    league_mod.Modpkg.Archive.load_chunk_raw league_mod.Modpkg.Archive.resolve_chunk_key
    league_mod.Modpkg.Archive.load_chunk_raw_by_path league_mod.Modpkg.Archive.get_chunk
    league_mod.Modpkg.Archive.has_chunk league_mod.Modpkg.Archive.layer_index
    league_mod.Modpkg.Archive.wad_index league_mod.Modpkg.Archive.load_as
    league_mod.Modpkg.Archive.load_chunk_decompressed league_mod.Modpkg.Archive.load_chunks_batch
    league_mod.Modpkg.Archive.load_chunk_decompressed_by_hash
    league_mod.Modpkg.Archive.load_chunk_decompressed_by_path
    league_mod.Modpkg.Archive.load_metadata league_mod.Modpkg.Archive.load_readme
    league_mod.Modpkg.Archive.load_thumbnail league_mod.Modpkg.Archive.wad_name_for_index
    league_mod.Modpkg.Archive.chunks_for_wad_layer league_mod.Modpkg.Builder.hex_part
    league_mod.Modpkg.Builder.with_path league_mod.Modpkg.Builder.with_hashed_chunk_name
    league_mod.Modpkg.Builder.with_wad league_mod.Modpkg.Builder.key
    league_mod.Modpkg.Builder.with_chunk league_mod.Modpkg.Builder.meta_chunk
    league_mod.Modpkg.Builder.with_metadata league_mod.Modpkg.Builder.with_readme
    league_mod.Modpkg.Builder.with_thumbnail league_mod.Modpkg.Builder.default_builder
    league_mod.Modpkg.Builder.with_compression league_mod.Modpkg.Builder.with_chunk_layer
    league_mod.Modpkg.Builder.with_layer league_mod.Modpkg.Format.header
    league_mod.Modpkg.Format.layer_bytes league_mod.Modpkg.Format.layers_bytes
    league_mod.Modpkg.Format.write_layers league_mod.Modpkg.Format.texts_bytes
    league_mod.Modpkg.Format.write_texts league_mod.Modpkg.Format.write_alignment
    league_mod.Modpkg.Format.compression_byte league_mod.Modpkg.Format.chunk_bytes
    league_mod.Modpkg.Format.chunks_bytes league_mod.Modpkg.Format.write_chunk_toc
    league_mod.Modpkg.Mount.read_header league_mod.Modpkg.Mount.skip_alignment
    league_mod.Modpkg.Mount.read_layers_from league_mod.Modpkg.Mount.read_layers
    league_mod.Modpkg.Mount.read_chunk_paths_from league_mod.Modpkg.Mount.read_chunk_paths
    league_mod.Modpkg.Mount.read_wads_from league_mod.Modpkg.Mount.read_wads
    league_mod.Modpkg.Mount.layer_hash_at league_mod.Modpkg.Mount.add_chunk
    league_mod.Modpkg.Mount.read_chunks league_mod.Modpkg.Mount.mount_from_reader
    league_mod.Modpkg.Names.before_dot league_mod.Modpkg.Names.is_hex_chunk_name
    league_mod.Modpkg.Names.path_file_name league_mod.Modpkg.Names.hash_layer_name
    league_mod.Modpkg.Names.hash_wad_name league_mod.Modpkg.Reader.read_exact
    league_mod.Modpkg.Reader.read_uint league_mod.Modpkg.Reader.utf8
    league_mod.Modpkg.Reader.read_layer league_mod.Modpkg.Reader.compression_of
    league_mod.Modpkg.Reader.read_chunk league_mod.Modpkg.Tables.add_unique
    league_mod.Modpkg.Tables.all_builders league_mod.Modpkg.Tables.collect_unique_paths
    league_mod.Modpkg.Tables.collect_unique_layers league_mod.Modpkg.Tables.collect_unique_wads
    league_mod.Modpkg.Tables.validate_layers league_mod.Modpkg.Tables.build_layer_index_map
    league_mod.Modpkg.Types.try_from league_mod.Modpkg.Types.layer league_mod.Modpkg.Write.front
    league_mod.Modpkg.Write.indices_of league_mod.Modpkg.Write.chunk_of
    league_mod.Modpkg.Write.write_meta_chunk league_mod.Modpkg.Write.write_optional
    league_mod.Modpkg.Write.path_hashes league_mod.Modpkg.Write.insert_builder
    league_mod.Modpkg.Write.sort_builders league_mod.Modpkg.Write.collect_regular_chunks
    league_mod.Modpkg.Write.compress_chunk_data league_mod.Modpkg.Write.write_new
    league_mod.Modpkg.Write.write_content league_mod.Modpkg.Write.process_chunks
    league_mod.Modpkg.Write.process_meta_chunks league_mod.Modpkg.Write.process_all_chunks
    league_mod.Modpkg.Write.build_to_writer league_mod.Prelude.HashMap.insert
    league_mod.Prelude.Bytes.le_bytes league_mod.Prelude.Bytes.from_le
    league_mod.Prelude.Utf8.is_utf8 league_mod.Overlay.ChunkHash.find
    league_mod.Overlay.ChunkHash.ends_with league_mod.Overlay.ChunkHash.to_slashes
    league_mod.Overlay.ChunkHash.strip_ltk league_mod.Overlay.ChunkHash.normalize_rel_path_for_hash
    league_mod.Overlay.ChunkHash.file_stem league_mod.Overlay.ChunkHash.is_hexdigit
    league_mod.Overlay.ChunkHash.is_hex_stem league_mod.Overlay.ChunkHash.normalize_chunk_path
    league_mod.Overlay.ChunkHash.hash_chunk_name league_mod.Overlay.ChunkHash.resolve_chunk_hash
    league_mod.Overlay.FilePath.as_str league_mod.Overlay.FilePath.split
    league_mod.Overlay.FilePath.from league_mod.Overlay.FilePath.file_name
    league_mod.Overlay.GameIndex.to_ascii_lowercase league_mod.Overlay.GameIndex.find_wad
    league_mod.Overlay.GameIndex.find_wads_with_hash
    league_mod.Overlay.GameIndex.find_best_matching_wad league_mod.Prelude.HashSet.insert
computed_package b = build_to_writer crates hashing provided b

abbrev pub the_bytes : Result ModpkgBuilderError (List ℕ) → List ℕ
the_bytes (ok file) = file
the_bytes (err _) = []

abbrev pub the_file : List ℕ
the_file = the_bytes (build_to_writer crates hashing provided a_builder)

pub built : build_to_writer crates hashing provided a_builder ≡ ok the_file
unfolding computed_package
built = refl

pub length-the_file : length the_file ≡ 338
unfolding computed_package
length-the_file = refl
