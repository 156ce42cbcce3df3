-- ===== src/Modpkg/Builder.antt =====
-- crates/ltk_modpkg/src/builder.rs: `ModpkgBuilder`, `ModpkgChunkBuilder` and `ModpkgLayerBuilder`,
-- before anything is written.
pub mod Invariant
use league_mod.Prelude.{
  ℕ, Option, none, some, List, [], ◌∷◌, ◌++◌, Text, text, if◌then◌else◌, nat_ord, pair_ord,
}
use league_mod.Prelude.HashMap.{HashMap, insert}
use league_mod.Prelude.Outcome.{Result, ok, err}
use league_mod.Prelude.Int.{ℤ, pos}
use league_mod.Overlay.Externals.{Externals}
use league_mod.Overlay.FilePath.{is_empty}
use league_mod.Overlay.ChunkHash.{hash_chunk_name, normalize_chunk_path, from_hex}
use league_mod.Modpkg.Types.{
  ModpkgError, ModpkgCompression, uncompressed, ModpkgLayer, ModpkgMetadata, default_metadata,
  no_layer_hash, base_layer_name, metadata_chunk_path, thumbnail_chunk_path, readme_chunk_path,
}
use league_mod.Modpkg.Archive.{Key}
use league_mod.Modpkg.Names.{before_dot, is_hex_chunk_name, path_file_name, hash_layer_name}

pub data ModpkgBuilderError : Type 0 where
  io_error bin_write_error : ModpkgBuilderError
  modpkg_error : ModpkgError → ModpkgBuilderError
  unsupported_compression_type : ModpkgCompression → ModpkgBuilderError
  missing_base_layer : ModpkgBuilderError
  layer_not_found invalid_chunk_name : Text → ModpkgBuilderError

pub record ModpkgChunkBuilder : Type 0 where
  pub path_hash : ℕ
  pub path : Text
  pub compression : ModpkgCompression
  pub layer : Text
  pub wad : Text

-- Its layers are `ModpkgLayerBuilder`s, which have the fields of a `ModpkgLayer`.
pub record ModpkgBuilder : Type 0 where
  pub readme : Option Text
  pub thumbnail : Option (List ℕ)
  pub metadata : ModpkgMetadata
  pub chunks : HashMap Key ModpkgChunkBuilder
  pub meta_chunks : HashMap Key ModpkgChunkBuilder
  pub layers : List ModpkgLayer

-- `ModpkgLayerBuilder::base`
abbrev pub base : ModpkgLayer
base = record { name = base_layer_name; priority = pos 0 }

-- `ModpkgLayerBuilder::new`, `with_name` and `with_priority`
abbrev pub new_layer : Text → ModpkgLayer
new_layer name = record { name = name; priority = pos 0 }

unfoldable pub with_name : ModpkgLayer → Text → ModpkgLayer
with_name layer name = record layer { name = name }

unfoldable pub with_priority : ModpkgLayer → ℤ → ModpkgLayer
with_priority layer priority = record layer { priority = priority }

-- `ModpkgChunkBuilder::new`
abbrev pub new_chunk : ModpkgChunkBuilder
new_chunk = record {
  path_hash = 0;
  path = [];
  compression = uncompressed;
  layer = base_layer_name;
  wad = [];
}

or_whole : Text → Option Text → Text
or_whole path none = path
or_whole path (some name) = name

-- The part of the file name that is the hash.
unfoldable pub hex_part : Text → Text
unfolding or_whole
hex_part display_path = before_dot (or_whole display_path (path_file_name display_path))

module _ (e : Externals) where
  unfoldable pub with_path : ModpkgChunkBuilder → Text → ModpkgChunkBuilder
  with_path chunk path =
      let normalized = normalize_chunk_path e path in
      record chunk { path_hash = hash_chunk_name e normalized; path = normalized }

  unfoldable pub with_hashed_chunk_name :
      ModpkgChunkBuilder → Text → Result ModpkgBuilderError ModpkgChunkBuilder
  with_hashed_chunk_name chunk hashed_name =
      let provided = e.to_lowercase hashed_name in
      if is_hex_chunk_name (hex_part provided)
      then ok (record chunk { path_hash = from_hex 0 (hex_part provided); path = provided })
      else err (invalid_chunk_name provided)

  -- `ModpkgChunkBuilder::with_wad`
  unfoldable pub with_wad : ModpkgChunkBuilder → Text → ModpkgChunkBuilder
  with_wad chunk wad = record chunk { wad = e.to_lowercase wad }

  -- `ModpkgChunkBuilder::key`
  unfoldable pub key : ModpkgChunkBuilder → Key
  key chunk = (
    chunk.path_hash,
    if is_empty chunk.layer then no_layer_hash else hash_layer_name e chunk.layer,
  )

  -- `ModpkgBuilder::with_chunk`
  unfoldable pub with_chunk : ModpkgBuilder → ModpkgChunkBuilder → ModpkgBuilder
  with_chunk b chunk = record b { chunks = insert (key chunk) chunk b.chunks }

  -- A chunk of the package itself: no layer and no WAD.
  unfoldable pub meta_chunk : Text → ModpkgChunkBuilder
  unfolding with_path
  meta_chunk path = record (with_path new_chunk path) { layer = [] }

  unfoldable pub with_metadata : ModpkgBuilder → ModpkgMetadata → ModpkgBuilder
  unfolding meta_chunk
  with_metadata b metadata = record b {
    metadata = metadata;
    meta_chunks =
        insert (hash_chunk_name e metadata_chunk_path, no_layer_hash)
          (meta_chunk metadata_chunk_path) b.meta_chunks;
  }

  unfoldable pub with_readme : ModpkgBuilder → Text → ModpkgBuilder
  unfolding meta_chunk
  with_readme b readme = record b {
    readme = some readme;
    meta_chunks =
        insert (key (meta_chunk readme_chunk_path)) (meta_chunk readme_chunk_path) b.meta_chunks;
  }

  unfoldable pub with_thumbnail : ModpkgBuilder → List ℕ → ModpkgBuilder
  unfolding meta_chunk
  with_thumbnail b thumbnail = record b {
    thumbnail = some thumbnail;
    meta_chunks =
        insert (key (meta_chunk thumbnail_chunk_path)) (meta_chunk thumbnail_chunk_path)
          b.meta_chunks;
  }

  -- `ModpkgBuilder::default`
  unfoldable pub default_builder : ModpkgBuilder
  unfolding with_metadata
  default_builder =
      with_metadata
        (record {
          readme = none;
          thumbnail = none;
          metadata = default_metadata;
          chunks = [];
          meta_chunks = [];
          layers = [];
        })
        default_metadata

-- `ModpkgChunkBuilder::with_compression` and `with_layer`
unfoldable pub with_compression : ModpkgChunkBuilder → ModpkgCompression → ModpkgChunkBuilder
with_compression chunk compression = record chunk { compression = compression }

unfoldable pub with_chunk_layer : ModpkgChunkBuilder → Text → ModpkgChunkBuilder
with_chunk_layer chunk layer = record chunk { layer = layer }

-- `ModpkgBuilder::with_layer`
unfoldable pub with_layer : ModpkgBuilder → ModpkgLayer → ModpkgBuilder
with_layer b layer = record b { layers = b.layers ++ (layer ∷ []) }
