-- ===== src/Modpkg/Tables.antt =====
-- The tables of an archive: `collect_unique_paths`, `collect_unique_layers`, `collect_unique_wads`,
-- `validate_layers` and `build_layer_index_map` of crates/ltk_modpkg/src/builder.rs.
pub mod Unique
pub mod Layers
pub mod Validate
use league_mod.Prelude.{
  ℕ, ◌+◌, ◌-◌, ◌*◌, ◌%◌, ◌^◌, Bool, not, ◌&&◌, Option, none, some, List, [], ◌∷◌, ◌++◌, map, Text,
  Ordering, cmp_list, or_else, leb, length, take, drop, replicate, any, select, if◌then◌else◌, ◌==◌,
  nat_ord, list_ord, pair_ord,
}
use league_mod.Prelude.Assoc.{get, contains_key}
use league_mod.Prelude.HashMap.{HashMap, insert}
use league_mod.Prelude.HashSet.{contains}
use league_mod.Prelude.Int.{ℤ, pos, negsuc}
use league_mod.Prelude.Bytes.{le_bytes}
use league_mod.Prelude.Outcome.{Result, ok, err, ◌>>=◌, ◌>>◌}
use league_mod.Overlay.Externals.{Externals}
use league_mod.Overlay.FilePath.{is_empty}
use league_mod.Overlay.ChunkHash.{hash_chunk_name}
use league_mod.Modpkg.Types.{
  ModpkgError, ModpkgCompression, uncompressed, zstd, ModpkgLayer, ModpkgChunk, ModpkgMetadata,
  no_layer_index, no_wad_index, size_of, base_layer_name, metadata_chunk_path, thumbnail_chunk_path,
  readme_chunk_path,
}
use league_mod.Modpkg.Crates.{Crates}
use league_mod.Modpkg.Archive.{Key}
use league_mod.Modpkg.Names.{hash_layer_name, hash_wad_name}
use league_mod.Modpkg.Mount.{magic}
use league_mod.Modpkg.Builder.{
  ModpkgBuilderError, io_error, modpkg_error, missing_base_layer, layer_not_found,
  ModpkgChunkBuilder, ModpkgBuilder,
}

-- The texts that were met, each once by its hash, and the index of each hash.
abbrev pub Unique : Type 0
Unique = List Text × HashMap ℕ ℕ

unfoldable pub add_unique : ℕ → Text → Unique → Unique
add_unique hash t (texts, indices) =
    if contains_key hash indices
    then (texts, indices)
    else (texts ++ (t ∷ []), insert hash (length texts % 2 ^ 32) indices)

abbrev pub values : {K V : Type 0} → HashMap K V → List V
values [] = []
values ((k, v) ∷ m) = v ∷ values m

-- `self.chunks.values().chain(self.meta_chunks.values())`
unfoldable pub all_builders : ModpkgBuilder → List ModpkgChunkBuilder
all_builders b = values b.chunks ++ values b.meta_chunks

unique_paths : List ModpkgChunkBuilder → Unique → Unique
unique_paths [] u = u
unique_paths (c ∷ chunks) u = unique_paths chunks (add_unique c.path_hash c.path u)

unfoldable pub collect_unique_paths : ModpkgBuilder → Unique
unfolding unique_paths
collect_unique_paths b = unique_paths (all_builders b) ([], [])

module _ (e : Externals) where
  unique_layers : List ModpkgChunkBuilder → Unique → Unique
  unique_layers [] u = u
  unique_layers (c ∷ chunks) u =
      unique_layers chunks
        (if is_empty c.layer then u else add_unique (hash_layer_name e c.layer) c.layer u)

  unfoldable pub collect_unique_layers : ModpkgBuilder → Unique
  unfolding unique_layers
  collect_unique_layers b = unique_layers (all_builders b) ([], [])

  unique_wads : List ModpkgChunkBuilder → Unique → Unique
  unique_wads [] u = u
  unique_wads (c ∷ chunks) u =
      unique_wads chunks (if is_empty c.wad then u else add_unique (hash_wad_name e c.wad) c.wad u)

  unfoldable pub collect_unique_wads : ModpkgBuilder → Unique
  unfolding unique_wads
  collect_unique_wads b = unique_wads (all_builders b) ([], [])

abbrev pub is_defined : List ModpkgLayer → Text → Bool
is_defined defined_layers name = any (λ l. l.name == name) defined_layers

all_defined : List ModpkgLayer → List Text → Result ModpkgBuilderError (Unit {0})
all_defined defined_layers [] = ok tt
all_defined defined_layers (layer ∷ layers) =
    let rest = all_defined defined_layers layers in
    if is_empty layer
    then rest
    else if not (is_defined defined_layers layer)
    then err (layer_not_found layer)
    else rest

unfoldable pub validate_layers : List ModpkgLayer → List Text → Result ModpkgBuilderError (Unit {0})
unfolding all_defined
validate_layers defined_layers unique_layers =
    if not (is_defined defined_layers base_layer_name)
    then err missing_base_layer
    else all_defined defined_layers unique_layers

module _ (e : Externals) where
  layer_index_from : ℕ → List ModpkgLayer → HashMap ℕ ℕ → HashMap ℕ ℕ
  layer_index_from idx [] indices = indices
  layer_index_from idx (layer ∷ layers) indices =
      layer_index_from (idx + 1) layers
        (insert (hash_layer_name e layer.name) (idx % 2 ^ 32) indices)

  unfoldable pub build_layer_index_map : List ModpkgLayer → HashMap ℕ ℕ
  unfolding layer_index_from
  build_layer_index_map layers = layer_index_from 0 layers []

abbrev pub or_zero : Option ℕ → ℕ
or_zero none = 0
or_zero (some i) = i

abbrev pub or_no_index : Option ℕ → ℕ
or_no_index none = 0xffffffff
or_no_index (some i) = i
