-- ===== src/Overlay/ModpkgContent.antt =====
-- crates/ltk_overlay/src/modpkg_content.rs: a mounted package as the content of a mod. Warnings are
-- left out.
pub mod Agrees
use league_mod.Prelude.{
  ℕ, zero, suc, ◌+◌, ◌%◌, ◌^◌, Bool, true, false, not, Option, none, some, List, [], ◌∷◌, map, Text,
  any, length, if◌then◌else◌, ◌==◌, nat_ord, list_ord, pair_ord,
}
use league_mod.Prelude.Int.{pos}
use league_mod.Prelude.Assoc.{get}
use league_mod.Prelude.HashMap.{HashMap, insert}
use league_mod.Prelude.Outcome.{Result, ok, err, ◌>>=◌}
use league_mod.Overlay.FilePath.{FilePath, from, as_str}
use league_mod.Overlay.Types.{Error, other}
use league_mod.Overlay.Externals.{Externals}
use league_mod.Overlay.ChunkHash.{normalize_chunk_path, hash_chunk_name}
use league_mod.Overlay.Content.{ModProjectLayer, ModContentProvider, base_layer_name}
use league_mod.Overlay.Collect.{sort_layers}
use league_mod.Modpkg.Types.{ModpkgError, ModpkgLayer}
use league_mod.Modpkg.Crates.{Crates}
use league_mod.Modpkg.Names.{hash_layer_name}
use league_mod.Modpkg.Archive.{
  Key, Modpkg, layer_index, wad_index, wad_name_for_index, chunks_for_wad_layer, load_chunks_batch,
  load_chunk_decompressed_by_hash, load_metadata,
}
use league_mod.Modpkg.Tables.{values}

pub record ModpkgContent : Type 0 where
  pub modpkg : Modpkg
  pub archive_path : Option FilePath

-- `ModpkgContent::new` and `with_archive_path`
abbrev pub new : Modpkg → ModpkgContent
new modpkg = record { modpkg = modpkg; archive_path = none }

unfoldable pub with_archive_path : ModpkgContent → FilePath → ModpkgContent
with_archive_path c path = record c { archive_path = some path }

abbrev pub or_other : {A : Type 0} → Result ModpkgError A → Result Error A
or_other (ok a) = ok a
or_other (err _) = err other

project_layer : ModpkgLayer → ModProjectLayer
project_layer l = record { name = l.name; priority = l.priority }

-- The base layer is there.
with_base : List ModProjectLayer → List ModProjectLayer
with_base layers =
    if not (any (λ l. l.name == base_layer_name) layers)
    then record { name = base_layer_name; priority = pos 0 } ∷ layers
    else layers

present : {A : Type 0} → List A → Bool
present [] = false
present (a ∷ rest) = true

-- The names of the WADs from an index on that have chunks in the layer.
wads_from : Modpkg → ℕ → ℕ → List ℕ → List Text
unfolding present
wads_from m layer_index wad_idx [] = []
wads_from m layer_index wad_idx (h ∷ hashes) =
    let rest = wads_from m layer_index (wad_idx + 1) hashes in
    if present (chunks_for_wad_layer m (wad_idx % 2 ^ 32) layer_index)
    then (elim (wad_name_for_index m (wad_idx % 2 ^ 32)) [ some name ↦ name ∷ rest | none ↦ rest ])
    else rest

add_path : Modpkg → ℕ → HashMap ℕ Text → HashMap ℕ Text
add_path m path_hash paths = elim (get path_hash m.chunk_paths) [
  | some path ↦ insert path_hash path paths
  | none ↦ paths
]

-- The recorded paths of the chunks.
rel_paths : Modpkg → List Key → HashMap ℕ Text → HashMap ℕ Text
unfolding add_path
rel_paths m [] paths = paths
rel_paths m (k ∷ keys) paths = rel_paths m keys (add_path m k.0 paths)

-- A chunk with no recorded path is left out.
with_paths : HashMap ℕ Text → List (Key × List ℕ) → List (FilePath × List ℕ)
with_paths paths [] = []
with_paths paths ((k, bytes) ∷ batch) = elim (get k.0 paths) [
  | some rel ↦ (from rel, bytes) ∷ with_paths paths batch
  | none ↦ with_paths paths batch
]

module _ (e : Externals) where
  unfoldable pub list_layer_wads : Modpkg → Text → Result Error (List Text)
  unfolding wads_from
  list_layer_wads m layer = elim (layer_index e m layer) [
    | none ↦ ok []
    | some index ↦ ok (wads_from m index 0 m.wads_indices)
  ]

module _ (x : Crates) (e : Externals) where
  -- `mod_project()?.layers`
  unfoldable pub project_layers : Modpkg → Result Error (List ModProjectLayer)
  unfolding project_layer with_base
  project_layers m = do
    metadata ← or_other (load_metadata x e m)
    ok (with_base (sort_layers (map project_layer (values m.layers))))

  overrides_of : Modpkg → List Key → Result Error (List (FilePath × List ℕ))
  unfolding rel_paths with_paths
  overrides_of m [] = ok []
  overrides_of m (k ∷ keys) = do
    batch ← or_other (load_chunks_batch x m (k ∷ keys))
    ok (with_paths (rel_paths m (k ∷ keys) []) batch)

  in_wad : Modpkg → ℕ → Option ℕ → Result Error (List (FilePath × List ℕ))
  unfolding overrides_of
  in_wad m layer_index none = ok []
  in_wad m layer_index (some wad_index) =
      overrides_of m (chunks_for_wad_layer m wad_index layer_index)

  in_layer : Modpkg → Text → Option ℕ → Result Error (List (FilePath × List ℕ))
  unfolding in_wad
  in_layer m wad_name none = ok []
  in_layer m wad_name (some layer_index) = in_wad m layer_index (wad_index e m wad_name)

  unfoldable pub read_wad_overrides : Modpkg → Text → Text → Result Error (List (FilePath × List ℕ))
  unfolding in_layer
  read_wad_overrides m layer wad_name = in_layer m wad_name (layer_index e m layer)

  unfoldable pub read_wad_override_file : Modpkg → Text → Text → FilePath → Result Error (List ℕ)
  read_wad_override_file m layer wad_name rel_path = or_other (
      load_chunk_decompressed_by_hash x m
        (hash_chunk_name e (normalize_chunk_path e (as_str rel_path)), hash_layer_name e layer))

  fingerprint_of : (FilePath → Result Error (Option ℕ)) → Option FilePath → Result Error (Option ℕ)
  fingerprint_of archive_fingerprint none = ok none
  fingerprint_of archive_fingerprint (some path) = archive_fingerprint path

  -- The implementation of `ModContentProvider`; raw overrides are none, by the trait's default.
  unfoldable pub provider :
      (FilePath → Result Error (Option ℕ)) → ModpkgContent → ModContentProvider
  unfolding fingerprint_of
  provider archive_fingerprint c = record {
    layers = project_layers c.modpkg;
    list_layer_wads = list_layer_wads e c.modpkg;
    read_wad_overrides = read_wad_overrides c.modpkg;
    read_wad_override_file = read_wad_override_file c.modpkg;
    read_raw_overrides = ok [];
    read_raw_override_file = λ _. err other;
    content_fingerprint = fingerprint_of archive_fingerprint c.archive_path;
  }
