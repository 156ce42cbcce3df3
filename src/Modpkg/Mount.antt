-- ===== src/Modpkg/Mount.antt =====
-- crates/ltk_modpkg/src/read.rs: `mount_from_reader`.
pub mod Fields
pub mod Layout
use league_mod.Prelude.{
  ℕ, zero, suc, ◌-◌, ◌%◌, Option, none, some, List, [], ◌∷◌, ◌++◌, Text, text, length, get_elem?,
  drop, if◌then◌else◌, ◌==◌, nat_ord, pair_ord,
}
use league_mod.Prelude.Assoc.{get}
use league_mod.Prelude.HashMap.{HashMap, insert}
use league_mod.Prelude.Bytes.{from_le}
use league_mod.Prelude.Outcome.{Result, ok, err}
use league_mod.Overlay.Externals.{Externals}
use league_mod.Overlay.ChunkHash.{hash_chunk_name, normalize_chunk_path}
use league_mod.Modpkg.Types.{
  io, ModpkgError, invalid_magic, invalid_version, ModpkgLayer, ModpkgChunk, no_layer_hash,
  no_layer_index,
}
use league_mod.Modpkg.Crates.{Crates}
use league_mod.Modpkg.Names.{hash_layer_name, hash_wad_name}
use league_mod.Modpkg.Archive.{Modpkg, Key, or_no_keys}
use league_mod.Modpkg.Reader.{
  Fault, failed, panicked, Reader, ◌>>=◌, pure, fail, read_exact, read_uint, read_layer, read_chunk,
}

abbrev pub magic : List ℕ
magic = text "_modpkg_"

-- Magic, version, sizes and signature: the signature and the count of chunks.
unfoldable pub read_header : Reader (List ℕ × ℕ)
read_header = do
  found ← read_uint io 8
  if found == from_le magic
      then (do
        version ← read_uint io 4
        if version == 1
            then (do
              signature_size ← read_uint io 4
              chunk_count ← read_uint io 4
              signature ← read_exact io signature_size
              pure (signature, chunk_count))
            else fail (failed (invalid_version version)))
      else fail (failed (invalid_magic found))

-- `seek` to the next multiple of 8, in a file of `total` bytes.
unfoldable pub skip_alignment : ℕ → Reader (Unit {0})
skip_alignment total s = ok (tt, drop ((8 - (total - length s) % 8) % 8) s)

-- `read_str_until_nul`, as a step of the reader
abbrev pub or_failed {ℓ} : {A : Type ℓ} → Result ModpkgError A → Result Fault A
or_failed (ok a) = ok a
or_failed (err e) = err (failed e)

abbrev pub lift : (List ℕ → Result ModpkgError (Text × List ℕ)) → Reader Text
lift read s = or_failed (read s)

module _ (e : Externals) where
  unfoldable pub read_layers_from :
      ℕ → List ℕ → HashMap ℕ ModpkgLayer → Reader (List ℕ × HashMap ℕ ModpkgLayer)
  read_layers_from zero layer_indices layers = pure (layer_indices, layers)
  read_layers_from (suc n) layer_indices layers = do
    layer ← read_layer
    let layer_hash = hash_layer_name e layer.name
    read_layers_from n (layer_indices ++ (layer_hash ∷ [])) (insert layer_hash layer layers)

  unfoldable pub read_layers : Reader (List ℕ × HashMap ℕ ModpkgLayer)
  read_layers = do layer_count ← read_uint io 4; read_layers_from layer_count [] []

module _ (x : Crates) (e : Externals) where
  unfoldable pub read_chunk_paths_from :
      ℕ → List ℕ → HashMap ℕ Text → Reader (List ℕ × HashMap ℕ Text)
  read_chunk_paths_from zero chunk_path_indices chunk_paths = pure (chunk_path_indices, chunk_paths)
  read_chunk_paths_from (suc n) chunk_path_indices chunk_paths = do
    read_path ← lift x.read_str_until_nul
    let chunk_path = normalize_chunk_path e read_path
    let chunk_path_hash = hash_chunk_name e chunk_path
    read_chunk_paths_from n (chunk_path_indices ++ (chunk_path_hash ∷ []))
        (insert chunk_path_hash chunk_path chunk_paths)

  unfoldable pub read_chunk_paths : Reader (List ℕ × HashMap ℕ Text)
  read_chunk_paths = do count ← read_uint io 4; read_chunk_paths_from count [] []

  unfoldable pub read_wads_from : ℕ → List ℕ → HashMap ℕ Text → Reader (List ℕ × HashMap ℕ Text)
  read_wads_from zero wads_indices wads = pure (wads_indices, wads)
  read_wads_from (suc n) wads_indices wads = do
    wad ← lift x.read_str_until_nul
    let wad_hash = hash_wad_name e wad
    read_wads_from n (wads_indices ++ (wad_hash ∷ [])) (insert wad_hash wad wads)

  unfoldable pub read_wads : Reader (List ℕ × HashMap ℕ Text)
  read_wads = do count ← read_uint io 4; read_wads_from count [] []

-- `layer_indices[index]` panics out of range.
abbrev in_range : Option ℕ → Reader ℕ
in_range none = fail panicked
in_range (some layer_hash) = pure layer_hash

unfoldable pub layer_hash_at : List ℕ → ℕ → Reader ℕ
layer_hash_at layer_indices index =
    if index == no_layer_index then pure no_layer_hash else in_range (get_elem? layer_indices index)

abbrev pub Chunks : Type 0
Chunks = HashMap Key ModpkgChunk × HashMap Key (List Key)

-- One round of the loop: the chunk enters both maps.
unfoldable pub add_chunk : ModpkgChunk → ℕ → Chunks → Chunks
add_chunk chunk layer_hash (chunks, chunks_by_wad_layer) =
    let key : Key = (chunk.path_hash, layer_hash) in
    let group : Key = (chunk.wad_index, chunk.layer_index) in
    (
      insert key chunk chunks,
      insert group (or_no_keys (get group chunks_by_wad_layer) ++ (key ∷ [])) chunks_by_wad_layer,
    )

unfoldable pub read_chunks : ℕ → List ℕ → Chunks → Reader Chunks
read_chunks zero layer_indices maps = pure maps
read_chunks (suc n) layer_indices maps = do
  chunk ← read_chunk
  layer_hash ← layer_hash_at layer_indices chunk.layer_index
  read_chunks n layer_indices (add_chunk chunk layer_hash maps)

-- All that stands before the chunk table.
abbrev Front : Type 0
Front =
    (List ℕ × ℕ)
    × (List ℕ × HashMap ℕ ModpkgLayer)
    × (List ℕ × HashMap ℕ Text)
    × (List ℕ × HashMap ℕ Text)

assemble : List ℕ → Front → Chunks → Modpkg
assemble source (sizes, layers, paths, wads) maps = record {
  signature = sizes.0;
  layer_indices = layers.0;
  layers = layers.1;
  chunk_path_indices = paths.0;
  chunk_paths = paths.1;
  wads_indices = wads.0;
  wads = wads.1;
  chunks = maps.0;
  chunks_by_wad_layer = maps.1;
  source = source;
}

read_table : List ℕ → Front → Reader Modpkg
unfolding assemble
read_table source (sizes, layers, paths, wads) = do
  _ ← skip_alignment (length source)
  maps ← read_chunks sizes.1 layers.0 ([], [])
  pure (assemble source (sizes, layers, paths, wads) maps)

abbrev drop_rest : Result Fault (Modpkg × List ℕ) → Result Fault Modpkg
drop_rest (ok (m, rest)) = ok m
drop_rest (err failure) = err failure

module _ (x : Crates) (e : Externals) where
  read_front : Reader Front
  read_front = do
    sizes ← read_header
    layers ← read_layers e
    paths ← read_chunk_paths x e
    wads ← read_wads x e
    pure (sizes, layers, paths, wads)

  read_all : List ℕ → Reader Modpkg
  unfolding read_front read_table
  read_all source = read_front >>= read_table source

  unfoldable pub mount_from_reader : List ℕ → Result Fault Modpkg
  unfolding read_all
  mount_from_reader source = drop_rest (read_all source source)
