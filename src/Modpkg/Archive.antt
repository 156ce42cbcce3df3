-- ===== src/Modpkg/Archive.antt =====
-- crates/ltk_modpkg/src/lib.rs and decoder.rs: a mounted package, its lookups and the loading of
-- chunks; with the loaders of metadata.rs, readme.rs and thumbnail.rs. `source` is the whole file.
pub mod Batch
pub mod Index
use league_mod.Prelude.{
  ℕ, suc, ◌%◌, ◌^◌, Bool, true, false, not, ◌||◌, Option, none, some, List, [], ◌∷◌, Text, leb,
  length, get_elem?, take, drop, if◌then◌else◌, ◌==◌, nat_ord, pair_ord,
}
use league_mod.Prelude.Assoc.{get, contains_key}
use league_mod.Prelude.HashMap.{HashMap}
use league_mod.Prelude.Outcome.{Result, ok, err, ◌>>=◌}
use league_mod.Overlay.Externals.{Externals}
use league_mod.Overlay.ChunkHash.{hash_chunk_name, normalize_chunk_path, from_hex}
use league_mod.Modpkg.Types.{
  ModpkgError, io, missing_chunk, invalid_meta_chunk, uncompressed, zstd, ModpkgCompression,
  ModpkgLayer, ModpkgChunk, ModpkgMetadata, no_layer_hash, no_layer_index, no_wad_index,
  metadata_chunk_path, readme_chunk_path, thumbnail_chunk_path,
}
use league_mod.Modpkg.Crates.{Crates}
use league_mod.Modpkg.Names.{
  before_dot, is_hex_chunk_name, path_file_name, hash_layer_name, hash_wad_name,
}

abbrev pub Key : Type 0
Key = ℕ × ℕ

pub record Modpkg : Type 0 where
  pub signature : List ℕ
  pub layer_indices : List ℕ
  pub layers : HashMap ℕ ModpkgLayer
  pub chunk_path_indices : List ℕ
  pub chunk_paths : HashMap ℕ Text
  pub wads_indices : List ℕ
  pub wads : HashMap ℕ Text
  pub chunks : HashMap Key ModpkgChunk
  pub chunks_by_wad_layer : HashMap Key (List Key)
  pub source : List ℕ

-- `iter().position`
unfoldable pub position : ℕ → List ℕ → Option ℕ
position hash [] = none
position hash (h ∷ hashes) =
    if h == hash
    then some 0
    else (elim (position hash hashes) [ none ↦ none | some i ↦ some (suc i) ])

-- `idx as u32`
as_u32 : Option ℕ → Option ℕ
as_u32 none = none
as_u32 (some index) = some (index % 2 ^ 32)

abbrev pub or_no_keys : Option (List Key) → List Key
or_no_keys none = []
or_no_keys (some keys) = keys

-- `ModpkgDecoder::load_chunk_raw`: seek to the data, then read it exactly.
unfoldable pub load_raw : List ℕ → ModpkgChunk → Result ModpkgError (List ℕ)
load_raw source chunk =
    let rest = drop chunk.data_offset source in
    if leb chunk.compressed_size (length rest) then ok (take chunk.compressed_size rest) else err io

-- Insertion sort by `data_offset`: stable, as `sort_by_key` is.
insert_by_offset : Key × ModpkgChunk → List (Key × ModpkgChunk) → List (Key × ModpkgChunk)
insert_by_offset (k, c) [] = (k, c) ∷ []
insert_by_offset (k, c) ((j, d) ∷ chunks) =
    let rest = insert_by_offset (k, c) chunks in
    if leb c.data_offset d.data_offset then (k, c) ∷ (j, d) ∷ chunks else (j, d) ∷ rest

found : HashMap Key ModpkgChunk → List Key → List (Key × ModpkgChunk)
found chunks [] = []
found chunks (k ∷ keys) = elim (get k chunks) [
  | none ↦ found chunks keys
  | some chunk ↦ (k, chunk) ∷ found chunks keys
]

sort_by_offset : List (Key × ModpkgChunk) → List (Key × ModpkgChunk)
unfolding insert_by_offset
sort_by_offset [] = []
sort_by_offset (entry ∷ entries) = insert_by_offset entry (sort_by_offset entries)

chunk_or_missing : Key → Option ModpkgChunk → Result ModpkgError ModpkgChunk
chunk_or_missing key none = err (missing_chunk key.0)
chunk_or_missing key (some chunk) = ok chunk

-- `Modpkg::load_chunk_raw`
unfoldable pub load_chunk_raw : Modpkg → Key → Result ModpkgError (List ℕ)
unfolding chunk_or_missing
load_chunk_raw m key = do chunk ← chunk_or_missing key (get key m.chunks); load_raw m.source chunk

module _ (e : Externals) where
  layer_hash_of : Option Text → ℕ
  layer_hash_of none = no_layer_hash
  layer_hash_of (some name) = hash_layer_name e name

  -- `file_name`, in lower case, or else the whole path in lower case
  lower_file_name : Text → Option Text → Text
  lower_file_name normalized none = e.to_lowercase normalized
  lower_file_name normalized (some name) = e.to_lowercase name

  by_hex_name : Modpkg → Text → ℕ → ℕ → Result ModpkgError Key
  by_hex_name m name literal_hash layer_hash =
      let parsed = from_hex 0 (before_dot name) in
      if is_hex_chunk_name name
      then (if contains_key (parsed, layer_hash) m.chunks
          then ok (parsed, layer_hash)
          else err (missing_chunk literal_hash))
      else err (missing_chunk literal_hash)

  -- `Modpkg::resolve_chunk_key`
  unfoldable pub resolve_chunk_key : Modpkg → Text → Option Text → Result ModpkgError Key
  unfolding layer_hash_of lower_file_name by_hex_name
  resolve_chunk_key m path layer =
      let normalized = normalize_chunk_path e path in
      let literal_hash = hash_chunk_name e normalized in
      if contains_key (literal_hash, layer_hash_of layer) m.chunks
      then ok (literal_hash, layer_hash_of layer)
      else by_hex_name m (lower_file_name normalized (path_file_name normalized)) literal_hash
          (layer_hash_of layer)

  unfoldable pub load_chunk_raw_by_path : Modpkg → Text → Option Text → Result ModpkgError (List ℕ)
  load_chunk_raw_by_path m path layer = do
    key ← resolve_chunk_key m path layer
    load_chunk_raw m key

  -- `get_chunk`: a key that resolves is there.
  unfoldable pub get_chunk : Modpkg → Text → Option Text → Result ModpkgError ModpkgChunk
  unfolding chunk_or_missing
  get_chunk m path layer = do
    key ← resolve_chunk_key m path layer
    chunk_or_missing key (get key m.chunks)

  unfoldable pub has_chunk : Modpkg → Text → Option Text → Bool
  has_chunk m path layer = elim (resolve_chunk_key m path layer) [ ok _ ↦ true | err _ ↦ false ]

  -- `Modpkg::layer_index`, `wad_index`, `wad_name_for_index` and `chunks_for_wad_layer`
  unfoldable pub layer_index : Modpkg → Text → Option ℕ
  unfolding as_u32
  layer_index m layer = as_u32 (position (hash_layer_name e layer) m.layer_indices)

  unfoldable pub wad_index : Modpkg → Text → Option ℕ
  unfolding as_u32
  wad_index m wad_name = as_u32 (position (hash_wad_name e wad_name) m.wads_indices)

module _ (x : Crates) where
  -- `ModpkgDecoder::load_chunk_decompressed`
  unfoldable pub load_as : ModpkgCompression → List ℕ → ModpkgChunk → Result ModpkgError (List ℕ)
  load_as uncompressed source chunk = load_raw source chunk
  load_as zstd source chunk = do
    data_read ← load_raw source chunk
    x.decompress data_read chunk.uncompressed_size

  unfoldable pub load_chunk_decompressed : List ℕ → ModpkgChunk → Result ModpkgError (List ℕ)
  unfolding load_as
  load_chunk_decompressed source chunk = load_as chunk.compression source chunk

  load_all : List ℕ → List (Key × ModpkgChunk) → Result ModpkgError (List (Key × List ℕ))
  load_all source [] = ok []
  load_all source ((k, chunk) ∷ entries) = do
    bytes ← load_chunk_decompressed source chunk
    rest ← load_all source entries
    ok ((k, bytes) ∷ rest)

  -- `Modpkg::load_chunks_batch`
  unfoldable pub load_chunks_batch : Modpkg → List Key → Result ModpkgError (List (Key × List ℕ))
  unfolding found sort_by_offset load_all
  load_chunks_batch m keys = load_all m.source (sort_by_offset (found m.chunks keys))

  -- `Modpkg::load_chunk_decompressed_by_hash`
  unfoldable pub load_chunk_decompressed_by_hash : Modpkg → Key → Result ModpkgError (List ℕ)
  unfolding chunk_or_missing
  load_chunk_decompressed_by_hash m key = do
    chunk ← chunk_or_missing key (get key m.chunks)
    load_chunk_decompressed m.source chunk

  module _ (e : Externals) where
    unfoldable pub load_chunk_decompressed_by_path :
        Modpkg → Text → Option Text → Result ModpkgError (List ℕ)
    load_chunk_decompressed_by_path m path layer = do
      key ← resolve_chunk_key e m path layer
      load_chunk_decompressed_by_hash m key

    -- A chunk that belongs to the package itself, and its data.
    load_meta_chunk : Modpkg → Text → Result ModpkgError (List ℕ)
    load_meta_chunk m path = do
      chunk ← get_chunk e m path none
      if not (chunk.layer_index == no_layer_index) || not (chunk.wad_index == no_wad_index)
          then err invalid_meta_chunk
          else load_chunk_decompressed m.source chunk

    unfoldable pub load_metadata : Modpkg → Result ModpkgError ModpkgMetadata
    unfolding load_meta_chunk
    load_metadata m = do bytes ← load_meta_chunk m metadata_chunk_path; x.from_msgpack bytes

    unfoldable pub load_readme : Modpkg → Result ModpkgError (List ℕ)
    unfolding load_meta_chunk
    load_readme m = load_meta_chunk m readme_chunk_path

    unfoldable pub load_thumbnail : Modpkg → Result ModpkgError (List ℕ)
    unfolding load_meta_chunk
    load_thumbnail m = load_meta_chunk m thumbnail_chunk_path

wad_of : Modpkg → Option ℕ → Option Text
wad_of m none = none
wad_of m (some wad_hash) = get wad_hash m.wads

unfoldable pub wad_name_for_index : Modpkg → ℕ → Option Text
unfolding wad_of
wad_name_for_index m wad_index = wad_of m (get_elem? m.wads_indices wad_index)

unfoldable pub chunks_for_wad_layer : Modpkg → ℕ → ℕ → List Key
chunks_for_wad_layer m wad_index layer_index =
    or_no_keys (get (wad_index, layer_index) m.chunks_by_wad_layer)
