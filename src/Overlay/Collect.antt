-- ===== src/Overlay/Collect.antt =====
-- Pass 1 of a build for one mod: `collect_single_mod_metadata` of
-- crates/ltk_overlay/src/builder/metadata.rs. Hash maps are iterated in the order of their lists.
pub mod Owned
use league_mod.Prelude.{
  ℕ, Bool, true, false, Option, none, some, List, [], ◌∷◌, Text, length, Ordering, or_else,
  if◌then◌else◌, ◌==◌, nat_ord, list_ord, cmp_list,
}
use league_mod.Prelude.Int.{cmp_int}
use league_mod.Prelude.Assoc.{keys}
use league_mod.Prelude.HashMap.{HashMap, insert}
use league_mod.Prelude.Outcome.{Result, ok, err, ◌>>=◌}
use league_mod.Overlay.FilePath.{FilePath}
use league_mod.Overlay.Types.{
  Error, other, wad_not_found, OverrideMeta, OverrideSource, layer_wad, raw,
}
use league_mod.Overlay.Externals.{Externals}
use league_mod.Overlay.ChunkHash.{resolve_chunk_hash}
use league_mod.Overlay.LinkedBins.{parse_linked_bins}
use league_mod.Overlay.GameIndex.{GameIndex, or_nil, find_wad, find_best_matching_wad}
use league_mod.Overlay.Content.{ModProjectLayer, EnabledMod, is_layer_active}

abbrev pub ModMeta : Type 0
ModMeta = HashMap ℕ OverrideMeta

-- `a.priority.cmp(&b.priority).then(a.name.cmp(&b.name))`
pub cmp_layer : ModProjectLayer → ModProjectLayer → Ordering
cmp_layer a b = or_else (cmp_int a.priority b.priority) (cmp_list a.name b.name)

-- `sort_by`, which is stable.
pub insert_layer : ModProjectLayer → List ModProjectLayer → List ModProjectLayer
insert_layer a [] = a ∷ []
insert_layer a (b ∷ layers) =
    let rest = insert_layer a layers in
    elim (cmp_layer a b) [ Ordering.gt ↦ b ∷ rest | _ ↦ a ∷ b ∷ layers ]

unfoldable pub sort_layers : List ModProjectLayer → List ModProjectLayer
unfolding insert_layer cmp_layer
sort_layers [] = []
sort_layers (a ∷ layers) = insert_layer a (sort_layers layers)

-- `strip_prefix(game_dir)`
strip_prefix : FilePath → FilePath → Result Error FilePath
strip_prefix [] path = ok path
strip_prefix (c ∷ dir) [] = err other
strip_prefix (c ∷ dir) (d ∷ path) = if c == d then strip_prefix dir path else err other

-- A file read in pass 1: path, path hash, content hash, size and linked bins.
pub record Entry : Type 0 where
  pub rel_path : FilePath
  pub path_hash : ℕ
  pub content_hash : ℕ
  pub uncompressed_size : ℕ
  pub linked_bins : List Text

unfoldable pub override_of : OverrideSource → Option FilePath → Entry → OverrideMeta
override_of source fallback_wad e = record {
  content_hash = e.content_hash;
  uncompressed_size = e.uncompressed_size;
  source = source;
  fallback_wad = fallback_wad;
  linked_bins = e.linked_bins;
}

module _ (e : Externals) where
  read_entry : FilePath → List ℕ → Result Error Entry
  read_entry rel_path bytes = do
    path_hash ← resolve_chunk_hash e rel_path
    ok (record {
      rel_path = rel_path;
      path_hash = path_hash;
      content_hash = e.xxh3_64 bytes;
      uncompressed_size = length bytes;
      linked_bins = or_nil (parse_linked_bins e.from_utf8_lossy bytes);
    })

  read_entries : List (FilePath × List ℕ) → Result Error (List Entry)
  read_entries [] = ok []
  read_entries ((rel_path, bytes) ∷ files) = do
    entry ← read_entry rel_path bytes
    entries ← read_entries files
    ok (entry ∷ entries)

entry_hashes : List Entry → List ℕ
entry_hashes [] = []
entry_hashes (e ∷ entries) = e.path_hash ∷ entry_hashes entries

-- The WAD that a mod's WAD directory stands for: by its name, or else by the overlap of its chunks.
fallback_for :
    GameIndex → FilePath → List Entry → Result Error FilePath → Result Error (Option FilePath)
fallback_for g game_dir entries (ok wad) = do
  relative ← strip_prefix game_dir wad
  ok (some relative)
fallback_for g game_dir entries (err (wad_not_found name)) =
    ok (find_best_matching_wad g (entry_hashes entries))
fallback_for g game_dir entries (err e) = err e

insert_entries : (Entry → OverrideSource) → Option FilePath → List Entry → ModMeta → ModMeta
insert_entries source fallback_wad [] mod_meta = mod_meta
insert_entries source fallback_wad (e ∷ entries) mod_meta =
    insert_entries source fallback_wad entries
      (insert e.path_hash (override_of (source e) fallback_wad e) mod_meta)

module _ (e : Externals) (m : EnabledMod) (g : GameIndex) (game_dir : FilePath) where
  collect_wad : Text → Text → ModMeta → Result Error ModMeta
  collect_wad layer wad_name mod_meta = do
    files ← m.content.read_wad_overrides layer wad_name
    entries ← read_entries e files
    fallback_wad ← fallback_for g game_dir entries (find_wad g wad_name)
    ok (
        insert_entries (λ x. layer_wad m.id layer wad_name x.rel_path) fallback_wad entries
          mod_meta)

  collect_wads : Text → List Text → ModMeta → Result Error ModMeta
  collect_wads layer [] mod_meta = ok mod_meta
  collect_wads layer (wad_name ∷ wad_names) mod_meta = do
    mod_meta' ← collect_wad layer wad_name mod_meta
    collect_wads layer wad_names mod_meta'

  collect_layer : Text → ModMeta → Result Error ModMeta
  collect_layer layer mod_meta = do
    wad_names ← m.content.list_layer_wads layer
    collect_wads layer wad_names mod_meta

  collect_layers : List ModProjectLayer → ModMeta → Result Error ModMeta
  collect_layers [] mod_meta = ok mod_meta
  collect_layers (layer ∷ layers) mod_meta = do
    mod_meta' ←
        (if is_layer_active m layer.name then collect_layer layer.name mod_meta else ok mod_meta)
    collect_layers layers mod_meta'

  -- The raw overrides come last. The loop stops at the first file that has no hash.
  collect_raw : List (FilePath × List ℕ) → ModMeta → Result Error ModMeta
  collect_raw [] mod_meta = ok mod_meta
  collect_raw ((rel_path, bytes) ∷ files) mod_meta = do
    x ← read_entry e rel_path bytes
    collect_raw files (insert x.path_hash (override_of (raw m.id x.rel_path) none x) mod_meta)

is_unroutable : OverrideMeta → Bool
is_unroutable meta = elim meta.fallback_wad [ none ↦ true | some wad ↦ false ]

any_unroutable : ModMeta → Bool
any_unroutable [] = false
any_unroutable ((h, meta) ∷ mod_meta) = if is_unroutable meta then true else any_unroutable mod_meta

unfoldable pub fill_fallback : FilePath → OverrideMeta → OverrideMeta
unfolding is_unroutable
fill_fallback wad meta =
    if is_unroutable meta then record meta { fallback_wad = some wad } else meta

fill_fallbacks : FilePath → ModMeta → ModMeta
fill_fallbacks wad [] = []
fill_fallbacks wad ((h, meta) ∷ mod_meta) =
    (h, fill_fallback wad meta) ∷ fill_fallbacks wad mod_meta

fill_dominant : Option FilePath → ModMeta → ModMeta
fill_dominant none mod_meta = mod_meta
fill_dominant (some wad) mod_meta = fill_fallbacks wad mod_meta

-- Overrides that have no fallback get the WAD that most chunks of the mod are in.
unfoldable pub route_unroutable : GameIndex → ModMeta → ModMeta
unfolding is_unroutable any_unroutable fill_fallbacks fill_dominant
route_unroutable g mod_meta =
    if any_unroutable mod_meta
    then fill_dominant (find_best_matching_wad g (keys mod_meta)) mod_meta
    else mod_meta

unfoldable pub collect_single_mod_metadata :
    Externals → EnabledMod → GameIndex → FilePath → Result Error ModMeta
unfolding strip_prefix read_entry read_entries entry_hashes fallback_for insert_entries collect_wad
    collect_wads collect_layer collect_layers collect_raw
collect_single_mod_metadata e m g game_dir = do
  layers ← m.content.layers
  mod_meta ← collect_layers e m g game_dir (sort_layers layers) []
  files ← m.content.read_raw_overrides
  mod_meta' ← collect_raw e m g game_dir files mod_meta
  ok (route_unroutable g mod_meta')
