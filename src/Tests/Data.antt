-- ===== src/Tests/Data.antt =====
-- One mod that overrides one chunk of one WAD.
use league_mod.Prelude.{ℕ, ◌+◌, ◌≡◌, refl, Option, none, some, List, [], ◌∷◌, Text, text, true}
use league_mod.Prelude.Int.{pos}
use league_mod.Prelude.Outcome.{Result, ok, err}
use league_mod.Prelude.HashMap.{HashMap}
use league_mod.Overlay.FilePath.{FilePath}
use league_mod.Overlay.Types.{Error, wad_builder_error, layer_wad, OverrideMeta}
use league_mod.Overlay.State
use league_mod.Overlay.State.{OverlayState, absent, saved}
use league_mod.Overlay.Externals.{Externals}
use league_mod.Overlay.GameIndex.{GameIndex, to_ascii_lowercase}
use league_mod.Overlay.Content.{ModProjectLayer, ModContentProvider, EnabledMod}
use league_mod.Overlay.MetaCache
use league_mod.Overlay.Patch.{failed, Patched, done}
use league_mod.Overlay.World.{World}
use league_mod.Overlay.AllMods.{AllMeta, collect_all_override_metadata}
use league_mod.Overlay.Builder.{OverlayBuilder, OverlayBuildResult, rebuild_all, build}
use league_mod.Overlay.Builder.Settled.{collected}

unfoldable pub total : List ℕ → ℕ
total [] = 0
total (byte ∷ bytes) = total bytes + byte

abbrev pub adding : Externals
adding = record {
  xxh3_64 = total;
  xxh64 = total;
  to_lowercase = to_ascii_lowercase;
  from_utf8_lossy = λ s. s;
}

abbrev pub a_wad : FilePath
a_wad = text "DATA" ∷ text "a.wad.client" ∷ []

abbrev pub chunk : FilePath
chunk = text "0000000000000001.bin" ∷ []

abbrev pub a_content : List ℕ → ModContentProvider
a_content bytes = record {
  layers = ok (record { name = text "base"; priority = pos 0 } ∷ []);
  list_layer_wads = λ _. ok (text "a.wad.client" ∷ []);
  read_wad_overrides = λ _ _. ok ((chunk, bytes) ∷ []);
  read_wad_override_file = λ _ _ _. ok bytes;
  read_raw_overrides = ok [];
  read_raw_override_file = λ _. ok bytes;
  content_fingerprint = ok (some 9);
}

abbrev pub a_mod : EnabledMod
a_mod = record { id = text "m"; content = a_content (5 ∷ []); enabled_layers = none }

abbrev pub a_game : GameIndex
a_game = record {
  wad_index = (text "a.wad.client", (text "game" ∷ a_wad) ∷ []) ∷ [];
  hash_index = (1, a_wad ∷ []) ∷ [];
  game_fingerprint = 77;
  subchunktoc_blocked = [];
}

abbrev pub a_builder : OverlayBuilder
a_builder = record {
  externals = adding;
  game_dir = text "game" ∷ [];
  enabled_mods = a_mod ∷ [];
  blocked_wads = [];
  has_data_final = true;
  game_index = ok a_game;
  content_hashes = λ _. [];
  build_patched_wad = λ _ overrides. done (8 ∷ []);
  save_failure = λ _ _. none;
}

abbrev pub empty_world : World
empty_world = record {
  state_file = absent;
  cache_file = none;
  overlay = [];
  last_mod_wad_reports = [];
  last_linked_bin_offenders = [];
}

abbrev pub first : Result Error OverlayBuildResult × World
first = build a_builder empty_world

abbrev pub a_meta : OverrideMeta
a_meta = record {
  content_hash = 5;
  uncompressed_size = 1;
  source = layer_wad (text "m") (text "base") (text "a.wad.client") chunk;
  fallback_wad = some a_wad;
  linked_bins = [];
}

-- What a run unfolds.
unfoldable pub computed : OverlayBuilder → World → Result Error OverlayBuildResult × World
unfolding total league_mod.Overlay.Fingerprint.pair_bytes league_mod.Prelude.HashMap.insert
    league_mod.Prelude.TreeMap.insert league_mod.Prelude.HashSet.insert
    league_mod.Prelude.Bytes.le_bytes league_mod.Prelude.Bytes.from_le
    league_mod.Overlay.AllMods.cache_fingerprint
    league_mod.Overlay.AllMods.collect_or_cache_mod_metadata
    league_mod.Overlay.AllMods.collect_all_override_metadata
    league_mod.Overlay.Builder.effective_blocked_wads league_mod.Overlay.Builder.validate_wads_exist
    league_mod.Overlay.Builder.remove_stale league_mod.Overlay.Builder.clean_stale_wads
    league_mod.Overlay.Builder.save league_mod.Overlay.Builder.incremental
    league_mod.Overlay.Builder.clean_unless league_mod.Overlay.Builder.clean_stale_if
    league_mod.Overlay.Builder.build_empty league_mod.Overlay.Builder.build_skip
    league_mod.Overlay.Builder.partition_of league_mod.Overlay.Builder.routing
    league_mod.Overlay.Builder.build_wads league_mod.Overlay.Builder.collect_meta
    league_mod.Overlay.Builder.build_with league_mod.Overlay.Builder.build_changed
    league_mod.Overlay.Builder.is_exact_match league_mod.Overlay.Builder.build_from
    league_mod.Overlay.Builder.build_indexed league_mod.Overlay.Builder.build
    league_mod.Overlay.ChunkHash.find league_mod.Overlay.ChunkHash.ends_with
    league_mod.Overlay.ChunkHash.to_slashes league_mod.Overlay.ChunkHash.strip_ltk
    league_mod.Overlay.ChunkHash.normalize_rel_path_for_hash league_mod.Overlay.ChunkHash.file_stem
    league_mod.Overlay.ChunkHash.is_hex_stem league_mod.Overlay.ChunkHash.normalize_chunk_path
    league_mod.Overlay.ChunkHash.hash_chunk_name league_mod.Overlay.ChunkHash.resolve_chunk_hash
    league_mod.Overlay.Collect.sort_layers league_mod.Overlay.Collect.override_of
    league_mod.Overlay.Collect.fill_fallback league_mod.Overlay.Collect.route_unroutable
    league_mod.Overlay.Collect.collect_single_mod_metadata
    league_mod.Overlay.Content.is_layer_active
    league_mod.Overlay.Distribute.distribute_override_hashes
    league_mod.Overlay.Distribute.is_wad_blocked league_mod.Overlay.Distribute.remove_blocked
    league_mod.Overlay.FilePath.as_str league_mod.Overlay.FilePath.split
    league_mod.Overlay.FilePath.from league_mod.Overlay.FilePath.file_name
    league_mod.Overlay.Fingerprint.sort_by_hash league_mod.Overlay.Fingerprint.meta_entries
    league_mod.Overlay.Fingerprint.compute_wad_fingerprint_from_meta
    league_mod.Overlay.GameIndex.to_ascii_lowercase league_mod.Overlay.GameIndex.find_wad
    league_mod.Overlay.GameIndex.find_wads_with_hash
    league_mod.Overlay.GameIndex.find_best_matching_wad league_mod.Overlay.LinkedBins.read_exact
    league_mod.Overlay.LinkedBins.read_uint league_mod.Overlay.LinkedBins.read_links
    league_mod.Overlay.LinkedBins.read_prop league_mod.Overlay.LinkedBins.parse_linked_bins
    league_mod.Overlay.Merge.insert_all league_mod.Overlay.Merge.merge_mods
    league_mod.Overlay.Merge.is_lazy league_mod.Overlay.Merge.filter_override_metadata
    league_mod.Overlay.MetaCache.cached_source league_mod.Overlay.MetaCache.restore
    league_mod.Overlay.MetaCache.reconstruct league_mod.Overlay.MetaCache.cached_fields
    league_mod.Overlay.MetaCache.cached_entry league_mod.Overlay.MetaCache.from_override_meta
    league_mod.Overlay.MetaCache.new league_mod.Overlay.MetaCache.load
    league_mod.Overlay.MetaCache.get_mod_meta league_mod.Overlay.MetaCache.set_mod_meta
    league_mod.Overlay.MetaCache.retain_mods league_mod.Overlay.Offenders.is_present
    league_mod.Overlay.Offenders.collect_linked_bin_offenders
    league_mod.Overlay.Partition.collect_fingerprints league_mod.Overlay.Partition.is_reusable
    league_mod.Overlay.Partition.choose league_mod.Overlay.Partition.partition_wads_from_meta
    league_mod.Overlay.Patch.per_wad_work league_mod.Overlay.Patch.write_some
    league_mod.Overlay.Patch.patch_all league_mod.Overlay.Patch.patch_wads_parallel
    league_mod.Overlay.Report.from_meta league_mod.Overlay.Resolve.add_hashes
    league_mod.Overlay.Resolve.needed_hashes league_mod.Overlay.Resolve.group_hash
    league_mod.Overlay.Resolve.group_by_mod league_mod.Overlay.Resolve.find_mod
    league_mod.Overlay.Resolve.read_source league_mod.Overlay.Resolve.read_hash
    league_mod.Overlay.Resolve.read_group league_mod.Overlay.Resolve.read_groups
    league_mod.Overlay.Resolve.wad_overrides league_mod.Overlay.Resolve.distribute_bytes
    league_mod.Overlay.Resolve.resolve_needed league_mod.Overlay.Resolve.resolve_overrides_for_wads
    league_mod.Overlay.Sorted.sort league_mod.Overlay.Sorted.dedup
    league_mod.Overlay.Sorted.insert_sorted league_mod.Overlay.State.new
    league_mod.Overlay.State.load league_mod.Overlay.State.matches
    league_mod.Overlay.State.supports_incremental league_mod.Overlay.State.wad_fingerprint
    league_mod.Overlay.Types.mod_id league_mod.Overlay.World.exists
    league_mod.Overlay.World.write_wad league_mod.Overlay.World.in_data_dir
    league_mod.Overlay.World.clean_overlay_wads
computed b w = build b w

abbrev pub a_metas : Result Error AllMeta → HashMap ℕ OverrideMeta
a_metas (ok m) = m.all_meta
a_metas (err e) = []

pub pass_1 : a_metas (collected a_builder a_game empty_world) ≡ (1, a_meta) ∷ []
unfolding computed
pass_1 = refl

pub run :
    (build a_builder empty_world).0 ≡ ok (record { wads_built = a_wad ∷ []; wads_reused = [] })
unfolding computed
run = refl

abbrev or_empty_meta : Result Error AllMeta → AllMeta
or_empty_meta (ok m) = m
or_empty_meta (err e) = record {
  all_meta = [];
  mod_wad_reports = [];
  saved_cache = MetaCache.new 0;
}

-- What pass 1 collects in the example.
abbrev pub a_collected : AllMeta
a_collected = or_empty_meta (collected a_builder a_game empty_world)

pub at_collected : collected a_builder a_game empty_world ≡ ok a_collected
unfolding computed
at_collected = refl

-- The state that the first build saves.
abbrev pub a_state : OverlayState
a_state = record {
  version = 4;
  enabled_mods = text "m" ∷ [];
  game_fingerprint = 77;
  blocked_wads = [];
  wad_fingerprints = (text "DATA/a.wad.client", 6) ∷ [];
  linked_bin_offenders = [];
}

-- The world after the first build.
abbrev pub built_world : World
built_world = (build a_builder empty_world).1

-- Another mod, in whose build a WAD fails to be patched when some of it is written.
abbrev pub failing_builder : OverlayBuilder
failing_builder = record a_builder {
  enabled_mods = record a_mod { id = text "n"; content = a_content (6 ∷ []) } ∷ [];
  build_patched_wad = λ _ overrides. failed (some (9 ∷ [])) wad_builder_error;
}

abbrev pub failed_world : World
failed_world = (build failing_builder built_world).1

pub fails : (build failing_builder built_world).0 ≡ err wad_builder_error
unfolding computed
fails = refl

-- The failed build left its bytes, and the state of the build before it.
pub left_behind : failed_world.overlay ≡ (a_wad, 9 ∷ []) ∷ []
unfolding computed
left_behind = refl

pub saved_before : built_world.state_file ≡ saved a_state
unfolding computed
saved_before = refl

pub rebuilds :
    (rebuild_all a_builder (record failed_world { cache_file = none })).0
    ≡ ok (record { wads_built = a_wad ∷ []; wads_reused = [] })
unfolding computed rebuild_all
rebuilds = refl
