-- ===== src/Overlay/AllMods.antt =====
-- `collect_all_override_metadata` of crates/ltk_overlay/src/builder/metadata.rs, with the cache of
-- the mods' metadata, and `EnabledMod::cache_fingerprint` of builder/mod.rs.
pub mod Known
pub mod Saved
use league_mod.Prelude.{
  ℕ, zero, suc, ◌+◌, ◌/◌, ◌%◌, not, Option, none, some, List, [], ◌∷◌, ◌++◌, map, Text, ltb, select,
  if◌then◌else◌, ◌==◌, nat_ord, list_ord,
}
use league_mod.Prelude.Outcome.{Result, ok, err, ◌>>=◌}
use league_mod.Overlay.FilePath.{FilePath}
use league_mod.Overlay.Types.{Error}
use league_mod.Overlay.Externals.{Externals}
use league_mod.Overlay.GameIndex.{GameIndex}
use league_mod.Overlay.Content.{EnabledMod, base_layer_name}
use league_mod.Overlay.Collect.{ModMeta, collect_single_mod_metadata}
use league_mod.Overlay.Merge.{merge_mods, filter_override_metadata}
use league_mod.Overlay.MetaCache
use league_mod.Overlay.MetaCache.{
  OverrideMetaCache, CachedModMeta, reconstruct, from_override_meta, get_mod_meta, set_mod_meta,
  retain_mods,
}
use league_mod.Overlay.Report.{ModWadReport, from_meta}
use league_mod.Overlay.Sorted.{sort}
use league_mod.Prelude.HashMap.{HashMap}

-- `format!("{n}")`; twenty digits are enough for a `u64`.
decimal : ℕ → ℕ → Text → Text
decimal zero n digits = digits
decimal (suc fuel) n digits =
    let more = decimal fuel (n / 10) ((n % 10 + b'0') ∷ digits) in
    if ltb n 10 then (n + b'0') ∷ digits else more

push_layers : Text → List Text → Text
push_layers buf [] = buf
push_layers buf (layer ∷ layers) = push_layers (buf ++ (0 ∷ layer)) layers

layered_fingerprint : (List ℕ → ℕ) → ℕ → Option (List Text) → ℕ
layered_fingerprint xxh3_64 base_fp none = base_fp
layered_fingerprint xxh3_64 base_fp (some layers) =
    xxh3_64
      (push_layers (decimal 20 base_fp []) (sort (select (λ s. not (s == base_layer_name)) layers)))

or_no_fingerprint : Result Error (Option ℕ) → Option ℕ
or_no_fingerprint (ok fp) = fp
or_no_fingerprint (err e) = none

unfoldable pub cache_fingerprint : (List ℕ → ℕ) → EnabledMod → Option ℕ
unfolding decimal push_layers layered_fingerprint or_no_fingerprint
cache_fingerprint xxh3_64 m = elim (or_no_fingerprint m.content.content_fingerprint) [
  | none ↦ none
  | some base_fp ↦ some (layered_fingerprint xxh3_64 base_fp m.enabled_layers)
]

-- The metadata of the mods so far, and the cache.
abbrev pub Collected : Type 0
Collected = Result Error (ModMeta × OverrideMetaCache)

cached : OverrideMetaCache → Text → Option ℕ → Option CachedModMeta
cached cache id none = none
cached cache id (some fp) = get_mod_meta cache id fp

updated : OverrideMetaCache → Text → Option ℕ → ModMeta → OverrideMetaCache
updated cache id none mod_meta = cache
updated cache id (some fp) mod_meta = set_mod_meta cache id (from_override_meta fp mod_meta)

fresh_or_err : OverrideMetaCache → Text → Option ℕ → Result Error ModMeta → Collected
fresh_or_err cache id fingerprint (err e) = err e
fresh_or_err cache id fingerprint (ok mod_meta) =
    ok (mod_meta, updated cache id fingerprint mod_meta)

module _ (e : Externals) (g : GameIndex) (game_dir : FilePath) where
  unfoldable pub collect_or_cache_mod_metadata :
      EnabledMod → Option ℕ → OverrideMetaCache → Collected
  unfolding cached updated fresh_or_err
  collect_or_cache_mod_metadata m fingerprint cache = elim (cached cache m.id fingerprint) [
    | some entry ↦ ok (reconstruct entry m.id, cache)
    | none ↦ fresh_or_err cache m.id fingerprint (collect_single_mod_metadata e m g game_dir)
  ]

  -- All mods in turn; a failure ends the loop, and the cache is not saved.
  collect_mods :
      List EnabledMod → OverrideMetaCache → Result Error (List ModMeta × OverrideMetaCache)
  collect_mods [] cache = ok ([], cache)
  collect_mods (m ∷ mods) cache = do
    (mod_meta, cache') ← collect_or_cache_mod_metadata m (cache_fingerprint e.xxh3_64 m) cache
    (results, cache'') ← collect_mods mods cache'
    ok (mod_meta ∷ results, cache'')

  build_mod_wad_reports : List EnabledMod → List ModMeta → List ModWadReport
  build_mod_wad_reports [] results = []
  build_mod_wad_reports (m ∷ mods) [] = []
  build_mod_wad_reports (m ∷ mods) (mod_meta ∷ results) =
      from_meta m.id mod_meta (cache_fingerprint e.xxh3_64 m) g ∷ build_mod_wad_reports mods results

abbrev pub mod_ids : List EnabledMod → List Text
mod_ids = map (λ m. m.id)

-- The cache of the previous build, or a new one.
or_new : ℕ → Option OverrideMetaCache → OverrideMetaCache
or_new game_fp none = MetaCache.new game_fp
or_new game_fp (some cache) = cache

pub record AllMeta : Type 0 where
  pub all_meta : ModMeta
  pub mod_wad_reports : List ModWadReport
  -- what is saved to `override_meta.bin`
  pub saved_cache : OverrideMetaCache

unfoldable pub collect_all_override_metadata :
    Externals
    → List EnabledMod
    → GameIndex
    → FilePath
    → (List ℕ → HashMap ℕ ℕ)
    → Option OverrideMetaCache
    → Result Error AllMeta
unfolding collect_mods build_mod_wad_reports or_new
collect_all_override_metadata e mods g game_dir content_hashes cache_file = do
  (per_mod_results, cache) ←
      collect_mods e g game_dir mods
        (or_new g.game_fingerprint (MetaCache.load cache_file g.game_fingerprint))
  ok (record {
    all_meta = filter_override_metadata g content_hashes (merge_mods per_mod_results);
    mod_wad_reports = build_mod_wad_reports e g game_dir mods per_mod_results;
    saved_cache = retain_mods cache (mod_ids mods);
  })
