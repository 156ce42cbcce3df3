-- ===== src/Overlay/Builder.antt =====
-- `OverlayBuilder` of crates/ltk_overlay/src/builder/mod.rs: `build`, `rebuild_all` and the helpers
-- that they call. Logging, progress reports and the build time are left out, and so are the empty
-- directories that `cleanup_empty_parents` removes.
pub mod Failure
pub mod Skip
pub mod Stale
pub mod Steps
pub mod Fresh
pub mod Described
pub mod Settled
pub mod Invariant
pub mod Again
pub mod Routing
pub mod Rebuild
pub mod Blocked
use league_mod.Prelude.{
  ℕ, Bool, true, false, not, ◌&&◌, Option, none, some, List, [], ◌∷◌, map, Text, if◌then◌else◌,
  ◌==◌, nat_ord, list_ord,
}
use league_mod.Prelude.Assoc.{contains_key, keys, remove}
use league_mod.Prelude.HashMap.{HashMap}
use league_mod.Prelude.HashSet
use league_mod.Prelude.TreeMap.{TreeMap}
use league_mod.Prelude.Outcome.{Result, ok, err}
use league_mod.Overlay.FilePath.{FilePath, from}
use league_mod.Overlay.Types.{Error, other}
use league_mod.Overlay.Externals.{Externals}
use league_mod.Overlay.State
use league_mod.Overlay.State.{
  OverlayState, StateFile, absent, saved, load, matches, supports_incremental,
}
use league_mod.Overlay.GameIndex.{GameIndex, to_ascii_lowercase}
use league_mod.Overlay.Content.{EnabledMod}
use league_mod.Overlay.Distribute.{WadHashes, distribute_override_hashes, remove_blocked}
use league_mod.Overlay.Partition.{Partition, partition_wads_from_meta}
use league_mod.Overlay.Resolve.{Overrides, resolve_overrides_for_wads}
use league_mod.Overlay.Offenders.{collect_linked_bin_offenders}
use league_mod.Overlay.AllMods.{AllMeta, mod_ids, collect_all_override_metadata}
use league_mod.Overlay.Sorted.{sort, dedup}
use league_mod.Overlay.Patch.{Patched, patch_wads_parallel}
use league_mod.Overlay.World.{
  World, Build, pure, lift, gets, modify, ◌>>=◌, ◌>>◌, exists, clean_overlay_wads,
}

-- The builder's settings, and what it finds in the game directory.
pub record OverlayBuilder : Type 0 where
  pub externals : Externals
  pub game_dir : FilePath
  pub enabled_mods : List EnabledMod
  pub blocked_wads : List Text
  -- whether `Game/DATA/FINAL` is there
  pub has_data_final : Bool
  -- `GameIndex::load_or_build`
  pub game_index : Result Error GameIndex
  -- `GameIndex::compute_content_hashes_batch`
  pub content_hashes : List ℕ → HashMap ℕ ℕ
  pub build_patched_wad : FilePath → Overrides → Patched
  -- how saving this state over that file fails, and what is then in the file; `none` if it does not
  pub save_failure : OverlayState → StateFile → Option (Error × StateFile)

pub record OverlayBuildResult : Type 0 where
  pub wads_built : List FilePath
  pub wads_reused : List FilePath

pub collect_lowercase : List Text → List Text → List Text
collect_lowercase [] set = set
collect_lowercase (wad ∷ wads) set =
    collect_lowercase wads (HashSet.insert (to_ascii_lowercase wad) set)

-- `with_blocked_wads`
unfoldable pub with_blocked_wads : OverlayBuilder → List Text → OverlayBuilder
unfolding collect_lowercase
with_blocked_wads b wads = record b { blocked_wads = collect_lowercase wads [] }

unfoldable pub effective_blocked_wads : OverlayBuilder → List Text
effective_blocked_wads b = dedup (sort b.blocked_wads)

pub all_exist : World → List Text → Bool
all_exist w [] = true
all_exist w (path ∷ paths) = if exists w (from path) then all_exist w paths else false

unfoldable pub validate_wads_exist : World → OverlayState → Bool
unfolding all_exist
validate_wads_exist w s = all_exist w (keys s.wad_fingerprints)

unfoldable pub remove_stale : TreeMap Text ℕ → List Text → World → World
remove_stale new_fps [] w = w
remove_stale new_fps (old ∷ olds) w =
    remove_stale new_fps olds
      (if contains_key old new_fps then w else record w { overlay = remove (from old) w.overlay })

unfoldable pub clean_stale_wads : OverlayState → TreeMap Text ℕ → World → World
unfolding remove_stale
clean_stale_wads prev_state new_fps = remove_stale new_fps (keys prev_state.wad_fingerprints)

-- `OverlayState::save`
unfoldable pub save : OverlayBuilder → OverlayState → Build (Unit {0})
save b s w = elim (b.save_failure s w.state_file) [
  | none ↦ (ok tt, record w { state_file = saved s })
  | some failure ↦ (err failure.0, record w { state_file = failure.1 })
]

unfoldable pub incremental : Option OverlayState → ℕ → Bool
incremental none game_fingerprint = false
incremental (some s) game_fingerprint = supports_incremental s game_fingerprint

unfoldable pub clean_unless : Bool → World → World
clean_unless true w = w
clean_unless false w = clean_overlay_wads w

unfoldable pub clean_stale_if : Bool → Option OverlayState → TreeMap Text ℕ → World → World
clean_stale_if true (some s) new_fps w = clean_stale_wads s new_fps w
clean_stale_if true none new_fps w = w
clean_stale_if false prev_state new_fps w = w

module _ (b : OverlayBuilder) (g : GameIndex) where
  -- No enabled mods: the overlay is emptied.
  unfoldable pub build_empty : Build OverlayBuildResult
  build_empty = do
    modify clean_overlay_wads
    save b (State.new [] g.game_fingerprint (effective_blocked_wads b) [])
    pure (record { wads_built = []; wads_reused = [] })

  -- The exact match: nothing is written but the offenders that are restored.
  unfoldable pub build_skip : OverlayState → Build OverlayBuildResult
  build_skip s = do
    modify (λ w. record w { last_linked_bin_offenders = s.linked_bin_offenders })
    pure (record { wads_built = []; wads_reused = map from (keys s.wad_fingerprints) })

  -- `w.overlay` as the partition sees it.
  unfoldable pub partition_of : AllMeta → WadHashes → Option OverlayState → Bool → World → Partition
  partition_of m sets prev_state can_incremental w =
      partition_wads_from_meta b.externals.xxh3_64 (exists w) sets m.all_meta prev_state
        can_incremental

  unfoldable pub routing : AllMeta → WadHashes
  routing m = remove_blocked b.blocked_wads (distribute_override_hashes g m.all_meta)

  unfoldable pub build_wads :
      AllMeta → Option OverlayState → Bool → Partition → Build OverlayBuildResult
  build_wads m prev_state can_incremental p = do
    overrides ←
        lift (resolve_overrides_for_wads b.enabled_mods p.wads_to_build (routing m) m.all_meta)
    built ← patch_wads_parallel b.build_patched_wad p.wads_to_build overrides
    modify (clean_stale_if can_incremental prev_state p.new_wad_fingerprints)
    offenders ← gets (λ w. w.last_linked_bin_offenders)
    save b
        (record (State.new (mod_ids b.enabled_mods) g.game_fingerprint (effective_blocked_wads b)
          p.new_wad_fingerprints) { linked_bin_offenders = offenders })
    pure (record { wads_built = built; wads_reused = p.wads_to_reuse })

  -- `collect_all_override_metadata`, with the cache file and the reports that it leaves.
  unfoldable pub collect_meta : Build AllMeta
  collect_meta = do
    cache_file ← gets (λ w. w.cache_file)
    m ← lift (
        collect_all_override_metadata b.externals b.enabled_mods g b.game_dir b.content_hashes
          cache_file)
    modify (λ w. record w {
      cache_file = some m.saved_cache;
      last_mod_wad_reports = m.mod_wad_reports;
    })
    pure m

  -- From the choice of the strategy on, by whether the previous state supports it.
  unfoldable pub build_with : Option OverlayState → Bool → Build OverlayBuildResult
  unfolding clean_unless collect_meta build_wads
  build_with prev_state can_incremental = do
    modify (clean_unless can_incremental)
    m ← collect_meta
    modify (λ w. record w {
      last_linked_bin_offenders = collect_linked_bin_offenders b.externals m.all_meta (routing m) g;
    })
    p ← gets (partition_of m (routing m) prev_state can_incremental)
    build_wads m prev_state can_incremental p

  unfoldable pub build_changed : Option OverlayState → Build OverlayBuildResult
  unfolding incremental build_with
  build_changed prev_state = build_with prev_state (incremental prev_state g.game_fingerprint)

  -- Whether the saved state is that of this configuration and all its WADs are there.
  unfoldable pub is_exact_match : OverlayState → World → Bool
  is_exact_match s w =
      matches s (mod_ids b.enabled_mods) g.game_fingerprint (effective_blocked_wads b)
      && validate_wads_exist w s

  unfoldable pub build_from : Option OverlayState → Build OverlayBuildResult
  unfolding build_changed build_skip
  build_from none w = build_changed none w
  build_from (some s) w =
      let skip = build_skip s w in
      let changed = build_changed (some s) w in if is_exact_match s w then skip else changed

  unfoldable pub build_indexed : Build OverlayBuildResult
  unfolding build_empty build_from
  build_indexed w = elim (load w.state_file) [
    | err e ↦ (err e, w)
    | ok prev_state ↦ elim b.enabled_mods [
      | [] ↦ build_empty w
      | m ∷ mods ↦ build_from prev_state w
    ]
  ]

-- `build`
unfoldable pub build : OverlayBuilder → Build OverlayBuildResult
unfolding build_indexed
build b = do
  modify (λ w. record w { last_linked_bin_offenders = [] })
  if not b.has_data_final
      then (λ w. (err other, w))
      else do g ← lift b.game_index; build_indexed b g

-- `rebuild_all`: the state file goes, and the overlay is emptied, before the build.
unfoldable pub rebuild_all : OverlayBuilder → Build OverlayBuildResult
rebuild_all b = do
  modify (λ w. record w { state_file = absent })
  modify clean_overlay_wads
  build b
