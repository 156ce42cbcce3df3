-- ===== src/Overlay/Partition.antt =====
-- `partition_wads_from_meta` of builder/resolve.rs: which WADs are rebuilt and which are reused.
-- `on_disk` says whether `overlay_root.join(wad)` exists; `xxh3_64` is a parameter.
pub mod Keys
pub mod Exact
pub mod Once
use league_mod.Prelude.{
  ℕ, Bool, false, ◌&&◌, Option, none, some, List, [], ◌∷◌, ◌++◌, Text, if◌then◌else◌, ◌==◌, nat_ord,
  list_ord,
}
use league_mod.Prelude.HashMap.{HashMap}
use league_mod.Prelude.TreeMap.{TreeMap, insert}
use league_mod.Overlay.FilePath.{FilePath, as_str, from}
use league_mod.Overlay.Types.{OverrideMeta}
use league_mod.Overlay.State.{OverlayState, wad_fingerprint}
use league_mod.Overlay.Fingerprint.{compute_wad_fingerprint_from_meta}
use league_mod.Overlay.Distribute.{WadHashes}

pub record Partition : Type 0 where
  pub wads_to_build : List FilePath
  pub wads_to_reuse : List FilePath
  pub new_wad_fingerprints : TreeMap Text ℕ

module _ (xxh3_64 : List ℕ → ℕ) where
  -- `collect` into a `BTreeMap`: the entries are inserted in turn.
  unfoldable pub collect_fingerprints :
      WadHashes → HashMap ℕ OverrideMeta → TreeMap Text ℕ → TreeMap Text ℕ
  collect_fingerprints [] all_meta fps = fps
  collect_fingerprints ((wad, hashes) ∷ sets) all_meta fps =
      collect_fingerprints sets all_meta
        (insert (as_str wad) (compute_wad_fingerprint_from_meta xxh3_64 hashes all_meta) fps)

abbrev same_fingerprint : Option ℕ → ℕ → Bool
same_fingerprint none new_fp = false
same_fingerprint (some old_fp) new_fp = old_fp == new_fp

module _ (on_disk : FilePath → Bool) (prev_state : Option OverlayState)
    (can_incremental : Bool) where
  abbrev recorded : Text → Option OverlayState → Option ℕ
  recorded wad none = none
  recorded wad (some s) = wad_fingerprint s wad

  -- The three nested tests of the loop.
  unfoldable pub is_reusable : Text → ℕ → Bool
  is_reusable wad new_fp =
      can_incremental && (same_fingerprint (recorded wad prev_state) new_fp && on_disk (from wad))

  -- The loop over the new fingerprints, with the WADs pushed so far.
  unfoldable pub choose :
      TreeMap Text ℕ → List FilePath → List FilePath → List FilePath × List FilePath
  unfolding is_reusable
  choose [] build reuse = (build, reuse)
  choose ((wad, new_fp) ∷ fps) build reuse =
      let again = choose fps build (reuse ++ (from wad ∷ [])) in
      let fresh = choose fps (build ++ (from wad ∷ [])) reuse in
      if is_reusable wad new_fp then again else fresh

unfoldable pub partition_wads_from_meta :
    (List ℕ → ℕ)
    → (FilePath → Bool)
    → WadHashes
    → HashMap ℕ OverrideMeta
    → Option OverlayState
    → Bool
    → Partition
unfolding collect_fingerprints choose
partition_wads_from_meta xxh3_64 on_disk sets all_meta prev_state can_incremental =
    let fps = collect_fingerprints xxh3_64 sets all_meta [] in
    let (build, reuse) = choose on_disk prev_state can_incremental fps [] [] in
    record { wads_to_build = build; wads_to_reuse = reuse; new_wad_fingerprints = fps }
