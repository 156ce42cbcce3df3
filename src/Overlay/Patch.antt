-- ===== src/Overlay/Patch.antt =====
-- `patch_wads_parallel` of crates/ltk_overlay/src/builder/resolve.rs. The tasks write different
-- files; the model runs them in the order of the list, and none after a failure (of the tasks that
-- rayon has started by then, some may still run). Progress reports are left out.
pub mod Done
use league_mod.Prelude.{ℕ, Option, none, some, List, [], ◌∷◌, ◌++◌, nat_ord, list_ord}
use league_mod.Prelude.Assoc.{get, remove}
use league_mod.Prelude.TreeMap.{TreeMap}
use league_mod.Prelude.Outcome.{ok, err}
use league_mod.Overlay.FilePath.{FilePath}
use league_mod.Overlay.Types.{Error}
use league_mod.Overlay.GameIndex.{or_nil}
use league_mod.Overlay.Resolve.{Overrides}
use league_mod.Overlay.World.{World, Build, write_wad}

-- What `build_patched_wad` leaves at the destination: the whole WAD, or a failure with what was
-- written by then, if the file was created.
pub data Patched : Type 0 where
  done : List ℕ → Patched
  failed : Option (List ℕ) → Error → Patched

-- Each WAD with its overrides; `wad_overrides.remove(&path).unwrap_or_default()`.
unfoldable pub per_wad_work :
    List FilePath → TreeMap FilePath Overrides → List (FilePath × Overrides)
per_wad_work [] overrides = []
per_wad_work (path ∷ paths) overrides =
    (path, or_nil (get path overrides)) ∷ per_wad_work paths (remove path overrides)

unfoldable pub write_some : FilePath → Option (List ℕ) → World → World
write_some path none w = w
write_some path (some bytes) w = write_wad path bytes w

module _ (build_patched_wad : FilePath → Overrides → Patched) where
  unfoldable pub patch_all : List (FilePath × Overrides) → List FilePath → Build (List FilePath)
  unfolding write_some
  patch_all [] built w = (ok built, w)
  patch_all ((path, overrides) ∷ work) built w = elim (build_patched_wad path overrides) [
    | done bytes ↦ patch_all work (built ++ (path ∷ [])) (write_wad path bytes w)
    | failed left e ↦ (err e, write_some path left w)
  ]

  unfoldable pub patch_wads_parallel :
      List FilePath → TreeMap FilePath Overrides → Build (List FilePath)
  unfolding per_wad_work patch_all
  patch_wads_parallel wads_to_build overrides = patch_all (per_wad_work wads_to_build overrides) []
