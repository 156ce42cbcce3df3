-- ===== src/Overlay/World.antt =====
-- What a build reads and writes: the files in the overlay and state directories, and the results
-- that the builder keeps for `take_mod_wad_reports` and `take_linked_bin_offenders`. Creating a
-- directory and writing or deleting a file are taken to succeed, but that a WAD can fail to be
-- patched and the state to be saved.
use league_mod.Prelude.{ℕ, Bool, false, not, Option, List, [], ◌∷◌, text, ◌==◌, nat_ord, list_ord}
use league_mod.Prelude.Assoc.{contains_key, retain}
use league_mod.Prelude.HashMap.{HashMap, insert}
use league_mod.Prelude.Outcome.{Result, ok, err}
use league_mod.Overlay.FilePath.{FilePath}
use league_mod.Overlay.Types.{Error, LinkedBinOffender}
use league_mod.Overlay.State.{StateFile}
use league_mod.Overlay.MetaCache.{OverrideMetaCache}
use league_mod.Overlay.Report.{ModWadReport}

pub record World : Type 0 where
  -- `overlay.json`
  pub state_file : StateFile
  -- `override_meta.bin`, if it is there and deserializes
  pub cache_file : Option OverrideMetaCache
  -- the files below `overlay_root`, by their relative paths
  pub overlay : HashMap FilePath (List ℕ)
  pub last_mod_wad_reports : List ModWadReport
  pub last_linked_bin_offenders : List LinkedBinOffender

-- Methods that change the world and may fail; what was done before a failure stays done.
abbrev pub Build {ℓ} : Type ℓ → Type ℓ
Build A = World → Result Error A × World

abbrev pub pure {ℓ} : {A : Type ℓ} → A → Build A
pure a w = (ok a, w)

abbrev pub lift {ℓ} : {A : Type ℓ} → Result Error A → Build A
lift r w = (r, w)

abbrev pub gets {ℓ} : {A : Type ℓ} → (World → A) → Build A
gets f w = (ok (f w), w)

abbrev pub modify : (World → World) → Build (Unit {0})
modify f w = (ok tt, f w)

abbrev pub continue {ℓ} :
    {A B : Type ℓ} → Result Error A → (A → Build B) → World → Result Error B × World
continue (ok a) f w = f a w
continue (err e) f w = (err e, w)

infixl 5 ◌>>=◌ ◌>>◌
abbrev pub ◌>>=◌ {ℓ} : {A B : Type ℓ} → Build A → (A → Build B) → Build B
◌>>=◌ m f w = continue (m w).0 f (m w).1

abbrev pub ◌>>◌ : {A B : Type 0} → Build A → Build B → Build B
m >> k = m >>= λ _. k

unfoldable pub exists : World → FilePath → Bool
exists w path = contains_key path w.overlay

unfoldable pub write_wad : FilePath → List ℕ → World → World
write_wad path bytes w = record w { overlay = insert path bytes w.overlay }

-- Whether a path lies in `overlay_root/DATA`.
unfoldable pub in_data_dir : FilePath → Bool
in_data_dir [] = false
in_data_dir (c ∷ p) = c == text "DATA"

-- `clean_overlay_wads`: `remove_dir_all` of `DATA`.
unfoldable pub clean_overlay_wads : World → World
unfolding in_data_dir
clean_overlay_wads w = record w { overlay = retain (λ path _. not (in_data_dir path)) w.overlay }
