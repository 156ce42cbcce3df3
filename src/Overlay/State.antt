-- ===== src/Overlay/State.antt =====
-- crates/ltk_overlay/src/state.rs: what a build leaves in `overlay.json`. The JSON text is serde's;
-- the file is modelled by what reading it gives.
use league_mod.Prelude.{ℕ, Bool, ◌&&◌, Option, none, some, List, [], Text, ◌==◌, nat_ord, list_ord}
use league_mod.Prelude.Assoc.{get}
use league_mod.Prelude.TreeMap.{TreeMap}
use league_mod.Prelude.Outcome.{Result, ok, err}
use league_mod.Overlay.Types.{Error, LinkedBinOffender}

abbrev pub current_version : ℕ
current_version = 4

pub record OverlayState : Type 0 where
  pub version : ℕ
  pub enabled_mods : List Text
  pub game_fingerprint : ℕ
  pub blocked_wads : List Text
  pub wad_fingerprints : TreeMap Text ℕ
  pub linked_bin_offenders : List LinkedBinOffender

unfoldable pub new : List Text → ℕ → List Text → TreeMap Text ℕ → OverlayState
new enabled_mods game_fingerprint blocked_wads wad_fingerprints = record {
  version = current_version;
  enabled_mods = enabled_mods;
  game_fingerprint = game_fingerprint;
  blocked_wads = blocked_wads;
  wad_fingerprints = wad_fingerprints;
  linked_bin_offenders = [];
}

-- The file `overlay.json`: not there, there but not to be read or parsed, or a state.
pub data StateFile : Type 0 where
  absent : StateFile
  unreadable : Error → StateFile
  saved : OverlayState → StateFile

unfoldable pub load : StateFile → Result Error (Option OverlayState)
load absent = ok none
load (unreadable e) = err e
load (saved s) = ok (some s)

unfoldable pub matches : OverlayState → List Text → ℕ → List Text → Bool
matches s enabled_mod_ids game_fingerprint blocked_wads =
    s.version == current_version
    && s.enabled_mods == enabled_mod_ids
    && s.game_fingerprint == game_fingerprint
    && s.blocked_wads == blocked_wads

unfoldable pub supports_incremental : OverlayState → ℕ → Bool
supports_incremental s game_fingerprint =
    s.version == current_version && s.game_fingerprint == game_fingerprint

unfoldable pub wad_fingerprint : OverlayState → Text → Option ℕ
wad_fingerprint s wad_relative_path = get wad_relative_path s.wad_fingerprints
