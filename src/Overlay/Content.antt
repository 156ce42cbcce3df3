-- ===== src/Overlay/Content.antt =====
-- What a mod answers: the trait `ModContentProvider` of crates/ltk_overlay/src/content.rs, as the
-- answers of its methods, and `EnabledMod` of builder/mod.rs. The methods take `&mut self` to read
-- archives; the model takes their answers not to change during a build.
use league_mod.Prelude.{
  ℕ, Bool, true, ◌||◌, Option, none, some, List, Text, text, ◌==◌, list_ord, nat_ord,
}
use league_mod.Prelude.Int.{ℤ}
use league_mod.Prelude.HashSet.{contains}
use league_mod.Prelude.Outcome.{Result}
use league_mod.Overlay.FilePath.{FilePath}
use league_mod.Overlay.Types.{Error}

-- `ModProjectLayer` of crates/ltk_mod_project: the fields that the builder reads.
pub record ModProjectLayer : Type 0 where
  pub name : Text
  pub priority : ℤ

pub record ModContentProvider : Type 0 where
  -- `mod_project()?.layers`
  pub layers : Result Error (List ModProjectLayer)
  pub list_layer_wads : Text → Result Error (List Text)
  pub read_wad_overrides : Text → Text → Result Error (List (FilePath × List ℕ))
  pub read_wad_override_file : Text → Text → FilePath → Result Error (List ℕ)
  pub read_raw_overrides : Result Error (List (FilePath × List ℕ))
  pub read_raw_override_file : FilePath → Result Error (List ℕ)
  pub content_fingerprint : Result Error (Option ℕ)

pub record EnabledMod : Type 0 where
  pub id : Text
  pub content : ModContentProvider
  pub enabled_layers : Option (List Text)

abbrev pub base_layer_name : Text
base_layer_name = text "base"

unfoldable pub is_layer_active : EnabledMod → Text → Bool
is_layer_active m layer_name = elim m.enabled_layers [
  | none ↦ true
  | some allowed ↦ layer_name == base_layer_name || contains layer_name allowed
]
