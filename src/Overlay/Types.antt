-- ===== src/Overlay/Types.antt =====
-- The data of crates/ltk_overlay: error.rs, the override records of builder/mod.rs and the offenders
-- of linked_bins.rs.
use league_mod.Prelude.{ℕ, Option, List, Text}
use league_mod.Overlay.FilePath.{FilePath}

-- error.rs. What an error of another crate carries is not modelled.
pub data Error : Type 0 where
  io : Error
  json : Error
  wad_error : Error
  wad_builder_error : Error
  invalid_game_dir : Error
  wad_not_found : Text → Error
  ambiguous_wad : Text → ℕ → Error
  invalid_mod_dir : FilePath → Error
  invalid_mod_config : Error
  validation_failed : Error
  compression : Error
  other : Error

-- Where the bytes of an override come from.
pub data OverrideSource : Type 0 where
  layer_wad : Text → Text → Text → FilePath → OverrideSource
  raw : Text → FilePath → OverrideSource

unfoldable pub mod_id : OverrideSource → Text
mod_id (layer_wad id layer wad_name rel_path) = id
mod_id (raw id rel_path) = id

pub record OverrideMeta : Type 0 where
  pub content_hash : ℕ
  pub uncompressed_size : ℕ
  pub source : OverrideSource
  pub fallback_wad : Option FilePath
  pub linked_bins : List Text

pub record LinkedBinOffender : Type 0 where
  pub mod_id : Text
  pub wads : List Text
  pub missing_links : List Text
