-- ===== src/Overlay/Report.antt =====
-- `ModWadReport::from_meta` of crates/ltk_overlay/src/builder/mod.rs: which WADs a mod touches.
pub mod Counts
use league_mod.Prelude.{
  ℕ, ◌+◌, ◌%◌, ◌^◌, Option, none, some, List, [], ◌∷◌, Text, length, nat_ord, list_ord,
}
use league_mod.Prelude.Assoc.{get}
use league_mod.Prelude.TreeMap.{TreeMap, insert}
use league_mod.Overlay.FilePath.{FilePath, as_str}
use league_mod.Overlay.Types.{OverrideMeta}
use league_mod.Overlay.GameIndex.{GameIndex, or_zero, find_wads_with_hash}
use league_mod.Overlay.Collect.{ModMeta}

pub record AffectedWad : Type 0 where
  pub path : Text
  pub override_count : ℕ

pub record ModWadReport : Type 0 where
  pub mod_id : Text
  pub affected_wads : List AffectedWad
  pub override_count : ℕ
  pub content_fingerprint : Option ℕ
  pub game_index_fingerprint : ℕ

-- `*counts.entry(wad).or_insert(0) += 1`, on a `u32`
count_wad : FilePath → TreeMap FilePath ℕ → TreeMap FilePath ℕ
count_wad wad counts = insert wad ((or_zero (get wad counts) + 1) % 2 ^ 32) counts

count_wads : List FilePath → TreeMap FilePath ℕ → TreeMap FilePath ℕ
count_wads [] counts = counts
count_wads (wad ∷ wads) counts = count_wads wads (count_wad wad counts)

count_fallback : Option FilePath → TreeMap FilePath ℕ → TreeMap FilePath ℕ
count_fallback none counts = counts
count_fallback (some wad) counts = count_wad wad counts

count_entry : GameIndex → ℕ → OverrideMeta → TreeMap FilePath ℕ → TreeMap FilePath ℕ
count_entry g h meta counts = elim (find_wads_with_hash g h) [
  | some wads ↦ count_wads wads counts
  | none ↦ count_fallback meta.fallback_wad counts
]

count_entries : GameIndex → ModMeta → TreeMap FilePath ℕ → TreeMap FilePath ℕ
count_entries g [] counts = counts
count_entries g ((h, meta) ∷ mod_meta) counts =
    count_entries g mod_meta (count_entry g h meta counts)

affected : TreeMap FilePath ℕ → List AffectedWad
affected [] = []
affected ((wad, n) ∷ counts) = record { path = as_str wad; override_count = n } ∷ affected counts

unfoldable pub from_meta : Text → ModMeta → Option ℕ → GameIndex → ModWadReport
unfolding count_wad count_wads count_fallback count_entry count_entries affected
from_meta mod_id mod_meta content_fingerprint g = record {
  mod_id = mod_id;
  affected_wads = affected (count_entries g mod_meta []);
  override_count = length mod_meta % 2 ^ 32;
  content_fingerprint = content_fingerprint;
  game_index_fingerprint = g.game_fingerprint;
}
