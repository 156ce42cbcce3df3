-- ===== src/Overlay/Merge.antt =====
-- Pass 1 of a build for all mods, crates/ltk_overlay/src/builder/metadata.rs: the merge of the mods'
-- metadata and the filter for what must not or need not be written.
pub mod Priority
pub mod Filter
pub mod Sound
use league_mod.Prelude.{ℕ, Bool, false, not, none, some, List, [], ◌∷◌, ◌==◌, nat_ord, reverse}
use league_mod.Prelude.Assoc.{get, keys, retain}
use league_mod.Prelude.HashMap.{HashMap, insert}
use league_mod.Prelude.HashSet.{contains}
use league_mod.Overlay.Types.{OverrideMeta}
use league_mod.Overlay.GameIndex.{GameIndex}
use league_mod.Overlay.Collect.{ModMeta}

-- `for (hash, meta) in mod_meta { all_meta.insert(hash, meta); }`
unfoldable pub insert_all : ModMeta → ModMeta → ModMeta
insert_all [] all_meta = all_meta
insert_all ((h, meta) ∷ mod_meta) all_meta = insert_all mod_meta (insert h meta all_meta)

unfoldable pub merge_from : List ModMeta → ModMeta → ModMeta
merge_from [] all_meta = all_meta
merge_from (mod_meta ∷ results) all_meta = merge_from results (insert_all mod_meta all_meta)

-- The mods in reverse order, so that the first one is written last.
unfoldable pub merge_mods : List ModMeta → ModMeta
unfolding merge_from insert_all
merge_mods per_mod_results = merge_from (reverse per_mod_results) []

-- Whether the game's chunk, if it could be read, has the same content.
unfoldable pub is_lazy : HashMap ℕ ℕ → ℕ → OverrideMeta → Bool
is_lazy content_hashes h meta = elim (get h content_hashes) [
  | none ↦ false
  | some original_hash ↦ meta.content_hash == original_hash
]

-- `content_hashes` answers `compute_content_hashes_batch` for the hashes that are left.
unfoldable pub filter_override_metadata : GameIndex → (List ℕ → HashMap ℕ ℕ) → ModMeta → ModMeta
unfolding is_lazy
filter_override_metadata g content_hashes all_meta =
    let kept = retain (λ h _. not (contains h g.subchunktoc_blocked)) all_meta in
    retain (λ h meta. not (is_lazy (content_hashes (keys kept)) h meta)) kept
