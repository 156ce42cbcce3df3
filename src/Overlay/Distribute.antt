-- ===== src/Overlay/Distribute.antt =====
-- Which WADs an override goes to: `distribute_override_hashes` of builder/resolve.rs and the test
-- for blocked WADs of builder/mod.rs. The counters that are only logged are left out.
pub mod Routes
pub mod WellFormed
use league_mod.Prelude.{ℕ, Bool, not, Option, none, some, List, [], ◌∷◌, Text, nat_ord, list_ord}
use league_mod.Prelude.Assoc.{get, retain}
use league_mod.Prelude.HashMap.{HashMap}
use league_mod.Prelude.HashSet
use league_mod.Prelude.HashSet.{contains}
use league_mod.Prelude.TreeMap.{TreeMap, insert}
use league_mod.Overlay.FilePath.{FilePath, file_name}
use league_mod.Overlay.Types.{OverrideMeta}
use league_mod.Overlay.GameIndex.{GameIndex, or_nil, find_wads_with_hash, to_ascii_lowercase}

abbrev pub WadHashes : Type 0
WadHashes = TreeMap FilePath (List ℕ)

-- `wad_hash_sets.entry(wad).or_default().insert(path_hash)`
pub add_hash : ℕ → FilePath → WadHashes → WadHashes
add_hash h wad sets = insert wad (HashSet.insert h (or_nil (get wad sets))) sets

pub add_to_all : ℕ → List FilePath → WadHashes → WadHashes
add_to_all h [] sets = sets
add_to_all h (wad ∷ wads) sets = add_to_all h wads (add_hash h wad sets)

pub add_fallback : ℕ → Option FilePath → WadHashes → WadHashes
add_fallback h none sets = sets
add_fallback h (some wad) sets = add_hash h wad sets

pub distribute_entry : GameIndex → ℕ → OverrideMeta → WadHashes → WadHashes
distribute_entry g h meta sets = elim (find_wads_with_hash g h) [
  | some wads ↦ add_to_all h wads sets
  | none ↦ add_fallback h meta.fallback_wad sets
]

pub distribute_from : GameIndex → HashMap ℕ OverrideMeta → WadHashes → WadHashes
distribute_from g [] sets = sets
distribute_from g ((h, meta) ∷ all_meta) sets =
    distribute_from g all_meta (distribute_entry g h meta sets)

unfoldable pub distribute_override_hashes : GameIndex → HashMap ℕ OverrideMeta → WadHashes
unfolding add_hash add_to_all add_fallback distribute_entry distribute_from
distribute_override_hashes g all_meta = distribute_from g all_meta []

abbrev pub or_empty : Option Text → Text
or_empty none = []
or_empty (some s) = s

unfoldable pub is_wad_blocked : List Text → FilePath → Bool
is_wad_blocked blocked_wads wad =
    contains (to_ascii_lowercase (or_empty (file_name wad))) blocked_wads

unfoldable pub remove_blocked : List Text → WadHashes → WadHashes
remove_blocked blocked_wads = retain (λ wad _. not (is_wad_blocked blocked_wads wad))
