-- ===== src/Overlay/GameIndex.antt =====
-- crates/ltk_overlay/src/game_index.rs: the lookups of the game index.
pub mod BestMatch
use league_mod.Prelude.{
  ℕ, ◌+◌, ◌≡◌, Bool, Option, none, some, List, [], ◌∷◌, Text, Ordering, compare, length, leb,
  if◌then◌else◌, ◌&&◌, map, or_else, nat_ord, list_ord, cmp_list,
}
use league_mod.Prelude.Assoc.{get}
use league_mod.Prelude.HashMap.{HashMap, insert}
use league_mod.Prelude.Outcome.{Result, ok, err}
use league_mod.Overlay.FilePath.{FilePath}
use league_mod.Overlay.Types.{Error, wad_not_found, ambiguous_wad}

pub record GameIndex : Type 0 where
  pub wad_index : HashMap Text (List FilePath)
  pub hash_index : HashMap ℕ (List FilePath)
  pub game_fingerprint : ℕ
  pub subchunktoc_blocked : List ℕ

abbrev ascii_lower : ℕ → ℕ
ascii_lower b = if leb b'A' b && leb b b'Z' then b + 32 else b

-- `str::to_ascii_lowercase`
unfoldable pub to_ascii_lowercase : Text → Text
to_ascii_lowercase s = map ascii_lower s

sole_candidate : Text → List FilePath → Result Error FilePath
sole_candidate filename (p ∷ []) = ok p
sole_candidate filename candidates = err (ambiguous_wad filename (length candidates))

found_wad : Text → Option (List FilePath) → Result Error FilePath
found_wad filename none = err (wad_not_found filename)
found_wad filename (some candidates) = sole_candidate filename candidates

unfoldable pub find_wad : GameIndex → Text → Result Error FilePath
unfolding found_wad sole_candidate to_ascii_lowercase
find_wad g filename = found_wad filename (get (to_ascii_lowercase filename) g.wad_index)

unfoldable pub find_wads_with_hash : GameIndex → ℕ → Option (List FilePath)
find_wads_with_hash g path_hash = get path_hash g.hash_index

abbrev pub or_zero : Option ℕ → ℕ
or_zero none = 0
or_zero (some n) = n

-- `*counts.entry(wad).or_insert(0) += 1`
pub bump : FilePath → HashMap FilePath ℕ → HashMap FilePath ℕ
bump wad counts = insert wad (or_zero (get wad counts) + 1) counts

pub bump_all : List FilePath → HashMap FilePath ℕ → HashMap FilePath ℕ
bump_all [] counts = counts
bump_all (wad ∷ wads) counts = bump_all wads (bump wad counts)

abbrev pub or_nil {ℓ} : {A : Type ℓ} → Option (List A) → List A
or_nil none = []
or_nil (some l) = l

pub count_overlaps : GameIndex → List ℕ → HashMap FilePath ℕ → HashMap FilePath ℕ
count_overlaps g [] counts = counts
count_overlaps g (h ∷ hs) counts =
    count_overlaps g hs (bump_all (or_nil (get h g.hash_index)) counts)

-- By count, and by the smaller path where counts are equal.
pub cmp_overlap : FilePath × ℕ → FilePath × ℕ → Ordering
cmp_overlap (path_a, count_a) (path_b, count_b) =
    or_else (compare count_a count_b) (cmp_list path_b path_a)

-- The later of two entries, unless the earlier is greater.
pub later : FilePath × ℕ → FilePath × ℕ → FilePath × ℕ
unfolding cmp_overlap
later a b = elim (cmp_overlap a b) [ Ordering.gt ↦ a | _ ↦ b ]

-- `Iterator::max_by`
pub max_from : FilePath × ℕ → HashMap FilePath ℕ → FilePath × ℕ
max_from a [] = a
max_from a (b ∷ counts) = max_from (later a b) counts

pub max_by : HashMap FilePath ℕ → Option FilePath
max_by [] = none
max_by (a ∷ counts) = some (max_from a counts).0

unfoldable pub find_best_matching_wad : GameIndex → List ℕ → Option FilePath
unfolding bump bump_all count_overlaps later max_from max_by insert
find_best_matching_wad g chunk_hashes = max_by (count_overlaps g chunk_hashes [])
