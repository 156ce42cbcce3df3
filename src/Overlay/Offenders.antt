-- ===== src/Overlay/Offenders.antt =====
-- `collect_linked_bin_offenders` of crates/ltk_overlay/src/linked_bins.rs: the mods with bins whose
-- linked files are neither in the original WAD nor among the overrides that go to it.
pub mod Exact
use league_mod.Prelude.{
  ℕ, Bool, ◌||◌, Option, none, some, List, [], ◌∷◌, Text, Ordering, if◌then◌else◌, cmp_list,
  nat_ord, list_ord,
}
use league_mod.Prelude.Assoc.{get}
use league_mod.Prelude.HashMap.{HashMap, insert}
use league_mod.Prelude.HashSet.{contains}
use league_mod.Prelude.Outcome.{ok, err}
use league_mod.Overlay.FilePath.{FilePath, file_name, from}
use league_mod.Overlay.Types.{OverrideMeta, LinkedBinOffender, mod_id}
use league_mod.Overlay.Externals.{Externals}
use league_mod.Overlay.ChunkHash.{resolve_chunk_hash}
use league_mod.Overlay.GameIndex.{GameIndex, or_nil, find_wads_with_hash}
use league_mod.Overlay.Distribute.{WadHashes}
use league_mod.Overlay.Sorted.{insert_sorted}

abbrev ByMod : Type 0
ByMod = HashMap Text (List Text × List Text)

or_none : Option (List Text × List Text) → List Text × List Text
or_none none = ([], [])
or_none (some entry) = entry

add_name : Option Text → List Text → List Text
add_name none wads = wads
add_name (some name) wads = insert_sorted name wads

record_missing : Text → FilePath → Text → ByMod → ByMod
record_missing id wad link by_mod =
    let (wads, links) = or_none (get id by_mod) in
    insert id (add_name (file_name wad) wads, insert_sorted link links) by_mod

-- Whether a link is found in the overlay WAD: among its overrides, or in the original.
unfoldable pub is_present : GameIndex → FilePath → List ℕ → ℕ → Bool
is_present g wad override_hashes link_hash =
    contains link_hash override_hashes || contains wad (or_nil (find_wads_with_hash g link_hash))

module _ (e : Externals) (g : GameIndex) where
  check_link : FilePath → List ℕ → Text → Text → ByMod → ByMod
  check_link wad override_hashes id link by_mod = elim (resolve_chunk_hash e (from link)) [
    | err _ ↦ by_mod
    | ok link_hash ↦
        if is_present g wad override_hashes link_hash
        then by_mod
        else record_missing id wad link by_mod
  ]

  check_links : FilePath → List ℕ → Text → List Text → ByMod → ByMod
  check_links wad override_hashes id [] by_mod = by_mod
  check_links wad override_hashes id (link ∷ links) by_mod =
      check_links wad override_hashes id links (check_link wad override_hashes id link by_mod)

  check_override : HashMap ℕ OverrideMeta → FilePath → List ℕ → ℕ → ByMod → ByMod
  check_override all_meta wad override_hashes h by_mod = elim (get h all_meta) [
    | none ↦ by_mod
    | some meta ↦ check_links wad override_hashes (mod_id meta.source) meta.linked_bins by_mod
  ]

  -- The hashes of one WAD that are still to be checked, out of all its hashes.
  check_hashes : HashMap ℕ OverrideMeta → FilePath → List ℕ → List ℕ → ByMod → ByMod
  check_hashes all_meta wad override_hashes [] by_mod = by_mod
  check_hashes all_meta wad override_hashes (h ∷ hs) by_mod =
      check_hashes all_meta wad override_hashes hs
        (check_override all_meta wad override_hashes h by_mod)

  check_wads : HashMap ℕ OverrideMeta → WadHashes → ByMod → ByMod
  check_wads all_meta [] by_mod = by_mod
  check_wads all_meta ((wad, hs) ∷ sets) by_mod =
      check_wads all_meta sets (check_hashes all_meta wad hs hs by_mod)

insert_offender : LinkedBinOffender → List LinkedBinOffender → List LinkedBinOffender
insert_offender a [] = a ∷ []
insert_offender a (b ∷ offenders) =
    let rest = insert_offender a offenders in
    elim (cmp_list a.mod_id b.mod_id) [ Ordering.gt ↦ b ∷ rest | _ ↦ a ∷ b ∷ offenders ]

offenders_of : ByMod → List LinkedBinOffender
offenders_of [] = []
offenders_of ((id, (wads, links)) ∷ by_mod) =
    insert_offender (record { mod_id = id; wads = wads; missing_links = links })
      (offenders_of by_mod)

unfoldable pub collect_linked_bin_offenders :
    Externals → HashMap ℕ OverrideMeta → WadHashes → GameIndex → List LinkedBinOffender
unfolding or_none add_name record_missing is_present check_link check_links check_override
    check_hashes check_wads insert_offender offenders_of
collect_linked_bin_offenders e all_meta sets g = offenders_of (check_wads e g all_meta sets [])
