-- ===== src/Overlay/Offenders/Exact.antt =====
-- Which links `collect_linked_bin_offenders` (crates/ltk_overlay/src/linked_bins.rs) reports.
use league_mod.Prelude.{
  ℕ, ◌≡◌, refl, ◌∙◌, Bool, false, ◌||◌, ◌&&◌, not, Option, none, some, List, [], ◌∷◌, Text, arith,
  if◌then◌else◌, ◌==◌, eq_iff, nat_ord, list_ord,
}
use league_mod.Prelude.Order.{list_eq}
use league_mod.Prelude.Assoc.{get}
use league_mod.Prelude.HashMap.{HashMap, insert}
use league_mod.Prelude.HashSet.{contains}
use league_mod.Prelude.Outcome.{Result, ok, err}
use league_mod.Overlay.FilePath.{FilePath, from}
use league_mod.Overlay.Types.{Error, OverrideMeta, LinkedBinOffender, mod_id}
use league_mod.Overlay.Externals.{Externals}
use league_mod.Overlay.ChunkHash.{resolve_chunk_hash}
use league_mod.Overlay.GameIndex.{GameIndex, find_wads_with_hash}
use league_mod.Overlay.Distribute.{WadHashes}
use league_mod.Overlay.Sorted.{insert_sorted}
use league_mod.Overlay.Offenders.{
  ByMod, or_none, record_missing, is_present, check_link, check_links, check_override, check_hashes,
  check_wads, insert_offender, offenders_of, collect_linked_bin_offenders,
}

-- Whether a link is reported as missing for a mod.
abbrev pub is_reported : Text → Text → List LinkedBinOffender → Bool
is_reported id link [] = false
is_reported id link (o ∷ offenders) =
    ((o.mod_id == id) && contains link o.missing_links) || is_reported id link offenders

-- The same of the map from mods to links.
abbrev is_recorded : Text → Text → ByMod → Bool
is_recorded id link [] = false
is_recorded id link ((k, (wads, links)) ∷ by_mod) =
    ((k == id) && contains link links) || is_recorded id link by_mod

contains-insert_sorted :
    (t u : Text) (ts : List Text) → contains u (insert_sorted t ts) ≡ contains u ts || (t == u)
unfolding insert_sorted
contains-insert_sorted t u [] = ground arith
contains-insert_sorted t u (v ∷ ts) =
    ground (arith, list_eq t v, eq_iff t u, eq_iff v u, contains-insert_sorted t u ts)

is_recorded-insert :
    (k id link l : Text) (wads : List Text) (m : ByMod)
    → is_recorded id l (insert k (wads, insert_sorted link ((or_none (get k m)).1)) m)
      ≡ is_recorded id l m || ((k == id) && (link == l))
unfolding insert or_none
is_recorded-insert k id link l wads [] = ground (arith, contains-insert_sorted link l [])
is_recorded-insert k id link l wads ((j, (ws, ls)) ∷ m) =
    ground
      (arith, eq_iff j k, contains-insert_sorted link l ls, is_recorded-insert k id link l wads m)

is_recorded-record_missing :
    (k id link l : Text) (wad : FilePath) (m : ByMod)
    → is_recorded id l (record_missing k wad link m)
      ≡ is_recorded id l m || ((k == id) && (link == l))
unfolding record_missing
is_recorded-record_missing k id link l wad m = is_recorded-insert k id link l _ m

is_reported-insert_offender :
    (id link : Text) (o : LinkedBinOffender) (offenders : List LinkedBinOffender)
    → is_reported id link (insert_offender o offenders)
      ≡ ((o.mod_id == id) && contains link o.missing_links) || is_reported id link offenders
unfolding insert_offender
is_reported-insert_offender id link o [] = refl
is_reported-insert_offender id link o (p ∷ offenders) =
    ground (arith, is_reported-insert_offender id link o offenders)

is_reported-offenders_of :
    (id link : Text) (m : ByMod) → is_reported id link (offenders_of m) ≡ is_recorded id link m
unfolding offenders_of
is_reported-offenders_of id link [] = refl
is_reported-offenders_of id link ((k, (ws, ls)) ∷ m) =
    is_reported-insert_offender id link _ (offenders_of m)
    ∙ ground (arith, is_reported-offenders_of id link m)

module _ (e : Externals) (g : GameIndex) (all_meta : HashMap ℕ OverrideMeta) (id l : Text) where
  -- Whether the game index has the chunk hash in the WAD.
  abbrev in_original : FilePath → Option (List FilePath) → Bool
  in_original wad none = false
  in_original wad (some wads) = contains wad wads

  -- Whether a link is found neither among the overrides of a WAD nor in the original WAD. A link
  -- that does not resolve is not said to be missing.
  abbrev not_found : FilePath → List ℕ → Result Error ℕ → Bool
  not_found wad override_hashes (err _) = false
  not_found wad override_hashes (ok link_hash) =
      not (contains link_hash override_hashes) && not (in_original wad (get link_hash g.hash_index))

  abbrev links_missing : FilePath → List ℕ → List Text → Bool
  links_missing wad override_hashes [] = false
  links_missing wad override_hashes (link ∷ links) =
      ((link == l) && not_found wad override_hashes (resolve_chunk_hash e (from link)))
      || links_missing wad override_hashes links

  -- Whether an override is of the mod and has the link, which its WAD lacks.
  abbrev override_missing : FilePath → List ℕ → Option OverrideMeta → Bool
  override_missing wad override_hashes none = false
  override_missing wad override_hashes (some meta) =
      (mod_id meta.source == id) && links_missing wad override_hashes meta.linked_bins

  abbrev hashes_missing : FilePath → List ℕ → List ℕ → Bool
  hashes_missing wad override_hashes [] = false
  hashes_missing wad override_hashes (h ∷ hs) =
      override_missing wad override_hashes (get h all_meta) || hashes_missing wad override_hashes hs

  -- Whether some WAD lacks the link of an override of the mod that goes to it.
  abbrev pub is_missing : WadHashes → Bool
  is_missing [] = false
  is_missing ((wad, hs) ∷ sets) = hashes_missing wad hs hs || is_missing sets

  recorded-link :
      (wad : FilePath) (hs : List ℕ) (k link : Text) (found : Result Error ℕ) (m : ByMod)
      → is_recorded id l (elim found [
        | err _ ↦ m
        | ok link_hash ↦ if is_present g wad hs link_hash then m else record_missing k wad link m
      ])
        ≡ is_recorded id l m || ((k == id) && ((link == l) && not_found wad hs found))
  unfolding is_present find_wads_with_hash
  recorded-link wad hs k link (err x) m = ground arith
  recorded-link wad hs k link (ok h) m =
      ground (arith, is_recorded-record_missing k id link l wad m)

  recorded-links :
      (wad : FilePath) (hs : List ℕ) (k : Text) (links : List Text) (m : ByMod)
      → is_recorded id l (check_links e g wad hs k links m)
        ≡ is_recorded id l m || ((k == id) && links_missing wad hs links)
  unfolding check_links check_link
  recorded-links wad hs k [] m = ground arith
  recorded-links wad hs k (link ∷ links) m =
      recorded-links wad hs k links _
      ∙ ground (arith, recorded-link wad hs k link (resolve_chunk_hash e (from link)) m)

  recorded-override :
      (wad : FilePath) (hs : List ℕ) (found : Option OverrideMeta) (m : ByMod)
      → is_recorded id l (elim found [
        | none ↦ m
        | some meta ↦ check_links e g wad hs (mod_id meta.source) meta.linked_bins m
      ])
        ≡ is_recorded id l m || override_missing wad hs found
  recorded-override wad hs none m = ground arith
  recorded-override wad hs (some meta) m =
      recorded-links wad hs (mod_id meta.source) meta.linked_bins m

  recorded-hashes :
      (wad : FilePath) (hs todo : List ℕ) (m : ByMod)
      → is_recorded id l (check_hashes e g all_meta wad hs todo m)
        ≡ is_recorded id l m || hashes_missing wad hs todo
  unfolding check_hashes check_override
  recorded-hashes wad hs [] m = ground arith
  recorded-hashes wad hs (h ∷ todo) m =
      recorded-hashes wad hs todo _ ∙ ground (arith, recorded-override wad hs (get h all_meta) m)

  recorded-wads :
      (sets : WadHashes) (m : ByMod)
      → is_recorded id l (check_wads e g all_meta sets m) ≡ is_recorded id l m || is_missing sets
  unfolding check_wads
  recorded-wads [] m = ground arith
  recorded-wads ((wad, hs) ∷ sets) m =
      recorded-wads sets _ ∙ ground (arith, recorded-hashes wad hs hs m)

  -- A link is reported as missing for a mod exactly if some WAD of the routing has a hash whose
  -- metadata is of this mod and lists the link, and the link resolves to a chunk hash that is
  -- neither among the hashes of that WAD nor, by the game index, in the WAD itself.
  pub offenders_exact :
      (sets : WadHashes)
      → is_reported id l (collect_linked_bin_offenders e all_meta sets g) ≡ is_missing sets
  unfolding collect_linked_bin_offenders
  offenders_exact sets = is_reported-offenders_of id l _ ∙ recorded-wads sets []
