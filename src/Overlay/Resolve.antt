-- ===== src/Overlay/Resolve.antt =====
-- Pass 2 of a build, `resolve_overrides_for_wads` of crates/ltk_overlay/src/builder/resolve.rs: the
-- bytes of the overrides of the WADs that are rebuilt. A hash map is iterated in its list's order.
pub mod Contents
pub mod FindMod
pub mod Complete
pub mod Exact
use league_mod.Prelude.{
  ℕ, suc, Option, none, some, List, [], ◌∷◌, ◌++◌, Text, get_elem?, nat_ord, list_ord,
}
use league_mod.Prelude.Assoc.{get}
use league_mod.Prelude.HashMap.{HashMap, insert}
use league_mod.Prelude.HashSet
use league_mod.Prelude.TreeMap
use league_mod.Prelude.TreeMap.{TreeMap}
use league_mod.Prelude.Outcome.{Result, ok, err, ◌>>=◌}
use league_mod.Overlay.FilePath.{FilePath}
use league_mod.Overlay.Types.{Error, other, OverrideMeta, OverrideSource, layer_wad, raw, mod_id}
use league_mod.Overlay.GameIndex.{or_nil}
use league_mod.Overlay.Distribute.{WadHashes}
use league_mod.Overlay.Content.{ModContentProvider, EnabledMod}

abbrev pub Overrides : Type 0
Overrides = HashMap ℕ (List ℕ)

unfoldable pub add_hashes : List ℕ → List ℕ → List ℕ
add_hashes [] needed = needed
add_hashes (h ∷ hs) needed = add_hashes hs (HashSet.insert h needed)

unfoldable pub needed_hashes : WadHashes → List FilePath → List ℕ → List ℕ
unfolding add_hashes
needed_hashes sets [] needed = needed
needed_hashes sets (wad ∷ wads) needed =
    needed_hashes sets wads (add_hashes (or_nil (get wad sets)) needed)

unfoldable pub group_hash :
    HashMap ℕ OverrideMeta → ℕ → HashMap Text (List ℕ) → HashMap Text (List ℕ)
group_hash all_meta h by_mod = elim (get h all_meta) [
  | none ↦ by_mod
  | some meta ↦
      insert (mod_id meta.source) (or_nil (get (mod_id meta.source) by_mod) ++ (h ∷ [])) by_mod
]

unfoldable pub group_by_mod :
    HashMap ℕ OverrideMeta → List ℕ → HashMap Text (List ℕ) → HashMap Text (List ℕ)
unfolding group_hash
group_by_mod all_meta [] by_mod = by_mod
group_by_mod all_meta (h ∷ hs) by_mod = group_by_mod all_meta hs (group_hash all_meta h by_mod)

-- `enumerate` and `collect`: of two mods with one id the later one is found.
mod_id_to_index : ℕ → List EnabledMod → HashMap Text ℕ → HashMap Text ℕ
mod_id_to_index i [] index = index
mod_id_to_index i (m ∷ mods) index = mod_id_to_index (suc i) mods (insert m.id i index)

unfoldable pub mod_at : List EnabledMod → Option ℕ → Option EnabledMod
mod_at mods none = none
mod_at mods (some i) = get_elem? mods i

unfoldable pub find_mod : List EnabledMod → Text → Option EnabledMod
unfolding mod_id_to_index mod_at
find_mod mods id = mod_at mods (get id (mod_id_to_index 0 mods []))

unfoldable pub read_source : ModContentProvider → OverrideSource → Result Error (List ℕ)
read_source p (layer_wad id layer wad_name rel_path) =
    p.read_wad_override_file layer wad_name rel_path
read_source p (raw id rel_path) = p.read_raw_override_file rel_path

-- `all_meta[&path_hash]`: every grouped hash has metadata, so that the index never panics.
unfoldable pub read_hash : HashMap ℕ OverrideMeta → ModContentProvider → ℕ → Result Error (List ℕ)
read_hash all_meta p h = elim (get h all_meta) [
  | none ↦ err other
  | some meta ↦ read_source p meta.source
]

unfoldable pub read_group :
    HashMap ℕ OverrideMeta → ModContentProvider → List ℕ → Overrides → Result Error Overrides
unfolding read_hash
read_group all_meta p [] resolved = ok resolved
read_group all_meta p (h ∷ hs) resolved = do
  bytes ← read_hash all_meta p h
  read_group all_meta p hs (insert h bytes resolved)

abbrev pub found_or_err : Option EnabledMod → Result Error EnabledMod
found_or_err none = err other
found_or_err (some m) = ok m

unfoldable pub read_groups :
    List EnabledMod
    → HashMap ℕ OverrideMeta
    → HashMap Text (List ℕ)
    → Overrides
    → Result Error Overrides
unfolding read_group
read_groups mods all_meta [] resolved = ok resolved
read_groups mods all_meta ((id, hs) ∷ by_mod) resolved = do
  m ← found_or_err (find_mod mods id)
  resolved' ← read_group all_meta m.content hs resolved
  read_groups mods all_meta by_mod resolved'

-- The overrides of one WAD among the bytes that were read.
unfoldable pub wad_overrides : Overrides → List ℕ → Overrides → Overrides
wad_overrides resolved [] per_wad = per_wad
wad_overrides resolved (h ∷ hs) per_wad =
    wad_overrides resolved hs
      (elim (get h resolved) [ none ↦ per_wad | some bytes ↦ insert h bytes per_wad ])

unfoldable pub distribute_bytes :
    Overrides → WadHashes → List FilePath → TreeMap FilePath Overrides → TreeMap FilePath Overrides
unfolding wad_overrides
distribute_bytes resolved sets [] result = result
distribute_bytes resolved sets (wad ∷ wads) result =
    distribute_bytes resolved sets wads (elim (get wad sets) [
      | none ↦ result
      | some hs ↦ TreeMap.insert wad (wad_overrides resolved hs []) result
    ])

unfoldable pub resolve_needed :
    List EnabledMod
    → List FilePath
    → WadHashes
    → HashMap ℕ OverrideMeta
    → List ℕ
    → Result Error (TreeMap FilePath Overrides)
resolve_needed mods wads_to_build sets all_meta [] = ok []
resolve_needed mods wads_to_build sets all_meta (h ∷ hs) = do
  resolved ← read_groups mods all_meta (group_by_mod all_meta (h ∷ hs) []) []
  ok (distribute_bytes resolved sets wads_to_build [])

unfoldable pub resolve_overrides_for_wads :
    List EnabledMod
    → List FilePath
    → WadHashes
    → HashMap ℕ OverrideMeta
    → Result Error (TreeMap FilePath Overrides)
unfolding needed_hashes read_groups group_by_mod distribute_bytes resolve_needed
resolve_overrides_for_wads mods wads_to_build sets all_meta =
    resolve_needed mods wads_to_build sets all_meta (needed_hashes sets wads_to_build [])
