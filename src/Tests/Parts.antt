-- ===== src/Tests/Parts.antt =====
-- The theorems on the parts of a build, on small data.
use league_mod.Prelude.{
  ◌%◌, ◌^◌, ◌++◌, ℕ, ◌≡◌, ◌≢◌, ◌↔◌, refl, subst, none, some, [], ◌∷◌, text, true, false, arith,
  nat_ord, list_ord,
}
use league_mod.Prelude.Assoc.{get}
use league_mod.Prelude.HashMap.{HashMap}
use league_mod.Prelude.HashSet
use league_mod.Prelude.HashSet.{contains}
use league_mod.Overlay.FilePath.{FilePath, IsRelative, as_str}
use league_mod.Overlay.Types.{OverrideMeta, mod_id, layer_wad}
use league_mod.Overlay.GameIndex.{find_best_matching_wad}
use league_mod.Overlay.GameIndex.BestMatch.{
  IsBest, overlap, find_best_matching_wad-IsBest, find_best-eq-none_iff, find_best_order_free,
}
use league_mod.Overlay.Distribute.{distribute_override_hashes, WadHashes}
use league_mod.Overlay.Distribute.Routes.{has, BelongsTo, distribute_routes}
use league_mod.Overlay.Merge.{merge_mods, filter_override_metadata}
use league_mod.Overlay.Merge.Priority.{merge_first_wins}
use league_mod.Overlay.Merge.Filter.{filter-eq-some_iff, originals}
use league_mod.Overlay.Fingerprint.{
  compute_wad_fingerprint_from_meta, compute_wad_overrides_fingerprint,
}
use league_mod.Overlay.Fingerprint.Order.{fingerprint_order_free, from_meta-eq-from_bytes}
use league_mod.Overlay.Partition.{partition_wads_from_meta}
use league_mod.Overlay.Offenders.{collect_linked_bin_offenders}
use league_mod.Overlay.Offenders.Exact.{is_reported, is_missing, offenders_exact}
use league_mod.Overlay.Report.{from_meta}
use league_mod.Overlay.Report.Counts.{count_of, tally, from_meta-counts}
use league_mod.Overlay.Partition.Exact.{partition_reuses, partition_covers, MayReuse}
use league_mod.Overlay.Partition.Once.{wads_to_build-Distinct}
use league_mod.Overlay.MetaCache
use league_mod.Overlay.MetaCache.{
  OverrideMetaCache, CachedModMeta, reconstruct, from_override_meta, get_mod_meta, set_mod_meta,
  retain_mods,
}
use league_mod.Overlay.MetaCache.RoundTrip.{rel_path, reconstruct-from_override_meta}
use league_mod.Overlay.MetaCache.Freshness.{get_mod_meta-set_mod_meta}
use league_mod.Overlay.Content.{EnabledMod}
use league_mod.Overlay.Resolve.{find_mod}
use league_mod.Overlay.Collect.Owned.{IsFrom, collect_owned}
use league_mod.Overlay.AllMods.Saved.{Serves, saved_cache-Serves}
use league_mod.Overlay.AllMods.Known.{collected_mod_found}
use league_mod.Overlay.LinkedBins.{parse_linked_bins}
use league_mod.Overlay.LinkedBins.RoundTrip.{encode_prop, encode_ptch, parse-encode}
use league_mod.Prelude.Outcome.{ok}
use league_mod.Overlay.ChunkHash.{dot, resolve_chunk_hash}
use league_mod.Overlay.ChunkHash.HexName.{to_hex, resolve_chunk_hash-to_hex}
use league_mod.Tests.Data.{
  a_mod, a_content, adding, a_collected, at_collected, total, computed, a_wad, a_meta, a_game,
  a_state, chunk,
}
use league_mod.Tests.Builder.{a_wad-IsRelative}

abbrev metas : HashMap ℕ OverrideMeta
metas = (1, a_meta) ∷ []

-- The same chunk of another mod.
abbrev b_meta : OverrideMeta
b_meta = record a_meta {
  content_hash = 6;
  source = layer_wad (text "n") (text "base") (text "a.wad.client") chunk;
}

distribute_routes_example :
    (has 1 a_wad (distribute_override_hashes a_game metas) ≡ true)
    ↔ ((meta : OverrideMeta) × (get 1 metas ≡ some meta) × BelongsTo a_game 1 meta a_wad)
distribute_routes_example = distribute_routes a_game metas 1 a_wad (refl, tt)

merge_first_wins_example : get 1 (merge_mods (metas ∷ ((1, b_meta) ∷ []) ∷ [])) ≡ some a_meta
merge_first_wins_example =
    merge_first_wins (metas ∷ ((1, b_meta) ∷ []) ∷ []) 1 ((refl, tt), ((refl, tt), tt))

filter-eq-some_iff_example :
    (get 1 (filter_override_metadata a_game (λ _. (1, 4) ∷ []) metas) ≡ some a_meta) ↔ (
      (get 1 metas ≡ some a_meta)
      × (contains 1 a_game.subchunktoc_blocked ≡ false)
      × (get 1 (originals a_game (λ _. (1, 4) ∷ []) metas) ≢ some 5))
filter-eq-some_iff_example = filter-eq-some_iff a_game (λ _. (1, 4) ∷ []) metas 1 a_meta (refl, tt)

fingerprint_order_free_example :
    compute_wad_fingerprint_from_meta total (1 ∷ 2 ∷ []) ((1, a_meta) ∷ (2, b_meta) ∷ [])
    ≡ compute_wad_fingerprint_from_meta total (2 ∷ 1 ∷ []) ((2, b_meta) ∷ (1, a_meta) ∷ [])
fingerprint_order_free_example =
    fingerprint_order_free total (1 ∷ 2 ∷ []) (2 ∷ 1 ∷ []) ((1, a_meta) ∷ (2, b_meta) ∷ [])
      ((2, b_meta) ∷ (1, a_meta) ∷ []) (refl, (refl, tt)) (refl, (refl, tt)) (λ h. ground arith)

from_meta-eq-from_bytes_example :
    compute_wad_fingerprint_from_meta total (1 ∷ []) metas
    ≡ compute_wad_overrides_fingerprint total ((1, 5 ∷ []) ∷ [])
unfolding computed
from_meta-eq-from_bytes_example =
    from_meta-eq-from_bytes total (1 ∷ []) metas ((1, 5 ∷ []) ∷ []) (refl, tt) (refl, tt)
      (λ h. ground arith)

find_best_matching_wad-IsBest_example : IsBest a_game (1 ∷ 2 ∷ []) a_wad
unfolding computed
find_best_matching_wad-IsBest_example = find_best_matching_wad-IsBest a_game (1 ∷ 2 ∷ []) a_wad refl

find_best-eq-none_iff_example :
    (find_best_matching_wad a_game (2 ∷ []) ≡ none)
    ↔ ((v : FilePath) → overlap a_game (2 ∷ []) v ≡ 0)
find_best-eq-none_iff_example = find_best-eq-none_iff a_game (2 ∷ [])

find_best_order_free_example :
    find_best_matching_wad a_game (1 ∷ 2 ∷ []) ≡ find_best_matching_wad a_game (2 ∷ 1 ∷ [])
find_best_order_free_example =
    find_best_order_free a_game (1 ∷ 2 ∷ []) (2 ∷ 1 ∷ []) (λ v. ground arith)

abbrev routes : WadHashes
routes = (a_wad, 1 ∷ []) ∷ []

partition_reuses_example :
    (contains a_wad
        (partition_wads_from_meta total (λ _. true) routes metas (some a_state) true).wads_to_reuse
      ≡ true)
    ↔ MayReuse total
        (λ _. true)
        routes
        metas
        (some a_state)
        true
        (a_wad-IsRelative, tt)
        (refl, tt)
        a_wad
        a_wad-IsRelative
partition_reuses_example =
    partition_reuses total (λ _. true) routes metas (some a_state) true (a_wad-IsRelative, tt)
      (refl, tt) a_wad a_wad-IsRelative

partition_covers_example :
    contains a_wad
      (partition_wads_from_meta total (λ _. false) routes metas (some a_state) true).wads_to_build
    ≡ true
unfolding computed
partition_covers_example =
    partition_covers total (λ _. false) routes metas (some a_state) true (a_wad-IsRelative, tt)
      (refl, tt) a_wad a_wad-IsRelative

wads_to_build-Distinct_example :
    HashSet.Distinct
      (partition_wads_from_meta total (λ _. false) routes metas none false).wads_to_build
wads_to_build-Distinct_example =
    wads_to_build-Distinct total (λ _. false) routes metas none false (a_wad-IsRelative, tt)

same_path : (w : FilePath) → a_meta.fallback_wad ≡ some w → a_wad ≡ w
same_path w e = cc e

reconstruct-from_override_meta_example :
    get 1 (reconstruct (from_override_meta 9 metas) (text "m")) ≡ some a_meta
unfolding rel_path mod_id
reconstruct-from_override_meta_example =
    reconstruct-from_override_meta (text "m") 9 metas 1 (refl, tt)
      (
        record {
          owner = refl;
          source_path = record {
            nonempty = λ e. cc;
            components = (record { nonempty = refl; no_separator = refl }, tt);
          };
          target = λ w e. subst IsRelative (same_path w e) a_wad-IsRelative;
        },
        tt,
      )

abbrev a_cache : OverrideMetaCache
a_cache = set_mod_meta (MetaCache.new 77) (text "m") (from_override_meta 9 metas)

get_mod_meta-set_mod_meta_example : get_mod_meta a_cache (text "m") 8 ≡ none
unfolding computed
get_mod_meta-set_mod_meta_example =
    get_mod_meta-set_mod_meta (MetaCache.new 77) (text "m") (text "m") (from_override_meta 9 metas)
      8

saved_cache-Serves_example : Serves adding (a_mod ∷ []) a_game a_collected.saved_cache
saved_cache-Serves_example =
    saved_cache-Serves adding (a_mod ∷ []) a_game (text "game" ∷ []) (λ _. []) none a_collected
      (refl, tt) (λ cache e. cc e) at_collected

collect_owned_example :
    IsFrom
      (record { id = text "m"; content = a_content (5 ∷ []); enabled_layers = none })
      a_meta.source
unfolding computed
collect_owned_example =
    collect_owned adding a_mod a_game (text "game" ∷ []) metas 1 a_meta refl refl

collected_mod_found_example : (x : EnabledMod) × (find_mod (a_mod ∷ []) (text "m") ≡ some x)
unfolding computed
collected_mod_found_example =
    collected_mod_found adding (a_mod ∷ []) a_game (text "game" ∷ []) (λ _. []) none a_collected 1
      a_meta at_collected refl

parse-encode_example :
    (parse_linked_bins (λ s. s) (encode_prop 3 (text "a.bin" ∷ text "b.bin" ∷ []) [])
      ≡ some (text "a.bin" ∷ text "b.bin" ∷ []))
    × (parse_linked_bins
          (λ s. s)
          (encode_ptch 1 0 (encode_prop 3 (text "a.bin" ∷ text "b.bin" ∷ []) []))
        ≡ some (text "a.bin" ∷ text "b.bin" ∷ []))
parse-encode_example =
    parse-encode (λ s. s) 3 1 0 (text "a.bin" ∷ text "b.bin" ∷ []) [] (omega arith) (omega arith)
      (omega arith) (omega arith) (omega arith) (omega arith, (omega arith, tt))

resolve_chunk_hash-to_hex_example :
    resolve_chunk_hash adding (text "x" ∷ (to_hex 16 0xabc ++ (dot ∷ text "dds")) ∷ []) ≡ ok 0xabc
resolve_chunk_hash-to_hex_example =
    resolve_chunk_hash-to_hex adding (text "x" ∷ []) 0xabc (text "dds") (omega arith) refl

from_meta-counts_example :
    count_of (as_str a_wad) (from_meta (text "m") metas (some 9) a_game).affected_wads
    ≡ tally a_game a_wad metas % 2 ^ 32
unfolding league_mod.Overlay.GameIndex.find_wads_with_hash
from_meta-counts_example =
    from_meta-counts (text "m") metas (some 9) a_game a_wad ((a_wad-IsRelative, tt), tt)
      a_wad-IsRelative

-- The chunk with a link to a file that the game does not have.
abbrev linking : HashMap ℕ OverrideMeta
linking = (1, record a_meta { linked_bins = text "0000000000000002.bin" ∷ [] }) ∷ []

offenders_exact_example :
    is_reported
      (text "m")
      (text "0000000000000002.bin")
      (collect_linked_bin_offenders adding linking ((a_wad, 1 ∷ []) ∷ []) a_game)
    ≡ is_missing adding a_game linking
        (text "m")
        (text "0000000000000002.bin")
        ((a_wad, 1 ∷ []) ∷ [])
offenders_exact_example =
    offenders_exact adding a_game linking (text "m") (text "0000000000000002.bin")
      ((a_wad, 1 ∷ []) ∷ [])
