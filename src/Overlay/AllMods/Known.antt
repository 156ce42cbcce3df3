-- ===== src/Overlay/AllMods/Known.antt =====
-- Every override that pass 1 leaves belongs to an enabled mod, so that pass 2 finds its provider.
use mathlib.Core.List.{reverse_aux}
use league_mod.Prelude.{
  ℕ, ◌≡◌, refl, ap, subst, true, Option, none, some, List, [], ◌∷◌, Text, arith, reverse, All,
  nat_ord, list_ord, eq_refl,
}
use league_mod.Prelude.Assoc
use league_mod.Prelude.Assoc.{get, is_some, retain, retain-Distinct, AllEntries, entry_of}
use league_mod.Prelude.HashMap.{HashMap, insert-AllEntries}
use league_mod.Prelude.HashSet.{contains}
use league_mod.Prelude.Outcome.{Result, ok, err, >>=-eq-ok}
use league_mod.Overlay.FilePath.{FilePath}
use league_mod.Overlay.Types.{Error, OverrideMeta, OverrideSource, layer_wad, raw, mod_id}
use league_mod.Overlay.Externals.{Externals}
use league_mod.Overlay.GameIndex.{GameIndex}
use league_mod.Overlay.Content.{EnabledMod}
use league_mod.Overlay.Collect.{ModMeta, collect_single_mod_metadata}
use league_mod.Overlay.Collect.Owned.{IsFrom, collect-IsOwned}
use league_mod.Overlay.Merge.{merge_mods, filter_override_metadata}
use league_mod.Overlay.MetaCache.{
  OverrideMetaCache, CachedModMeta, CachedOverride, cached_source, restore, reconstruct_from,
  reconstruct,
}
use league_mod.Overlay.Resolve.{find_mod}
use league_mod.Overlay.Resolve.FindMod.{find_mod-some}
use league_mod.Overlay.AllMods.{
  cache_fingerprint, Collected, cached, fresh_or_err, collect_or_cache_mod_metadata, collect_mods,
  mod_ids, AllMeta, collect_all_override_metadata,
}
use league_mod.Overlay.Merge.Sound.{Entries, Sound, merge_from-Sound, filter-Sound}

-- Metadata of the mod `id`.
abbrev Of : Text → OverrideMeta → Type 0
Of id meta = mod_id meta.source ≡ id

cached_source-mod_id :
    (id : Text) (layer wad_name : Option Text) (rel_path : Text)
    → mod_id (cached_source id layer wad_name rel_path) ≡ id
unfolding cached_source mod_id
cached_source-mod_id id (some layer) (some wad_name) rel_path = refl
cached_source-mod_id id (some layer) none rel_path = refl
cached_source-mod_id id none wad_name rel_path = refl

reconstruct_from-Entries :
    (id : Text) (overrides : List CachedOverride) (mod_meta : ModMeta)
    → Entries (Of id) mod_meta
    → Entries (Of id) (reconstruct_from id overrides mod_meta)
unfolding reconstruct_from restore
reconstruct_from-Entries id [] mod_meta a = a
reconstruct_from-Entries id (x ∷ overrides) mod_meta a = reconstruct_from-Entries id overrides _ (
    insert-AllEntries (λ _ y. Of id y) x.path_hash (restore id x) mod_meta
      (cached_source-mod_id id x.source_layer x.source_wad_name x.source_rel_path) a)

IsFrom→Of : (m : EnabledMod) (s : OverrideSource) → IsFrom m s → mod_id s ≡ m.id
unfolding mod_id
IsFrom→Of m (layer_wad id layer wad_name rel_path) f = f.0
IsFrom→Of m (raw id rel_path) f = f

owned→Entries :
    (m : EnabledMod) (r : ModMeta) → AllEntries (λ _ x. IsFrom m x.source) r → Entries (Of m.id) r
owned→Entries m [] a = tt
owned→Entries m ((h, meta) ∷ r) (f, a) = (IsFrom→Of m meta.source f, owned→Entries m r a)

module _ (e : Externals) (g : GameIndex) (game_dir : FilePath) where
  fresh-Entries :
      (m : EnabledMod) (cache cache' : OverrideMetaCache) (fingerprint : Option ℕ)
      (r : Result Error ModMeta) (meta : ModMeta)
      → collect_single_mod_metadata e m g game_dir ≡ r
      → fresh_or_err cache m.id fingerprint r ≡ ok (meta, cache')
      → Entries (Of m.id) meta
  unfolding fresh_or_err
  fresh-Entries m cache cache' fingerprint (err f) meta at s = cc s
  fresh-Entries m cache cache' fingerprint (ok r) meta at s =
      let same : r ≡ meta = cc s in
      subst (Entries (Of m.id)) same (owned→Entries m r (collect-IsOwned m e g game_dir r at).1)

  abbrev from_cache : EnabledMod → Option ℕ → OverrideMetaCache → Option CachedModMeta → Collected
  from_cache m fingerprint cache entry = elim entry [
    | some c ↦ ok (reconstruct c m.id, cache)
    | none ↦ fresh_or_err cache m.id fingerprint (collect_single_mod_metadata e m g game_dir)
  ]

  from_cache-Entries :
      (m : EnabledMod) (cache cache' : OverrideMetaCache) (fingerprint : Option ℕ)
      (entry : Option CachedModMeta) (meta : ModMeta)
      → from_cache m fingerprint cache entry ≡ ok (meta, cache')
      → Entries (Of m.id) meta
  unfolding reconstruct
  from_cache-Entries m cache cache' fingerprint none meta s =
      fresh-Entries m cache cache' fingerprint _ meta refl s
  from_cache-Entries m cache cache' fingerprint (some c) meta s =
      let same : reconstruct c m.id ≡ meta = cc s in
      subst (Entries (Of m.id)) same (reconstruct_from-Entries m.id c.overrides [] tt)

  collect_or_cache-Entries :
      (m : EnabledMod) (cache cache' : OverrideMetaCache) (fingerprint : Option ℕ) (meta : ModMeta)
      → collect_or_cache_mod_metadata e g game_dir m fingerprint cache ≡ ok (meta, cache')
      → Entries (Of m.id) meta
  unfolding collect_or_cache_mod_metadata
  collect_or_cache-Entries m cache cache' fingerprint meta s =
      from_cache-Entries m cache cache' fingerprint (cached cache m.id fingerprint) meta s

  -- Metadata of one of the mods.
  abbrev Known : List EnabledMod → OverrideMeta → Type 0
  Known mods meta = contains (mod_id meta.source) (mod_ids mods) ≡ true

  Of→Known :
      (m : EnabledMod) (mods : List EnabledMod) (r : ModMeta)
      → contains m.id (mod_ids mods) ≡ true
      → Entries (Of m.id) r
      → Entries (Known mods) r
  Of→Known m mods [] c a = tt
  Of→Known m mods ((h, meta) ∷ r) c (own, a) = (rw own c, Of→Known m mods r c a)

  collect_mods-Known :
      (all mods : List EnabledMod) (cache cache' : OverrideMetaCache) (results : List ModMeta)
      → ((id : Text) → contains id (mod_ids mods) ≡ true → contains id (mod_ids all) ≡ true)
      → collect_mods e g game_dir mods cache ≡ ok (results, cache')
      → All (Entries (Known all)) results
  unfolding collect_mods
  collect_mods-Known all [] cache cache' results sub s =
      let same : [] ≡ results = cc s in subst (All (Entries (Known all))) same tt
  collect_mods-Known all (m ∷ mods) cache cache' results sub s =
      let (one, at_one, rest) =
        >>=-eq-ok
          (collect_or_cache_mod_metadata e g game_dir m (cache_fingerprint e.xxh3_64 m) cache) _
          s in
      let (more, at_more, last) = >>=-eq-ok (collect_mods e g game_dir mods one.1) _ rest in
      let same : (one.0 ∷ more.0) ≡ results = cc last in
      subst (All (Entries (Known all))) same (
        Of→Known m all one.0 (sub m.id (ground (arith, eq_refl m.id)))
            (collect_or_cache-Entries m cache one.1 _ one.0 at_one),
        collect_mods-Known all mods one.1 more.1 more.0 (λ id c. sub id (ground arith)) at_more,
      )

All-reverse_aux :
    (P : ModMeta → Type 0) (xs r : List ModMeta) → All P xs → All P r → All P (reverse_aux xs r)
All-reverse_aux P [] r a b = b
All-reverse_aux P (x ∷ xs) r (p, a) b = All-reverse_aux P xs (x ∷ r) a (p, b)

module _ (e : Externals) (mods : List EnabledMod) (g : GameIndex) (game_dir : FilePath)
    (content_hashes : List ℕ → HashMap ℕ ℕ) (cache_file : Option OverrideMetaCache)
    (m : AllMeta) where
  abbrev KnownMod : OverrideMeta → Type 0
  KnownMod = Known e g game_dir mods

  collected-Sound :
      collect_all_override_metadata e mods g game_dir content_hashes cache_file ≡ ok m
      → Sound KnownMod m.all_meta
  unfolding collect_all_override_metadata merge_mods
  collected-Sound at =
      let (results, at_mods, last) = >>=-eq-ok (collect_mods e g game_dir mods _) _ at in
      let same : filter_override_metadata g content_hashes (merge_mods results.0) ≡ m.all_meta =
        cc (ap all_meta_of last) in
      subst (Sound KnownMod) same (
        filter-Sound KnownMod g content_hashes _ (
          merge_from-Sound KnownMod (reverse results.0) []
            (All-reverse_aux (Entries KnownMod) results.0 []
              (collect_mods-Known e g game_dir mods mods _ results.1 results.0 (λ id c. c) at_mods)
              tt)
            (tt, tt)))
    where
      all_meta_of : Result Error AllMeta → ModMeta
      all_meta_of (ok x) = x.all_meta
      all_meta_of (err x) = []

  -- What pass 1 collects has no hash twice.
  pub collected-Distinct :
      collect_all_override_metadata e mods g game_dir content_hashes cache_file ≡ ok m
      → Assoc.Distinct m.all_meta
  collected-Distinct at = (collected-Sound at).0

  -- Each override in the metadata that pass 1 leaves, from the cache or collected anew, has a mod
  -- that pass 2 finds among the enabled mods by its id: pass 2 never meets an unknown mod.
  pub collected_mod_found :
      (h : ℕ) (meta : OverrideMeta)
      → collect_all_override_metadata e mods g game_dir content_hashes cache_file ≡ ok m
      → get h m.all_meta ≡ some meta
      → (x : EnabledMod) × (find_mod mods (mod_id meta.source) ≡ some x)
  collected_mod_found h meta at at_h =
      find_mod-some mods (mod_id meta.source)
        (entry_of (λ _ x. KnownMod x) h meta m.all_meta (collected-Sound at).1 at_h)
