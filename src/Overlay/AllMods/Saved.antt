-- ===== src/Overlay/AllMods/Saved.antt =====
-- What pass 1 saves in the metadata cache, for the next build.
use league_mod.Prelude.{
  ℕ, ◌≡◌, refl, sym, ap, subst, ◌∙◌, inl, inr, true, false, Option, none, some, List, [], ◌∷◌, Text,
  arith, ◌==◌, eq_refl, nat_ord, list_ord,
}
use league_mod.Prelude.Assoc.{In}
use league_mod.Prelude.HashMap.{HashMap}
use league_mod.Prelude.HashSet.{contains, Distinct}
use league_mod.Prelude.TreeMap.{IsSorted}
use league_mod.Prelude.TreeMap.Sorted.{insert-IsSorted}
use league_mod.Prelude.Outcome.{Result, ok, err, >>=-eq-ok}
use league_mod.Overlay.FilePath.{FilePath}
use league_mod.Overlay.Types.{Error}
use league_mod.Overlay.Externals.{Externals}
use league_mod.Overlay.GameIndex.{GameIndex}
use league_mod.Overlay.Content.{EnabledMod}
use league_mod.Overlay.Collect.{ModMeta, collect_single_mod_metadata}
use league_mod.Overlay.MetaCache
use league_mod.Overlay.MetaCache.{
  OverrideMetaCache, CachedModMeta, cache_version, get_mod_meta, set_mod_meta, retain_mods,
  from_override_meta, reconstruct,
}
use league_mod.Overlay.MetaCache.Freshness.{
  get_mod_meta-set_mod_meta, get_mod_meta-retain_mods, load-eq-some_iff,
}
use league_mod.Overlay.AllMods.{
  cache_fingerprint, Collected, cached, updated, fresh_or_err, collect_or_cache_mod_metadata,
  collect_mods, mod_ids, AllMeta, or_new, collect_all_override_metadata,
}

-- The cache answers for the mod under the fingerprint.
abbrev pub Answers : OverrideMetaCache → Text → ℕ → Type 0
Answers cache id fp = (entry : CachedModMeta) × (get_mod_meta cache id fp ≡ some entry)

-- A cache of this format and game with its keys in order.
pub record IsCurrent (game_fp : ℕ) (cache : OverrideMetaCache) : Type 0 where
  pub version_is : cache.version ≡ cache_version
  pub game_is : cache.game_fingerprint ≡ game_fp
  pub sorted : IsSorted cache.mods

-- The cache after the mod `id`: current if it was, with the answers for all other mods.
record Follows (id : Text) (cache cache' : OverrideMetaCache) : Type 0 where
  pub current : (game_fp : ℕ) → IsCurrent game_fp cache → IsCurrent game_fp cache'
  pub others :
      (j : Text) (fp : ℕ) → (id == j) ≡ false → get_mod_meta cache' j fp ≡ get_mod_meta cache j fp

Follows-refl : (id : Text) (cache : OverrideMetaCache) → Follows id cache cache
Follows-refl id cache = record { current = λ g c. c; others = λ j fp n. refl }

Follows-set :
    (id : Text) (cache : OverrideMetaCache) (entry : CachedModMeta)
    → Follows id cache (set_mod_meta cache id entry)
unfolding set_mod_meta
Follows-set id cache entry = record {
  current = λ g c. record {
    version_is = c.version_is;
    game_is = c.game_is;
    sorted = insert-IsSorted id entry cache.mods c.sorted;
  };
  others = λ j fp n. get_mod_meta-set_mod_meta cache id j entry fp ∙ rw n refl;
}

set-Answers :
    (id : Text) (cache : OverrideMetaCache) (fp : ℕ) (mod_meta : ModMeta)
    → Answers (set_mod_meta cache id (from_override_meta fp mod_meta)) id fp
unfolding from_override_meta
set-Answers id cache fp mod_meta = (
  from_override_meta fp mod_meta,
  get_mod_meta-set_mod_meta cache id id (from_override_meta fp mod_meta) fp
      ∙ rw (eq_refl id) (rw (eq_refl fp) refl),
)

module _ (e : Externals) (g : GameIndex) (game_dir : FilePath) where
  -- One mod: the cache follows, and answers for it if it has a fingerprint.
  abbrev Step : EnabledMod → Option ℕ → OverrideMetaCache → OverrideMetaCache → Type 0
  Step m fingerprint cache cache' =
      Follows m.id cache cache' × ((fp : ℕ) → fingerprint ≡ some fp → Answers cache' m.id fp)

  fresh-Step :
      (m : EnabledMod) (fingerprint : Option ℕ) (cache : OverrideMetaCache)
      (r : Result Error ModMeta) (mod_meta : ModMeta) (cache' : OverrideMetaCache)
      → fresh_or_err cache m.id fingerprint r ≡ ok (mod_meta, cache')
      → Step m fingerprint cache cache'
  unfolding fresh_or_err updated
  fresh-Step m fingerprint cache (err e') mod_meta cache' h = cc h
  fresh-Step m none cache (ok found) mod_meta cache' h =
      (subst (Follows m.id cache) (cc h) (Follows-refl m.id cache), λ fp is. cc is)
  fresh-Step m (some fp) cache (ok found) mod_meta cache' h =
      let same : set_mod_meta cache m.id (from_override_meta fp found) ≡ cache' = cc h in
      subst (Step m (some fp) cache) same (
        Follows-set m.id cache (from_override_meta fp found),
        λ fp' is.
            let eq : fp ≡ fp' = cc is in
            subst (Answers (set_mod_meta cache m.id (from_override_meta fp found)) m.id) eq
              (set-Answers m.id cache fp found),
      )

  collect_or_cache-Step :
      (m : EnabledMod) (fingerprint : Option ℕ) (cache : OverrideMetaCache) (mod_meta : ModMeta)
      (cache' : OverrideMetaCache)
      → collect_or_cache_mod_metadata e g game_dir m fingerprint cache ≡ ok (mod_meta, cache')
      → Step m fingerprint cache cache'
  unfolding collect_or_cache_mod_metadata cached
  collect_or_cache-Step m none cache mod_meta cache' =
      fresh-Step m none cache (collect_single_mod_metadata e m g game_dir) mod_meta cache'
  collect_or_cache-Step m (some fp) cache mod_meta cache' = go (get_mod_meta cache m.id fp) refl
    where
      go :
          (found : Option CachedModMeta)
          → get_mod_meta cache m.id fp ≡ found
          → (elim found as (λ _. Collected) [
            | some entry ↦ ok (reconstruct entry m.id, cache)
            | none ↦ fresh_or_err cache m.id (some fp) (collect_single_mod_metadata e m g game_dir)
          ])
            ≡ ok (mod_meta, cache')
          → Step m (some fp) cache cache'
      go none at h =
          fresh-Step m (some fp) cache (collect_single_mod_metadata e m g game_dir) mod_meta cache'
            h
      go (some entry) at h =
          let same : cache ≡ cache' = cc h in
          subst (Step m (some fp) cache) same (
            Follows-refl m.id cache,
            λ fp' is. let eq : fp ≡ fp' = cc is in subst (Answers cache m.id) eq (entry, at),
          )

  -- All mods: the cache stays current, keeps its answers for other mods, and answers for each.
  record AllAnswer (mods : List EnabledMod) (cache cache' : OverrideMetaCache) : Type 0 where
    pub current : (game_fp : ℕ) → IsCurrent game_fp cache → IsCurrent game_fp cache'
    pub others :
        (j : Text) (fp : ℕ)
        → contains j (mod_ids mods) ≡ false
        → get_mod_meta cache' j fp ≡ get_mod_meta cache j fp
    pub each :
        (m : EnabledMod) (fp : ℕ)
        → In m mods
        → cache_fingerprint e.xxh3_64 m ≡ some fp
        → Answers cache' m.id fp

  collect_mods-AllAnswer :
      (mods : List EnabledMod) (cache : OverrideMetaCache) (results : List ModMeta)
      (cache' : OverrideMetaCache)
      → Distinct (mod_ids mods)
      → collect_mods e g game_dir mods cache ≡ ok (results, cache')
      → AllAnswer mods cache cache'
  unfolding collect_mods
  collect_mods-AllAnswer [] cache results cache' d h =
      let same : cache ≡ cache' = cc h in
      subst (AllAnswer [] cache) same
        (record { current = λ f c. c; others = λ j fp n. refl; each = λ m fp i. elim i [ ] })
  collect_mods-AllAnswer (m ∷ mods) cache results cache' d h =
      let r =
        >>=-eq-ok
          (collect_or_cache_mod_metadata e g game_dir m (cache_fingerprint e.xxh3_64 m) cache) _
          h in
      let q = >>=-eq-ok (collect_mods e g game_dir mods (r.0).1) _ r.2 in
      let step = collect_or_cache-Step m _ cache (r.0).0 (r.0).1 r.1 in
      let rest = collect_mods-AllAnswer mods (r.0).1 (q.0).0 (q.0).1 d.1 q.1 in
      let same : (q.0).1 ≡ cache' = cc (q.2) in
      subst (AllAnswer (m ∷ mods) cache) same (record {
        current = λ f c. rest.current f ((step.0).current f c);
        others = λ j fp n.
            rest.others j fp (ground (arith, n)) ∙ (step.0).others j fp (ground (arith, n));
        each = λ k fp i at. elim i [
          | inl k_is ↦
              let here = step.1 fp (ap (cache_fingerprint e.xxh3_64) (sym k_is) ∙ at) in
              let kept = rest.others m.id fp d.0 in
              subst (λ x. Answers (q.0).1 x.id fp) (sym k_is) (here.0, kept ∙ here.1)
          | inr later ↦ rest.each k fp later at
        ];
      })

or_new-IsCurrent :
    (game_fp : ℕ) (cache_file : Option OverrideMetaCache)
    → ((cache : OverrideMetaCache) → cache_file ≡ some cache → IsSorted cache.mods)
    → IsCurrent game_fp (or_new game_fp (MetaCache.load cache_file game_fp))
unfolding or_new MetaCache.new
or_new-IsCurrent game_fp cache_file sorted = go (MetaCache.load cache_file game_fp) refl
  where
    go :
        (o : Option OverrideMetaCache)
        → MetaCache.load cache_file game_fp ≡ o
        → IsCurrent game_fp (or_new game_fp o)
    go none at = record { version_is = refl; game_is = refl; sorted = tt }
    go (some cache) at =
        let (found, version_is, game_is) = (load-eq-some_iff cache_file game_fp cache).0 at in
        record { version_is = version_is; game_is = game_is; sorted = sorted cache found }

In-mod_ids :
    (m : EnabledMod) (mods : List EnabledMod) → In m mods → contains m.id (mod_ids mods) ≡ true
In-mod_ids m [] i = elim i [ ]
In-mod_ids m (k ∷ mods) (inl same) = rw (ap (λ x. x.id) same) (rw (eq_refl k.id) refl)
In-mod_ids m (k ∷ mods) (inr i) = ground (arith, In-mod_ids m mods i)

used_again :
    (cache : OverrideMetaCache) (ids : List Text) (game_fp : ℕ)
    → IsCurrent game_fp cache
    → MetaCache.load (some (retain_mods cache ids)) game_fp ≡ some (retain_mods cache ids)
unfolding retain_mods
used_again cache ids game_fp c =
    (load-eq-some_iff (some (retain_mods cache ids)) game_fp (retain_mods cache ids)).1
      (refl, c.version_is, c.game_is)

-- The cache serves the next build: it is used, answers for the enabled mods, and for no others.
abbrev pub Serves : Externals → List EnabledMod → GameIndex → OverrideMetaCache → Type 0
Serves e mods g cache =
    (MetaCache.load (some cache) g.game_fingerprint ≡ some cache)
    × ((k : EnabledMod) (fp : ℕ)
        → In k mods
        → cache_fingerprint e.xxh3_64 k ≡ some fp
        → Answers cache k.id fp)
    × ((id : Text) (fp : ℕ) → contains id (mod_ids mods) ≡ false → get_mod_meta cache id fp ≡ none)

-- Where the enabled mods have different ids and the cache file, if there is one, has its keys in
-- order: if pass 1 succeeds, the cache that it saves is one that a build of the same game uses, and
-- answers for each enabled mod that has a fingerprint, under that fingerprint, so that the mod is
-- not collected anew while it is unchanged; it answers for no other mod.
pub saved_cache-Serves :
    (e : Externals) (mods : List EnabledMod) (g : GameIndex) (game_dir : FilePath)
    (content_hashes : List ℕ → HashMap ℕ ℕ) (cache_file : Option OverrideMetaCache) (m : AllMeta)
    → Distinct (mod_ids mods)
    → ((cache : OverrideMetaCache) → cache_file ≡ some cache → IsSorted cache.mods)
    → collect_all_override_metadata e mods g game_dir content_hashes cache_file ≡ ok m
    → Serves e mods g m.saved_cache
unfolding collect_all_override_metadata
saved_cache-Serves e mods g game_dir content_hashes cache_file m d sorted h =
    let before = or_new g.game_fingerprint (MetaCache.load cache_file g.game_fingerprint) in
    let r = >>=-eq-ok (collect_mods e g game_dir mods before) _ h in
    let all = collect_mods-AllAnswer e g game_dir mods before (r.0).0 (r.0).1 d r.1 in
    let now =
      all.current g.game_fingerprint (or_new-IsCurrent g.game_fingerprint cache_file sorted) in
    let kept =
      λ (id : Text) (fp : ℕ). get_mod_meta-retain_mods (r.0).1 (mod_ids mods) id fp now.sorted in
    let saved : retain_mods (r.0).1 (mod_ids mods) ≡ m.saved_cache = cc (r.2) in
    subst (Serves e mods g) saved (
      used_again (r.0).1 (mod_ids mods) g.game_fingerprint now,
      λ k fp i at.
          let here = all.each k fp i at in (here.0, kept k.id fp ∙ rw (In-mod_ids k mods i) here.1),
      λ id fp out. kept id fp ∙ rw out refl,
    )
