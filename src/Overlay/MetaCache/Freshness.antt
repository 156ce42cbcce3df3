-- ===== src/Overlay/MetaCache/Freshness.antt =====
-- When the cache answers.
use league_mod.Prelude.{
  ℕ, ◌≡◌, ap, ◌∙◌, ◌↔◌, Option, none, some, List, Text, arith, if◌then◌else◌, ◌==◌, nat_ord,
  list_ord, Bool-cases, inl, inr,
}
use league_mod.Prelude.Assoc.{get-retain}
use league_mod.Prelude.HashSet.{contains}
use league_mod.Prelude.TreeMap.{get-insert, IsSorted}
use league_mod.Prelude.TreeMap.Sorted.{IsSorted-Distinct}
use league_mod.Overlay.MetaCache.{
  CachedModMeta, OverrideMetaCache, cache_version, load, if_fresh, get_mod_meta, set_mod_meta,
  retain_mods,
}

-- After the metadata of a mod is set, the cache answers for that mod with it, and only under the
-- fingerprint that was set with it, and for every other mod as before.
pub get_mod_meta-set_mod_meta :
    (cache : OverrideMetaCache) (id j : Text) (meta : CachedModMeta) (fingerprint : ℕ)
    → get_mod_meta (set_mod_meta cache id meta) j fingerprint ≡ (
        if id == j
        then (if meta.content_fingerprint == fingerprint then some meta else none)
        else get_mod_meta cache j fingerprint)
unfolding get_mod_meta set_mod_meta
get_mod_meta-set_mod_meta cache id j meta fingerprint =
    rw (get-insert id j meta cache.mods)
      (elim (Bool-cases (id == j)) [ inl t ↦ rw t | inr t ↦ rw t ])

-- For a cache with its keys in order: pruning keeps the answers for the mods of the list, and gives
-- none for all others.
pub get_mod_meta-retain_mods :
    (cache : OverrideMetaCache) (ids : List Text) (id : Text) (fingerprint : ℕ)
    → IsSorted cache.mods
    → get_mod_meta (retain_mods cache ids) id fingerprint
      ≡ (if contains id ids then get_mod_meta cache id fingerprint else none)
unfolding get_mod_meta retain_mods
get_mod_meta-retain_mods cache ids id fingerprint s =
    ap (if_fresh fingerprint)
      (get-retain (λ k _. contains k ids) id cache.mods (IsSorted-Distinct cache.mods s))
    ∙ ground arith

-- A cache file is used exactly if it is there, has the current version and was written for this
-- fingerprint of the game.
pub load-eq-some_iff :
    (file : Option OverrideMetaCache) (game_fingerprint : ℕ) (cache : OverrideMetaCache)
    → (load file game_fingerprint ≡ some cache) ↔ (
        (file ≡ some cache)
        × (cache.version ≡ cache_version)
        × (cache.game_fingerprint ≡ game_fingerprint))
unfolding load
load-eq-some_iff none fp cache = (λ e. cc, λ e. cc (e.0))
load-eq-some_iff (some file) fp cache = (λ e. ground arith, λ e. ground arith)
