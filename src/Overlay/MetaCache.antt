-- ===== src/Overlay/MetaCache.antt =====
-- crates/ltk_overlay/src/meta_cache.rs: the cache of override metadata. The MessagePack bytes are
-- those of rmp-serde; the file is modelled by what reading it gives. A path is cached as its text.
pub mod RoundTrip
pub mod Freshness
use league_mod.Prelude.{
  ℕ, Bool, not, Option, none, some, List, [], ◌∷◌, Text, if◌then◌else◌, ◌==◌, nat_ord, list_ord,
}
use league_mod.Prelude.Assoc.{get, retain}
use league_mod.Prelude.HashMap
use league_mod.Prelude.HashMap.{HashMap}
use league_mod.Prelude.HashSet.{contains}
use league_mod.Prelude.TreeMap
use league_mod.Prelude.TreeMap.{TreeMap}
use league_mod.Overlay.FilePath.{FilePath, as_str, from}
use league_mod.Overlay.Types.{OverrideMeta, OverrideSource, layer_wad, raw}

abbrev pub cache_version : ℕ
cache_version = 3

pub record CachedOverride : Type 0 where
  pub path_hash : ℕ
  pub content_hash : ℕ
  pub uncompressed_size : ℕ
  pub target_wad : Option Text
  pub source_layer : Option Text
  pub source_wad_name : Option Text
  pub source_rel_path : Text
  pub linked_bins : List Text

pub record CachedModMeta : Type 0 where
  pub content_fingerprint : ℕ
  pub overrides : List CachedOverride

-- The source of a cached override: a WAD of a layer if both are recorded.
unfoldable pub cached_source : Text → Option Text → Option Text → Text → OverrideSource
cached_source id (some layer) (some wad_name) rel_path = layer_wad id layer wad_name (from rel_path)
cached_source id (some layer) none rel_path = raw id (from rel_path)
cached_source id none wad_name rel_path = raw id (from rel_path)

abbrev from_text : Option Text → Option FilePath
from_text none = none
from_text (some s) = some (from s)

abbrev to_text : Option FilePath → Option Text
to_text none = none
to_text (some p) = some (as_str p)

unfoldable pub restore : Text → CachedOverride → OverrideMeta
unfolding cached_source
restore id e = record {
  content_hash = e.content_hash;
  uncompressed_size = e.uncompressed_size;
  source = cached_source id e.source_layer e.source_wad_name e.source_rel_path;
  fallback_wad = from_text e.target_wad;
  linked_bins = e.linked_bins;
}

unfoldable pub reconstruct_from :
    Text → List CachedOverride → HashMap ℕ OverrideMeta → HashMap ℕ OverrideMeta
reconstruct_from id [] mod_meta = mod_meta
reconstruct_from id (e ∷ overrides) mod_meta =
    reconstruct_from id overrides (HashMap.insert e.path_hash (restore id e) mod_meta)

unfoldable pub reconstruct : CachedModMeta → Text → HashMap ℕ OverrideMeta
unfolding reconstruct_from restore
reconstruct c id = reconstruct_from id c.overrides []

unfoldable pub cached_fields : OverrideSource → Option Text × Option Text × Text
cached_fields (layer_wad id layer wad_name rel_path) = (some layer, some wad_name, as_str rel_path)
cached_fields (raw id rel_path) = (none, none, as_str rel_path)

unfoldable pub cached_entry : ℕ → OverrideMeta → CachedOverride
unfolding cached_fields
cached_entry path_hash meta =
    let (source_layer, source_wad_name, source_rel_path) = cached_fields meta.source in
    record {
      path_hash = path_hash;
      content_hash = meta.content_hash;
      uncompressed_size = meta.uncompressed_size;
      target_wad = to_text meta.fallback_wad;
      source_layer = source_layer;
      source_wad_name = source_wad_name;
      source_rel_path = source_rel_path;
      linked_bins = meta.linked_bins;
    }

pub cached_entries : HashMap ℕ OverrideMeta → List CachedOverride
cached_entries [] = []
cached_entries ((h, meta) ∷ mod_meta) = cached_entry h meta ∷ cached_entries mod_meta

unfoldable pub from_override_meta : ℕ → HashMap ℕ OverrideMeta → CachedModMeta
unfolding cached_entries cached_entry
from_override_meta fingerprint mod_meta = record {
  content_fingerprint = fingerprint;
  overrides = cached_entries mod_meta;
}

pub record OverrideMetaCache : Type 0 where
  pub version : ℕ
  pub game_fingerprint : ℕ
  pub mods : TreeMap Text CachedModMeta

unfoldable pub new : ℕ → OverrideMetaCache
new game_fingerprint = record {
  version = cache_version;
  game_fingerprint = game_fingerprint;
  mods = [];
}

-- `load`, from what reading and deserializing the file gives; `none` if either fails.
unfoldable pub load : Option OverrideMetaCache → ℕ → Option OverrideMetaCache
load none game_fingerprint = none
load (some cache) game_fingerprint =
    if not (cache.version == cache_version)
    then none
    else if not (cache.game_fingerprint == game_fingerprint)
    then none
    else some cache

if_fresh : ℕ → Option CachedModMeta → Option CachedModMeta
if_fresh fingerprint none = none
if_fresh fingerprint (some entry) =
    if entry.content_fingerprint == fingerprint then some entry else none

unfoldable pub get_mod_meta : OverrideMetaCache → Text → ℕ → Option CachedModMeta
unfolding if_fresh
get_mod_meta cache id fingerprint = if_fresh fingerprint (get id cache.mods)

unfoldable pub set_mod_meta : OverrideMetaCache → Text → CachedModMeta → OverrideMetaCache
set_mod_meta cache id meta = record cache { mods = TreeMap.insert id meta cache.mods }

unfoldable pub retain_mods : OverrideMetaCache → List Text → OverrideMetaCache
retain_mods cache ids = record cache { mods = retain (λ k _. contains k ids) cache.mods }
