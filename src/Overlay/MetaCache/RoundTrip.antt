-- ===== src/Overlay/MetaCache/RoundTrip.antt =====
-- What is cached of a mod comes back.
use league_mod.Prelude.{
  ℕ, ◌≡◌, refl, ap, ◌∙◌, subst, Option, none, some, [], ◌∷◌, Text, arith, if◌then◌else◌, ◌==◌,
  nat_ord, Bool-cases, inl, inr, eq→≡,
}
use league_mod.Prelude.Assoc.{get, Distinct}
use league_mod.Prelude.HashMap.{HashMap, insert, get-insert}
use league_mod.Overlay.FilePath.{FilePath, IsRelative, from-as_str}
use league_mod.Overlay.Types.{OverrideMeta, OverrideSource, layer_wad, raw, mod_id}
use league_mod.Overlay.MetaCache.{
  restore, reconstruct_from, reconstruct, cached_entry, cached_entries, cached_source,
  cached_fields, from_override_meta, from_text, to_text,
}

-- `OverrideSource::rel_path`
unfoldable pub rel_path : OverrideSource → FilePath
rel_path (layer_wad id layer wad_name path) = path
rel_path (raw id path) = path

-- Metadata of the mod `id`, with relative paths.
pub record IsOwn (id : Text) (meta : OverrideMeta) : Type 0 where
  pub owner : mod_id meta.source ≡ id
  pub source_path : IsRelative (rel_path meta.source)
  pub target : (w : FilePath) → meta.fallback_wad ≡ some w → IsRelative w

source_back :
    (id : Text) (s : OverrideSource)
    → mod_id s ≡ id
    → IsRelative (rel_path s)
    → let (layer, wad_name, path) = cached_fields s in cached_source id layer wad_name path ≡ s
unfolding cached_fields cached_source mod_id rel_path
source_back id (layer_wad i layer wad_name path) e r = rw (from-as_str path r, e)
source_back id (raw i path) e r = rw (from-as_str path r, e)

target_back :
    (o : Option FilePath) → ((w : FilePath) → o ≡ some w → IsRelative w) → from_text (to_text o) ≡ o
target_back none r = refl
target_back (some w) r = rw (from-as_str w (r w refl))

restore-cached_entry :
    (id : Text) (h : ℕ) (meta : OverrideMeta)
    → IsOwn id meta
    → restore id (cached_entry h meta) ≡ meta
unfolding restore cached_entry
restore-cached_entry id h meta own = ground (
  arith,
  source_back id meta.source own.owner own.source_path,
  target_back meta.fallback_wad own.target,
)

abbrev pub AllOwn : Text → HashMap ℕ OverrideMeta → Type 0
AllOwn id [] = Unit {0}
AllOwn id ((h, meta) ∷ m) = IsOwn id meta × AllOwn id m

abbrev or_before : Option OverrideMeta → Option OverrideMeta → Option OverrideMeta
or_before none old = old
or_before (some meta) old = some meta

get-reconstruct_from :
    (id : Text) (m acc : HashMap ℕ OverrideMeta) (j : ℕ)
    → Distinct m
    → AllOwn id m
    → get j (reconstruct_from id (cached_entries m) acc) ≡ or_before (get j m) (get j acc)
unfolding reconstruct_from cached_entries cached_entry
get-reconstruct_from id [] acc j d own = refl
get-reconstruct_from id ((h, meta) ∷ m) acc j d own =
    get-reconstruct_from id m (insert h (restore id (cached_entry h meta)) acc) j d.1 own.1
    ∙ ap (or_before (get j m)) (get-insert h j _ acc)
    ∙ rw (restore-cached_entry id h meta own.0)
        (step (get j m) λ e. subst (λ u. get u m ≡ none) e d.0)
  where
    step :
        (rest : Option OverrideMeta)
        → (h ≡ j → rest ≡ none)
        → or_before rest (if h == j then some meta else get j acc)
          ≡ or_before (if h == j then some meta else rest) (get j acc)
    step none fresh = elim (Bool-cases (h == j)) [ inl t ↦ rw t | inr t ↦ rw t ]
    step (some other) fresh = elim (Bool-cases (h == j)) [
      | inl t ↦ cc (fresh (eq→≡ h j t))
      | inr t ↦ rw t
    ]

-- For metadata of one mod with no hash twice and relative paths: what is reconstructed from its
-- cache entry has at every hash the metadata that was cached.
pub reconstruct-from_override_meta :
    (id : Text) (fingerprint : ℕ) (mod_meta : HashMap ℕ OverrideMeta) (h : ℕ)
    → Distinct mod_meta
    → AllOwn id mod_meta
    → get h (reconstruct (from_override_meta fingerprint mod_meta) id) ≡ get h mod_meta
unfolding reconstruct from_override_meta
reconstruct-from_override_meta id fingerprint mod_meta h d own =
    get-reconstruct_from id mod_meta [] h d own ∙ keep (get h mod_meta)
  where
    keep : (o : Option OverrideMeta) → or_before o none ≡ o
    keep none = refl
    keep (some meta) = refl
