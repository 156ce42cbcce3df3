-- ===== src/Overlay/Collect/Owned.antt =====
-- What pass 1 collects of a mod is the mod's own, and none of it comes from a layer that is off.
use league_mod.Prelude.{
  ℕ, ◌≡◌, refl, sym, subst, true, Option, none, some, List, [], ◌∷◌, Text, arith, if◌then◌else◌,
  Bool-cases, inl, inr, nat_ord, list_ord,
}
use league_mod.Prelude.Assoc
use league_mod.Prelude.Assoc.{get, keys, AllEntries, entry_of}
use league_mod.Prelude.HashMap.{insert, insert-Distinct, insert-AllEntries}
use league_mod.Prelude.Outcome.{Result, ok, >>=-eq-ok}
use league_mod.Overlay.FilePath.{FilePath}
use league_mod.Overlay.Types.{Error, OverrideMeta, OverrideSource, layer_wad, raw}
use league_mod.Overlay.Externals.{Externals}
use league_mod.Overlay.GameIndex.{GameIndex, find_wad, find_best_matching_wad}
use league_mod.Overlay.Content.{ModProjectLayer, EnabledMod, is_layer_active}
use league_mod.Overlay.Collect.{
  ModMeta, Entry, override_of, insert_entries, read_entry, read_entries, fallback_for, collect_wad,
  collect_wads, collect_layer, collect_layers, collect_raw, sort_layers, fill_fallback,
  fill_fallbacks, fill_dominant, any_unroutable, route_unroutable, collect_single_mod_metadata,
}

-- A source in the mod: raw, or in a layer that is active.
abbrev pub IsFrom : EnabledMod → OverrideSource → Type 0
IsFrom m (layer_wad id layer wad_name rel_path) = (id ≡ m.id) × (is_layer_active m layer ≡ true)
IsFrom m (raw id rel_path) = id ≡ m.id

same_ok : (x y : ModMeta) → ◌≡◌ {A = Result Error ModMeta} (ok x) (ok y) → x ≡ y
same_ok x y s = cc s

module _ (m : EnabledMod) where
  abbrev OwnEntry : ℕ → OverrideMeta → Type 0
  OwnEntry h meta = IsFrom m meta.source

  -- Metadata of the mod, with no hash twice.
  abbrev pub IsOwned : ModMeta → Type 0
  IsOwned mod_meta = Assoc.Distinct mod_meta × AllEntries OwnEntry mod_meta

  IsOwned-insert :
      (h : ℕ) (meta : OverrideMeta) (mod_meta : ModMeta)
      → IsFrom m meta.source
      → IsOwned mod_meta
      → IsOwned (insert h meta mod_meta)
  IsOwned-insert h meta mod_meta f (d, a) =
      (insert-Distinct h meta mod_meta d, insert-AllEntries OwnEntry h meta mod_meta f a)

  insert_entries-IsOwned :
      (source : Entry → OverrideSource) (fallback_wad : Option FilePath) (entries : List Entry)
      (mod_meta : ModMeta)
      → ((x : Entry) → IsFrom m (source x))
      → IsOwned mod_meta
      → IsOwned (insert_entries source fallback_wad entries mod_meta)
  unfolding insert_entries override_of
  insert_entries-IsOwned source fallback_wad [] mod_meta f o = o
  insert_entries-IsOwned source fallback_wad (x ∷ entries) mod_meta f o =
      insert_entries-IsOwned source fallback_wad entries _ f
        (IsOwned-insert x.path_hash (override_of (source x) fallback_wad x) mod_meta (f x) o)

  module _ (e : Externals) (g : GameIndex) (game_dir : FilePath) where
    collect_wad-IsOwned :
        (layer wad_name : Text) (mod_meta r : ModMeta)
        → is_layer_active m layer ≡ true
        → IsOwned mod_meta
        → collect_wad e m g game_dir layer wad_name mod_meta ≡ ok r
        → IsOwned r
    unfolding collect_wad
    collect_wad-IsOwned layer wad_name mod_meta r active o at =
        let (files, _, rest) = >>=-eq-ok (m.content.read_wad_overrides layer wad_name) _ at in
        let (entries, _, rest') = >>=-eq-ok (read_entries e files) _ rest in
        let (fallback_wad, _, last) =
          >>=-eq-ok (fallback_for g game_dir entries (find_wad g wad_name)) _ rest' in
        subst IsOwned (same_ok _ _ last)
          (insert_entries-IsOwned _ fallback_wad entries mod_meta (λ x. (refl, active)) o)

    collect_wads-IsOwned :
        (layer : Text) (wad_names : List Text) (mod_meta r : ModMeta)
        → is_layer_active m layer ≡ true
        → IsOwned mod_meta
        → collect_wads e m g game_dir layer wad_names mod_meta ≡ ok r
        → IsOwned r
    unfolding collect_wads
    collect_wads-IsOwned layer [] mod_meta r active o at = subst IsOwned (same_ok _ _ at) o
    collect_wads-IsOwned layer (wad_name ∷ wad_names) mod_meta r active o at =
        let (mod_meta', at_wad, rest) =
          >>=-eq-ok (collect_wad e m g game_dir layer wad_name mod_meta) _ at in
        collect_wads-IsOwned layer wad_names mod_meta' r active
          (collect_wad-IsOwned layer wad_name mod_meta mod_meta' active o at_wad) rest

    collect_layer-IsOwned :
        (layer : Text) (mod_meta r : ModMeta)
        → is_layer_active m layer ≡ true
        → IsOwned mod_meta
        → collect_layer e m g game_dir layer mod_meta ≡ ok r
        → IsOwned r
    unfolding collect_layer
    collect_layer-IsOwned layer mod_meta r active o at =
        let (wad_names, _, rest) = >>=-eq-ok (m.content.list_layer_wads layer) _ at in
        collect_wads-IsOwned layer wad_names mod_meta r active o rest

    collect_layers-IsOwned :
        (layers : List ModProjectLayer) (mod_meta r : ModMeta)
        → IsOwned mod_meta
        → collect_layers e m g game_dir layers mod_meta ≡ ok r
        → IsOwned r
    unfolding collect_layers
    collect_layers-IsOwned [] mod_meta r o at = subst IsOwned (same_ok _ _ at) o
    collect_layers-IsOwned (layer ∷ layers) mod_meta r o at =
        let (mod_meta', at_layer, rest) =
          >>=-eq-ok
            (if is_layer_active m layer.name
              then collect_layer e m g game_dir layer.name mod_meta
              else ok mod_meta)
            _ at in
        collect_layers-IsOwned layers mod_meta' r
          (elim (Bool-cases (is_layer_active m layer.name)) [
            | inl t ↦
                collect_layer-IsOwned layer.name mod_meta mod_meta' t o
                  (ground (arith, at_layer, t))
            | inr t ↦ subst IsOwned (same_ok _ _ (ground (arith, at_layer, t))) o
          ])
          rest

    collect_raw-IsOwned :
        (files : List (FilePath × List ℕ)) (mod_meta r : ModMeta)
        → IsOwned mod_meta
        → collect_raw e m g game_dir files mod_meta ≡ ok r
        → IsOwned r
    unfolding collect_raw override_of
    collect_raw-IsOwned [] mod_meta r o at = subst IsOwned (same_ok _ _ at) o
    collect_raw-IsOwned ((rel_path, bytes) ∷ files) mod_meta r o at =
        let (x, _, rest) = >>=-eq-ok (read_entry e rel_path bytes) _ at in
        collect_raw-IsOwned files _ r
          (IsOwned-insert x.path_hash (override_of (raw m.id x.rel_path) none x) mod_meta refl o)
          rest

  get-fill_fallbacks :
      (wad : FilePath) (h : ℕ) (mod_meta : ModMeta)
      → get h mod_meta ≡ none
      → get h (fill_fallbacks wad mod_meta) ≡ none
  unfolding fill_fallbacks
  get-fill_fallbacks wad h [] n = refl
  get-fill_fallbacks wad h ((j, meta) ∷ mod_meta) n =
      ground (arith, get-fill_fallbacks wad h mod_meta)

  source-fill_fallback :
      (wad : FilePath) (meta : OverrideMeta) → (fill_fallback wad meta).source ≡ meta.source
  unfolding fill_fallback
  source-fill_fallback wad meta = ground arith

  fill_fallbacks-IsOwned :
      (wad : FilePath) (mod_meta : ModMeta)
      → IsOwned mod_meta
      → IsOwned (fill_fallbacks wad mod_meta)
  unfolding fill_fallbacks
  fill_fallbacks-IsOwned wad [] o = o
  fill_fallbacks-IsOwned wad ((h, meta) ∷ mod_meta) ((n, d), (f, a)) =
      let (d', a') = fill_fallbacks-IsOwned wad mod_meta (d, a) in
      (
        (get-fill_fallbacks wad h mod_meta n, d'),
        (subst (IsFrom m) (sym (source-fill_fallback wad meta)) f, a'),
      )

  fill_dominant-IsOwned :
      (wad : Option FilePath) (mod_meta : ModMeta)
      → IsOwned mod_meta
      → IsOwned (fill_dominant wad mod_meta)
  unfolding fill_dominant
  fill_dominant-IsOwned none mod_meta o = o
  fill_dominant-IsOwned (some wad) mod_meta o = fill_fallbacks-IsOwned wad mod_meta o

  route_unroutable-IsOwned :
      (g : GameIndex) (mod_meta : ModMeta)
      → IsOwned mod_meta
      → IsOwned (route_unroutable g mod_meta)
  unfolding route_unroutable
  route_unroutable-IsOwned g mod_meta o = elim (Bool-cases (any_unroutable mod_meta)) [
    | inl t ↦ rw t (fill_dominant-IsOwned (find_best_matching_wad g (keys mod_meta)) mod_meta o)
    | inr t ↦ rw t o
  ]

  pub collect-IsOwned :
      (e : Externals) (g : GameIndex) (game_dir : FilePath) (r : ModMeta)
      → collect_single_mod_metadata e m g game_dir ≡ ok r
      → IsOwned r
  unfolding collect_single_mod_metadata
  collect-IsOwned e g game_dir r at =
      let (layers, _, rest) = >>=-eq-ok m.content.layers _ at in
      let (mod_meta, at_layers, rest') =
        >>=-eq-ok (collect_layers e m g game_dir (sort_layers layers) []) _ rest in
      let (files, _, rest'') = >>=-eq-ok m.content.read_raw_overrides _ rest' in
      let (mod_meta', at_raw, last) =
        >>=-eq-ok (collect_raw e m g game_dir files mod_meta) _ rest'' in
      subst IsOwned (same_ok _ _ last) (
        route_unroutable-IsOwned g mod_meta' (
          collect_raw-IsOwned e g game_dir files mod_meta mod_meta'
            (collect_layers-IsOwned e g game_dir (sort_layers layers) [] mod_meta (tt, tt)
              at_layers)
            at_raw))

-- Each override that pass 1 collects of a mod has a source in that mod, and if it is from a layer,
-- the layer is active.
pub collect_owned :
    (e : Externals) (m : EnabledMod) (g : GameIndex) (game_dir : FilePath) (r : ModMeta) (h : ℕ)
    (meta : OverrideMeta)
    → collect_single_mod_metadata e m g game_dir ≡ ok r
    → get h r ≡ some meta
    → IsFrom m meta.source
collect_owned e m g game_dir r h meta at at_h =
    entry_of (OwnEntry m) h meta r (collect-IsOwned m e g game_dir r at).1 at_h
