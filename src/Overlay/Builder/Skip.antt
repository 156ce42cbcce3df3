-- ===== src/Overlay/Builder/Skip.antt =====
-- The builds that find nothing to do.
use league_mod.Prelude.{
  ◌≡◌, refl, ◌∙◌, Bool, true, some, List, [], ◌∷◌, ◌≢◌, Text, arith, map, nat_ord, list_ord,
}
use league_mod.Prelude.Assoc.{keys}
use league_mod.Prelude.Outcome.{Result, ok}
use league_mod.Overlay.FilePath.{from}
use league_mod.Overlay.Types.{Error}
use league_mod.Overlay.State.{OverlayState, load, saved, matches}
use league_mod.Overlay.GameIndex.{GameIndex}
use league_mod.Overlay.AllMods.{mod_ids}
use league_mod.Overlay.World.{World, exists}
use league_mod.Overlay.Builder.{
  OverlayBuilder, all_exist, is_exact_match, build_skip, build_from, build_indexed, build,
  effective_blocked_wads, validate_wads_exist,
}
use league_mod.Overlay.Builder.Failure.{begin}

-- The settings of `b` are those of the saved state `s`, on the game `g`.
abbrev pub IsSavedFor : OverlayBuilder → GameIndex → OverlayState → Type 0
IsSavedFor b g s =
    (b.has_data_final ≡ true)
    × (b.game_index ≡ ok g)
    × (b.enabled_mods ≢ [])
    × (matches s (mod_ids b.enabled_mods) g.game_fingerprint (effective_blocked_wads b) ≡ true)

pub all_exist-overlay :
    (w w' : World) (paths : List Text)
    → w.overlay ≡ w'.overlay
    → all_exist w paths ≡ all_exist w' paths
unfolding all_exist exists
all_exist-overlay w w' [] e = refl
all_exist-overlay w w' (path ∷ paths) e = ground (arith, all_exist-overlay w w' paths e)

begin-at :
    (b : OverlayBuilder) (g : GameIndex) (has : Bool) (r : Result Error GameIndex) (w : World)
    → has ≡ true
    → r ≡ ok g
    → begin b has r w ≡ build_indexed b g w
begin-at b g has r w e f = rw (e, f) refl

pub build-eq-indexed :
    (b : OverlayBuilder) (g : GameIndex) (w : World)
    → b.has_data_final ≡ true
    → b.game_index ≡ ok g
    → build b w ≡ build_indexed b g (record w { last_linked_bin_offenders = [] })
unfolding build
build-eq-indexed b g w has at_g = begin-at b g b.has_data_final b.game_index _ has at_g

pub build_indexed-eq-from :
    (b : OverlayBuilder) (g : GameIndex) (s : OverlayState) (w : World)
    → w.state_file ≡ saved s
    → b.enabled_mods ≢ []
    → build_indexed b g w ≡ build_from b g (some s) w
unfolding build_indexed load
build_indexed-eq-from b g s w at_w mods = ground arith

-- With the settings of the saved state on an indexed game, some mod enabled, and all WADs of the
-- state in the overlay directory, a build succeeds, reuses all these WADs and changes nothing but
-- the offenders, which become those of the state: whatever the mods contain.
pub build_skips :
    (b : OverlayBuilder) (g : GameIndex) (s : OverlayState) (w : World)
    → IsSavedFor b g s
    → w.state_file ≡ saved s
    → validate_wads_exist w s ≡ true
    → build b w ≡ (
      ok (record { wads_built = []; wads_reused = map from (keys s.wad_fingerprints) }),
      record w { last_linked_bin_offenders = s.linked_bin_offenders },
    )
unfolding build_from build_skip is_exact_match validate_wads_exist
build_skips b g s w (has, at_g, mods, m) at_w there =
    let w' = record w { last_linked_bin_offenders = [] } in
    let same = all_exist-overlay w w' (keys s.wad_fingerprints) refl in
    let skip : build_from b g (some s) w' ≡ build_skip b g s w' = ground arith in
    build-eq-indexed b g w has at_g ∙ build_indexed-eq-from b g s w' at_w mods ∙ skip
