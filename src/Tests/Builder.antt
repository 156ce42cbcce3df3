-- ===== src/Tests/Builder.antt =====
-- Builds of the example mod.
use league_mod.Prelude.{
  ◌↔◌, map, ℕ, ◌≡◌, refl, sym, ap, ◌∙◌, subst, none, some, List, [], ◌∷◌, Text, text, Bool, true,
  false, nat_ord, list_ord, ◌==◌, if◌then◌else◌,
}
use league_mod.Prelude.Assoc.{get, keys}
use league_mod.Prelude.Outcome.{ok}
use league_mod.Overlay.FilePath.{IsRelative, from}
use league_mod.Overlay.Types.{OverrideMeta, wad_builder_error}
use league_mod.Overlay.Content.{EnabledMod}
use league_mod.Overlay.Distribute.{distribute_override_hashes, remove_blocked}
use league_mod.Overlay.Partition.Keys.{AllRelative}
use league_mod.Overlay.Resolve.{Overrides, mod_at, find_mod, read_source}
use league_mod.Overlay.Resolve.Contents.{IsStable}
use league_mod.Overlay.AllMods.{AllMeta}
use league_mod.Overlay.Builder.{
  rebuild_all, build, build_changed, clean_stale_wads, routing, with_blocked_wads,
}
use league_mod.Overlay.Builder.Steps.{IsBuilt}
use league_mod.Overlay.Builder.Failure.{IsLeft, build_failure_keeps_state}
use league_mod.Overlay.Builder.Again.{build_again_skips}
use league_mod.Overlay.State.{OverlayState, saved}
use league_mod.Overlay.Distribute.Routes.{has}
use league_mod.Overlay.Builder.Routing.{IsRouted, routing_exact}
use league_mod.Overlay.Builder.Rebuild.{rebuild_describes}
use league_mod.Overlay.Builder.Blocked.{routing_blocked}
use league_mod.Overlay.Builder.Stale.{get-clean_stale_wads}
use league_mod.Overlay.Patch.{patch_wads_parallel}
use league_mod.Overlay.Patch.Done.{PatchedAt, patch_wads_done}
use league_mod.Overlay.Resolve.Exact.{HasContents, resolve_exact}
use league_mod.Overlay.Builder.Settled.{AreSound, IsSettled, build_changed_fresh}
use league_mod.Overlay.Builder.Invariant.{IsDescribed, build_describes}
use league_mod.Tests.Data.{
  total, a_wad, a_meta, a_metas, a_mod, a_game, a_builder, empty_world, computed, pass_1, run,
  a_collected, at_collected, a_state, built_world, failing_builder, failed_world, rebuilds, fails,
}

pub a_wad-IsRelative : IsRelative a_wad
a_wad-IsRelative = record {
  nonempty = λ e. cc;
  components = (
    record { nonempty = refl; no_separator = refl },
    (record { nonempty = refl; no_separator = refl }, tt),
  );
}

a_routing-AllRelative :
    (m : AllMeta) → m.all_meta ≡ (1, a_meta) ∷ [] → AllRelative (routing a_builder a_game m)
unfolding computed
a_routing-AllRelative m e =
    subst (λ x. AllRelative (remove_blocked [] (distribute_override_hashes a_game x))) (sym e)
      (a_wad-IsRelative, tt)

pub same_some : {A : Type 0} (c : Bool) (x y : A) → (if c then some x else none) ≡ some y → y ≡ x
same_some true x y e = cc e
same_some false x y e = cc e

pub one_entry : (h : ℕ) (meta : OverrideMeta) → get h ((1, a_meta) ∷ []) ≡ some meta → meta ≡ a_meta
one_entry h meta e = same_some (1 == h) a_meta meta e

at_index :
    (c : Bool) (m : EnabledMod)
    → mod_at (a_mod ∷ []) (if c then some 0 else none) ≡ some m
    → m ≡ a_mod
unfolding mod_at
at_index true m e = cc e
at_index false m e = cc e

sole_mod : (id : Text) (m : EnabledMod) → find_mod (a_mod ∷ []) id ≡ some m → m ≡ a_mod
unfolding find_mod computed
sole_mod id m e = at_index (text "m" == id) m e

a_mod-IsStable : IsStable total ((1, a_meta) ∷ []) (a_mod ∷ [])
unfolding computed read_source
a_mod-IsStable id m found h meta bytes at_h own read =
    let same : ok (5 ∷ []) ≡ ok bytes =
      sym (ap (λ x. read_source x.content a_meta.source) (sole_mod id m found))
      ∙ sym (ap (λ x. read_source m.content x.source) (one_entry h meta at_h))
      ∙ read in
    let five : (5 ∷ []) ≡ bytes = cc same in
    ap total (sym five) ∙ sym (ap (λ x. x.content_hash) (one_entry h meta at_h))

sound : AreSound a_builder a_game empty_world
sound m at =
    let one : m.all_meta ≡ (1, a_meta) ∷ [] = ap a_metas (sym at) ∙ pass_1 in
    (
      a_routing-AllRelative m one,
      subst (λ x. IsStable total x (a_mod ∷ [])) (sym one) a_mod-IsStable,
    )

unsettled : IsSettled a_builder a_game empty_world
unsettled s at f = cc at

build_describes_example : IsDescribed a_builder a_game (build a_builder empty_world).1
build_describes_example =
    build_describes a_builder a_game empty_world _ refl refl sound unsettled run

build_changed_fresh_example :
    (bytes : List ℕ) × (get a_wad (build_changed a_builder a_game none empty_world).1.overlay
      ≡ some bytes)
    × IsBuilt a_builder a_game a_wad 6 bytes
unfolding computed
build_changed_fresh_example =
    build_changed_fresh a_builder a_game none empty_world
      (record { wads_built = a_wad ∷ []; wads_reused = [] }) a_collected a_wad (1 ∷ []) sound
      (λ s p f. cc p) refl at_collected a_wad-IsRelative refl

resolve_exact_example :
    (overrides : Overrides) × (get a_wad ((a_wad, (1, 5 ∷ []) ∷ []) ∷ []) ≡ some overrides)
    × HasContents total ((1, a_meta) ∷ []) (1 ∷ []) overrides
unfolding computed
resolve_exact_example =
    resolve_exact total ((1, a_meta) ∷ []) (a_mod ∷ []) (a_wad ∷ []) ((a_wad, 1 ∷ []) ∷ [])
      ((a_wad, (1, 5 ∷ []) ∷ []) ∷ []) a_wad (1 ∷ []) a_mod-IsStable refl refl (λ e. cc e) refl

build_failure_keeps_state_example :
    IsLeft failing_builder wad_builder_error built_world.state_file failed_world.state_file
build_failure_keeps_state_example =
    build_failure_keeps_state failing_builder built_world wad_builder_error fails

get-clean_stale_wads_example : get a_wad (clean_stale_wads a_state [] built_world).overlay ≡ none
unfolding computed
get-clean_stale_wads_example =
    get-clean_stale_wads a_state [] a_wad built_world a_wad-IsRelative
      ((a_wad, a_wad-IsRelative, refl), tt)

routing_blocked_example :
    get a_wad (routing (with_blocked_wads a_builder (text "A.wad.CLIENT" ∷ [])) a_game a_collected)
    ≡ none
unfolding computed
routing_blocked_example =
    routing_blocked a_builder (text "A.wad.CLIENT" ∷ []) a_game a_collected a_wad

patch_wads_done_example :
    PatchedAt a_builder.build_patched_wad a_wad
      (some ((1, 5 ∷ []) ∷ []))
      empty_world
      (patch_wads_parallel a_builder.build_patched_wad
        (a_wad ∷ [])
        ((a_wad, (1, 5 ∷ []) ∷ []) ∷ [])
        empty_world).1
unfolding computed
patch_wads_done_example =
    patch_wads_done a_builder.build_patched_wad a_wad (a_wad ∷ []) ((a_wad, (1, 5 ∷ []) ∷ []) ∷ [])
      empty_world (a_wad ∷ []) (refl, tt) refl

build_again_skips_example :
    (s : OverlayState) × (built_world.state_file ≡ saved s)
    × (build a_builder built_world ≡ (
      ok (record { wads_built = []; wads_reused = map from (keys s.wad_fingerprints) }),
      record built_world { last_linked_bin_offenders = s.linked_bin_offenders },
    ))
build_again_skips_example =
    build_again_skips a_builder a_game empty_world
      (record { wads_built = a_wad ∷ []; wads_reused = [] }) refl refl (λ e. cc e) sound unsettled
      run

routing_exact_example :
    (has 1 a_wad (routing a_builder a_game a_collected) ≡ true)
    ↔ IsRouted a_builder a_game a_collected 1 a_wad
routing_exact_example = routing_exact a_builder a_game a_collected 1 a_wad empty_world at_collected

-- The rebuild after the failed build.
rebuild_describes_example :
    IsDescribed a_builder a_game
      (rebuild_all a_builder (record failed_world { cache_file = none })).1
unfolding computed
rebuild_describes_example =
    rebuild_describes a_builder a_game (record failed_world { cache_file = none })
      (record { wads_built = a_wad ∷ []; wads_reused = [] }) refl refl sound rebuilds
