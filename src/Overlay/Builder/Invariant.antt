-- ===== src/Overlay/Builder/Invariant.antt =====
-- Every build that succeeds leaves an overlay directory that its saved state describes.
use league_mod.Prelude.{
  ◌≡◌, refl, sym, ap, subst, ◌∙◌, true, Option, none, some, List, [], ◌∷◌, arith, Bool-cases,
  Option-cases, inl, inr, eq→≡, nat_ord, list_ord,
}
use league_mod.Prelude.Outcome.{Result, ok, err}
use league_mod.Overlay.Types.{Error}
use league_mod.Overlay.State
use league_mod.Overlay.State.{
  OverlayState, StateFile, absent, unreadable, saved, load, matches, wad_fingerprint,
}
use league_mod.Overlay.GameIndex.{GameIndex}
use league_mod.Overlay.Content.{EnabledMod}
use league_mod.Overlay.World.{World, clean_overlay_wads}
use league_mod.Overlay.Builder.{
  OverlayBuilder, OverlayBuildResult, incremental, is_exact_match, save, build_skip, build_empty,
  build_changed, build_from, build_indexed, build, effective_blocked_wads,
}
use league_mod.Overlay.Builder.Steps.{Describes}
use league_mod.Overlay.Builder.Skip.{build-eq-indexed}
use league_mod.Overlay.Builder.Described.{described_after}
use league_mod.Overlay.Builder.Settled.{
  AreSound, IsSettled, PrevDescribes, Describes-overlay, build_with-eq-ok, ready,
}

pub saved_state : (f : StateFile) (s : OverlayState) → load f ≡ ok (some s) → f ≡ saved s
unfolding load
saved_state absent s e = cc
saved_state (unreadable e') s e = cc
saved_state (saved t) s e = cc

pub prev_saved :
    (f : StateFile) (prev_state : Option OverlayState) (s : OverlayState)
    → load f ≡ ok prev_state
    → prev_state ≡ some s
    → f ≡ saved s
prev_saved f prev_state s at p = saved_state f s (at ∙ ap ok p)

module _ (b : OverlayBuilder) (g : GameIndex) where
  -- The saved state describes the overlay directory.
  abbrev pub IsDescribed : World → Type 0
  IsDescribed w = (s : OverlayState) × (w.state_file ≡ saved s) × Describes b g s w

  IsDescribed-changed :
      (prev_state : Option OverlayState) (w : World) (r : OverlayBuildResult)
      → AreSound b g w
      → PrevDescribes b g prev_state w
      → (build_changed b g prev_state w).0 ≡ ok r
      → IsDescribed (build_changed b g prev_state w).1
  unfolding build_changed
  IsDescribed-changed prev_state w r sound before e =
      let (m, at, u, same, last) =
        build_with-eq-ok b g prev_state (incremental prev_state g.game_fingerprint) w r e in
      subst (λ (x : Result _ OverlayBuildResult × World). IsDescribed x.1) (sym last)
        (described_after b g m prev_state (incremental prev_state g.game_fingerprint) u r
          (ready b g prev_state m u w sound before at same) (ap (λ x. x.0) (sym last) ∙ e))

  exact_game :
      (s : OverlayState) (w : World)
      → is_exact_match b g s w ≡ true
      → s.game_fingerprint ≡ g.game_fingerprint
  unfolding is_exact_match matches
  exact_game s w e = eq→≡ s.game_fingerprint g.game_fingerprint (ground arith)

  IsDescribed-from :
      (prev_state : Option OverlayState) (w : World) (r : OverlayBuildResult)
      → AreSound b g w
      → PrevDescribes b g prev_state w
      → load w.state_file ≡ ok prev_state
      → (build_from b g prev_state w).0 ≡ ok r
      → IsDescribed (build_from b g prev_state w).1
  unfolding build_from build_skip
  IsDescribed-from none w r sound before at e = IsDescribed-changed none w r sound before e
  IsDescribed-from (some s) w r sound before at e = elim (Bool-cases (is_exact_match b g s w)) [
    | inl t ↦ rw t (
      s,
      saved_state w.state_file s at,
      Describes-overlay b g s w (record w { last_linked_bin_offenders = s.linked_bin_offenders })
          refl (before s refl (exact_game s w t)),
    )
    | inr t ↦ rw t (IsDescribed-changed (some s) w r sound before (ground (arith, t)))
  ]

  IsDescribed-empty :
      (w : World) (r : OverlayBuildResult)
      → (build_empty b g w).0 ≡ ok r
      → IsDescribed (build_empty b g w).1
  unfolding build_empty save State.new wad_fingerprint
  IsDescribed-empty w r e =
      let s = State.new [] g.game_fingerprint (effective_blocked_wads b) [] in
      let u = clean_overlay_wads w in
      elim (Option-cases (b.save_failure s u.state_file)) [
        | inr (failure, at_s) ↦ let no : ⊥ = ground arith in absurd no
        | inl at_s ↦ rw (at_s, save) (s, refl, (tt, λ v fp bytes rv at there. cc at))
      ]

  abbrev pub indexed :
      List EnabledMod
      → Result Error (Option OverlayState)
      → World
      → Result Error OverlayBuildResult × World
  indexed mods l w = elim l [
    | err e ↦ (err e, w)
    | ok prev_state ↦ elim mods [ [] ↦ build_empty b g w | m ∷ ms ↦ build_from b g prev_state w ]
  ]

  IsDescribed-indexed :
      (mods : List EnabledMod) (l : Result Error (Option OverlayState)) (w : World)
      (r : OverlayBuildResult)
      → AreSound b g w
      → IsSettled b g w
      → load w.state_file ≡ l
      → (indexed mods l w).0 ≡ ok r
      → IsDescribed (indexed mods l w).1
  IsDescribed-indexed mods (err e') w r sound before at e = cc e
  IsDescribed-indexed [] (ok prev_state) w r sound before at e = IsDescribed-empty w r e
  IsDescribed-indexed (m ∷ mods) (ok prev_state) w r sound before at e =
      IsDescribed-from prev_state w r sound
        (λ s p f. before s (prev_saved w.state_file prev_state s at p) f) at e

-- Where the state saved before, if it is for the same game, describes the overlay directory, the
-- game directory is there and indexed, the routed WADs have relative paths, and no mod file changes
-- between the two passes: a build that succeeds, by whatever branch, leaves a saved state that
-- describes the overlay directory, so that each recorded WAD that is there was built by
-- `build_patched_wad` from overrides that have the recorded fingerprint.
pub build_describes :
    (b : OverlayBuilder) (g : GameIndex) (w : World) (r : OverlayBuildResult)
    → b.has_data_final ≡ true
    → b.game_index ≡ ok g
    → AreSound b g w
    → IsSettled b g w
    → (build b w).0 ≡ ok r
    → IsDescribed b g (build b w).1
unfolding build_indexed
build_describes b g w r has at_g sound settled e =
    let w' = record w { last_linked_bin_offenders = [] } in
    let begins = build-eq-indexed b g w has at_g in
    subst (λ (x : Result Error OverlayBuildResult × World). IsDescribed b g x.1) (sym begins)
      (IsDescribed-indexed b g b.enabled_mods (load w.state_file) w' r sound
        (λ s at f. Describes-overlay b g s w w' refl (settled s at f)) refl
        (ap (λ x. x.0) (sym begins) ∙ e))
