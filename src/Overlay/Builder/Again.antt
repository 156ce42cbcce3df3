-- ===== src/Overlay/Builder/Again.antt =====
-- A second build after one that succeeded finds nothing to do.
use league_mod.Prelude.{
  ℕ, ◌≡◌, ◌≢◌, refl, sym, ap, subst, ◌∙◌, Bool, true, Option, none, some, Option-cases, List, [],
  ◌∷◌, map, Text, arith, Bool-cases, inl, inr, eq_refl, nat_ord, list_ord,
}
use league_mod.Prelude.Assoc.{get, keys, is_some}
use league_mod.Prelude.TreeMap.{TreeMap}
use league_mod.Prelude.Outcome.{Result, ok, err}
use league_mod.Overlay.Types.{Error}
use league_mod.Overlay.FilePath.{FilePath, IsRelative, as_str, from, from-as_str}
use league_mod.Overlay.State.{OverlayState, saved, load, matches}
use league_mod.Overlay.GameIndex.{GameIndex}
use league_mod.Overlay.Content.{EnabledMod}
use league_mod.Overlay.Partition.Keys.{AllKeys}
use league_mod.Overlay.AllMods.{AllMeta, mod_ids}
use league_mod.Overlay.World.{World, exists}
use league_mod.Overlay.Builder.{
  OverlayBuilder, OverlayBuildResult, incremental, is_exact_match, effective_blocked_wads,
  all_exist, validate_wads_exist, build_skip, build_changed, build_from, build_indexed, build,
}
use league_mod.Overlay.Builder.Steps.{build_wads-saves}
use league_mod.Overlay.Builder.Fresh.{IsReady, parts, finish, fresh_at}
use league_mod.Overlay.Builder.Described.{parts-AllKeys, recorded}
use league_mod.Overlay.Builder.Skip.{all_exist-overlay, build-eq-indexed, build_skips}
use league_mod.Overlay.Builder.Settled.{
  AreSound, IsSettled, PrevDescribes, Describes-overlay, build_with-eq-ok, ready,
}
use league_mod.Overlay.Builder.Invariant.{prev_saved, saved_state, indexed}

all_exist-keys :
    (w : World) (fps : TreeMap Text ℕ)
    → AllKeys fps
    → ((v : FilePath) → IsRelative v → is_some (get (as_str v) fps) ≡ true → exists w v ≡ true)
    → all_exist w (keys fps) ≡ true
unfolding all_exist
all_exist-keys w [] a there = refl
all_exist-keys w ((k, fp) ∷ fps) ((v, rv, e), a) there =
    let here : exists w (from k) ≡ true =
      rw (e, from-as_str v rv) (there v rv (rw (e, eq_refl (as_str v)) refl)) in
    rw here (all_exist-keys w fps a λ u ru s. there u ru (ground arith))

module _ (b : OverlayBuilder) (g : GameIndex) where
  -- The saved state is for these settings, and all its WADs are there.
  abbrev pub IsComplete : World → Type 0
  IsComplete w =
      (s : OverlayState) × (w.state_file ≡ saved s)
      × (matches s (mod_ids b.enabled_mods) g.game_fingerprint (effective_blocked_wads b) ≡ true)
      × (validate_wads_exist w s ≡ true)

  module _ (m : AllMeta) (prev_state : Option OverlayState) (can_incremental : Bool)
      (w : World) where
    recorded_exists :
        (r : OverlayBuildResult)
        → IsReady b g m prev_state can_incremental w
        → (finish b g m prev_state can_incremental w).0 ≡ ok r
        → (v : FilePath) → IsRelative v
        → is_some (get (as_str v) (parts b g m prev_state can_incremental w).new_wad_fingerprints)
          ≡ true
        → exists (finish b g m prev_state can_incremental w).1 v ≡ true
    unfolding exists
    recorded_exists r i e v rv s =
        elim (Option-cases
          (get (as_str v) (parts b g m prev_state can_incremental w).new_wad_fingerprints)) [
            | inl n ↦ let no : ⊥ = ground arith in absurd no
            | inr (fp, at) ↦
                let (hs, at_v, _) =
                  recorded b g m prev_state can_incremental w v fp i.relative rv at in
                let (bytes, there, _) =
                  fresh_at b g m prev_state can_incremental w r v hs i rv at_v e in
                rw there refl
          ]

    IsComplete-finish :
        (r : OverlayBuildResult)
        → IsReady b g m prev_state can_incremental w
        → (finish b g m prev_state can_incremental w).0 ≡ ok r
        → IsComplete (finish b g m prev_state can_incremental w).1
    unfolding validate_wads_exist
    IsComplete-finish r i e =
        let (s, at_s, same, fits) = build_wads-saves b g m prev_state can_incremental _ w r e in
        (
          s,
          at_s,
          fits,
          subst (λ fps. all_exist (finish b g m prev_state can_incremental w).1 (keys fps) ≡ true)
              (sym same)
              (all_exist-keys _ _ (parts-AllKeys b g m prev_state can_incremental w i.relative)
                (recorded_exists r i e)),
        )

  IsComplete-changed :
      (prev_state : Option OverlayState) (w : World) (r : OverlayBuildResult)
      → AreSound b g w
      → PrevDescribes b g prev_state w
      → (build_changed b g prev_state w).0 ≡ ok r
      → IsComplete (build_changed b g prev_state w).1
  unfolding build_changed
  IsComplete-changed prev_state w r sound before e =
      let (m, at, u, same, last) =
        build_with-eq-ok b g prev_state (incremental prev_state g.game_fingerprint) w r e in
      subst (λ (x : Result Error OverlayBuildResult × World). IsComplete x.1) (sym last)
        (IsComplete-finish m prev_state (incremental prev_state g.game_fingerprint) u r
          (ready b g prev_state m u w sound before at same) (ap (λ x. x.0) (sym last) ∙ e))

  exact_parts :
      (s : OverlayState) (w : World)
      → is_exact_match b g s w ≡ true
      → (matches s (mod_ids b.enabled_mods) g.game_fingerprint (effective_blocked_wads b) ≡ true)
        × (validate_wads_exist w s ≡ true)
  unfolding is_exact_match
  exact_parts s w e = (ground arith, ground arith)

  IsComplete-from :
      (prev_state : Option OverlayState) (w : World) (r : OverlayBuildResult)
      → AreSound b g w
      → PrevDescribes b g prev_state w
      → load w.state_file ≡ ok prev_state
      → (build_from b g prev_state w).0 ≡ ok r
      → IsComplete (build_from b g prev_state w).1
  unfolding build_from build_skip validate_wads_exist
  IsComplete-from none w r sound before at e = IsComplete-changed none w r sound before e
  IsComplete-from (some s) w r sound before at e = elim (Bool-cases (is_exact_match b g s w)) [
    | inl t ↦ rw t (
      s,
      saved_state w.state_file s at,
      (exact_parts s w t).0,
      all_exist-overlay (record w { last_linked_bin_offenders = s.linked_bin_offenders }) w
            (keys s.wad_fingerprints) refl
          ∙ (exact_parts s w t).1,
    )
    | inr t ↦ rw t (IsComplete-changed (some s) w r sound before (ground (arith, t)))
  ]

  IsComplete-indexed :
      (mods : List EnabledMod) (l : Result Error (Option OverlayState)) (w : World)
      (r : OverlayBuildResult)
      → AreSound b g w
      → IsSettled b g w
      → load w.state_file ≡ l
      → mods ≢ []
      → (indexed b g mods l w).0 ≡ ok r
      → IsComplete (indexed b g mods l w).1
  IsComplete-indexed mods (err e') w r sound before at n e = cc e
  IsComplete-indexed [] (ok prev_state) w r sound before at n e = absurd (n refl)
  IsComplete-indexed (m ∷ mods) (ok prev_state) w r sound before at n e =
      IsComplete-from prev_state w r sound
        (λ s p f. before s (prev_saved w.state_file prev_state s at p) f) at e

-- Under the conditions of `build_describes`, and with some mod enabled: after a build that
-- succeeds, the same build again is skipped. It writes no WAD, reuses each WAD of the saved state,
-- and changes nothing but the offenders, which are those that were saved.
pub build_again_skips :
    (b : OverlayBuilder) (g : GameIndex) (w : World) (r : OverlayBuildResult)
    → b.has_data_final ≡ true
    → b.game_index ≡ ok g
    → b.enabled_mods ≢ []
    → AreSound b g w
    → IsSettled b g w
    → (build b w).0 ≡ ok r
    → (s : OverlayState) × ((build b w).1.state_file ≡ saved s)
      × (build b (build b w).1 ≡ (
        ok (record { wads_built = []; wads_reused = map from (keys s.wad_fingerprints) }),
        record (build b w).1 { last_linked_bin_offenders = s.linked_bin_offenders },
      ))
unfolding build_indexed
build_again_skips b g w r has at_g mods sound settled e =
    let w' = record w { last_linked_bin_offenders = [] } in
    let begins = build-eq-indexed b g w has at_g in
    let (s, at_s, fits, there) =
      subst (λ (x : Result Error OverlayBuildResult × World). IsComplete b g x.1) (sym begins)
        (IsComplete-indexed b g b.enabled_mods (load w.state_file) w' r sound
          (λ s at f. Describes-overlay b g s w w' refl (settled s at f)) refl mods
          (ap (λ x. x.0) (sym begins) ∙ e)) in
    (s, at_s, build_skips b g s (build b w).1 (has, at_g, mods, fits) at_s there)
