-- ===== src/Overlay/Builder/Steps.antt =====
-- The steps of pass 2, and what the saved state says of the overlay directory.
use league_mod.Prelude.{
  eq_refl, ℕ, ◌≡◌, refl, ◌∙◌, Bool, true, false, Option, none, some, List, Text, arith, nat_ord,
  list_ord, inl, inr, ap, Option-cases,
}
use league_mod.Prelude.Assoc.{get, contains_key}
use league_mod.Prelude.TreeMap.{TreeMap}
use league_mod.Prelude.Outcome.{ok, Result-cases}
use league_mod.Overlay.FilePath.{FilePath, IsRelative, as_str}
use league_mod.Overlay.State
use league_mod.Overlay.State.{OverlayState, matches, wad_fingerprint, saved}
use league_mod.Overlay.GameIndex.{GameIndex}
use league_mod.Overlay.Fingerprint.{compute_wad_overrides_fingerprint}
use league_mod.Overlay.Partition.{Partition}
use league_mod.Overlay.Partition.Keys.{AllKeys}
use league_mod.Overlay.Builder.Stale.{get-clean_stale_wads}
use league_mod.Overlay.Resolve.{Overrides, resolve_overrides_for_wads}
use league_mod.Overlay.AllMods.{AllMeta, mod_ids}
use league_mod.Overlay.Patch.{done, patch_wads_parallel}
use league_mod.Overlay.World.{World, Build}
use league_mod.Overlay.Builder.{
  OverlayBuilder, OverlayBuildResult, clean_stale_if, routing, build_wads, effective_blocked_wads,
  save,
}

module _ (b : OverlayBuilder) (g : GameIndex) where
  -- The bytes are what `build_patched_wad` makes of overrides with that fingerprint.
  abbrev pub IsBuilt : FilePath → ℕ → List ℕ → Type 0
  IsBuilt v fp bytes =
      (overrides : Overrides) × (b.build_patched_wad v overrides ≡ done bytes)
      × (compute_wad_overrides_fingerprint b.externals.xxh3_64 overrides ≡ fp)

  -- Every recorded WAD that is there was built from overrides with the recorded fingerprint.
  abbrev pub Describes : OverlayState → World → Type 0
  Describes s w =
      AllKeys s.wad_fingerprints
      × ((v : FilePath) (fp : ℕ) (bytes : List ℕ)
          → IsRelative v
          → wad_fingerprint s (as_str v) ≡ some fp
          → get v w.overlay ≡ some bytes
          → IsBuilt v fp bytes)

  module _ (m : AllMeta) (prev_state : Option OverlayState) (can_incremental : Bool)
      (p : Partition) where
    abbrev pub patched : TreeMap FilePath Overrides → Build (List FilePath)
    patched overrides = patch_wads_parallel b.build_patched_wad p.wads_to_build overrides

    -- The world before the state is saved.
    abbrev cleaned : TreeMap FilePath Overrides → World → World
    cleaned overrides w =
        clean_stale_if can_incremental prev_state p.new_wad_fingerprints (patched overrides w).1

    -- The state that is saved.
    abbrev state_of : World → OverlayState
    state_of w =
        record (State.new (mod_ids b.enabled_mods) g.game_fingerprint (effective_blocked_wads b)
          p.new_wad_fingerprints) { linked_bin_offenders = w.last_linked_bin_offenders }

    -- The steps of `build_wads` that can fail, when it succeeds, and the world it leaves.
    pub build_wads-eq-ok :
        (w : World) (r : OverlayBuildResult)
        → (build_wads b g m prev_state can_incremental p w).0 ≡ ok r
        → (overrides : TreeMap FilePath Overrides) × (resolve_overrides_for_wads b.enabled_mods
              p.wads_to_build
              (routing b g m)
              m.all_meta
            ≡ ok overrides)
          × (built : List FilePath) × ((patched overrides w).0 ≡ ok built)
          × ((build_wads b g m prev_state can_incremental p w).1 ≡ record (cleaned overrides w) {
            state_file = saved (state_of (cleaned overrides w));
          })
    unfolding build_wads save
    build_wads-eq-ok w r e =
        elim (Result-cases
          (resolve_overrides_for_wads b.enabled_mods p.wads_to_build (routing b g m) m.all_meta)) [
            | inr (e', at) ↦ let no : ⊥ = ground arith in absurd no
            | inl (overrides, at) ↦ elim (Result-cases (patched overrides w).0) [
              | inr (e', at') ↦ let no : ⊥ = ground arith in absurd no
              | inl (built, at') ↦
                  let u = cleaned overrides w in
                  elim (Option-cases (b.save_failure (state_of u) u.state_file)) [
                    | inr (failure, at_s) ↦ let no : ⊥ = ground arith in absurd no
                    | inl at_s ↦ (
                      overrides,
                      at,
                      built,
                      at',
                      rw (at, build_wads) (rw at' (rw (at_s, save) refl)),
                    )
                  ]
            ]
          ]

    -- The saved state is of this configuration, with the fingerprints of the partition.
    pub build_wads-saves :
        (w : World) (r : OverlayBuildResult)
        → (build_wads b g m prev_state can_incremental p w).0 ≡ ok r
        → (s : OverlayState) × ((build_wads b g m prev_state can_incremental p w).1.state_file
            ≡ saved s)
          × (s.wad_fingerprints ≡ p.new_wad_fingerprints)
          × (matches s (mod_ids b.enabled_mods) g.game_fingerprint (effective_blocked_wads b)
              ≡ true)
    unfolding State.new matches
    build_wads-saves w r e =
        let (overrides, at, built, at', last) = build_wads-eq-ok w r e in
        (
          state_of (cleaned overrides w),
          ap (λ u. u.state_file) last,
          refl,
          rw
              (
                eq_refl (mod_ids b.enabled_mods),
                eq_refl g.game_fingerprint,
                eq_refl (effective_blocked_wads b),
              )
              refl,
        )

  -- What `clean_stale_if` leaves alone.
  pub kept :
      (prev_state : Option OverlayState) (can_incremental : Bool) (new_fps : TreeMap Text ℕ)
      (v : FilePath) (w : World)
      → IsRelative v
      → contains_key (as_str v) new_fps ≡ true
      → ((s : OverlayState)
          → prev_state ≡ some s
          → can_incremental ≡ true
          → AllKeys s.wad_fingerprints)
      → get v (clean_stale_if can_incremental prev_state new_fps w).overlay ≡ get v w.overlay
  unfolding clean_stale_if
  kept none false new_fps v w r c a = refl
  kept (some s) false new_fps v w r c a = refl
  kept none true new_fps v w r c a = refl
  kept (some s) true new_fps v w r c a =
      get-clean_stale_wads s new_fps v w r (a s refl refl) ∙ rw c (ground arith)
