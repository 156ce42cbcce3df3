-- ===== src/Overlay/Builder/Settled.antt =====
-- The invariant of the overlay directory, that every build which succeeds restores.
use league_mod.Prelude.{
  ℕ, ◌≡◌, refl, sym, ap, subst, ◌∙◌, Bool, true, false, Option, none, some, List, arith, eq→≡,
  nat_ord, list_ord, inl, inr,
}
use league_mod.Prelude.Assoc.{get}
use league_mod.Prelude.Outcome.{Result, ok, Result-cases}
use league_mod.Overlay.FilePath.{FilePath, IsRelative}
use league_mod.Overlay.State.{OverlayState, saved, supports_incremental}
use league_mod.Overlay.Types.{Error}
use league_mod.Overlay.GameIndex.{GameIndex}
use league_mod.Overlay.Fingerprint.{compute_wad_fingerprint_from_meta}
use league_mod.Overlay.Partition.Keys.{AllRelative}
use league_mod.Overlay.Resolve.Contents.{IsStable}
use league_mod.Overlay.AllMods.{AllMeta, collect_all_override_metadata}
use league_mod.Overlay.Offenders.{collect_linked_bin_offenders}
use league_mod.Overlay.World.{World, clean_overlay_wads}
use league_mod.Overlay.Builder.{
  OverlayBuilder, OverlayBuildResult, incremental, clean_unless, routing, partition_of,
  collect_meta, build_wads, build_with, build_changed,
}
use league_mod.Overlay.Builder.Steps.{IsBuilt, Describes}
use league_mod.Overlay.Builder.Fresh.{IsReady, fresh_at}

module _ (b : OverlayBuilder) (g : GameIndex) where
  -- What pass 1 finds, with the cache in `w`.
  abbrev pub collected : World → Result Error AllMeta
  collected w =
      collect_all_override_metadata b.externals b.enabled_mods g b.game_dir b.content_hashes
        w.cache_file

  -- The routed WADs have relative paths, and no mod file changes between the passes.
  abbrev pub AreSound : World → Type 0
  AreSound w =
      (m : AllMeta)
      → collected w ≡ ok m
      → AllRelative (routing b g m) × IsStable b.externals.xxh3_64 m.all_meta b.enabled_mods

  -- What was saved for this game describes the overlay directory.
  abbrev pub IsSettled : World → Type 0
  IsSettled w =
      (s : OverlayState)
      → w.state_file ≡ saved s
      → s.game_fingerprint ≡ g.game_fingerprint
      → Describes b g s w

  pub Describes-overlay :
      (s : OverlayState) (u w : World)
      → u.overlay ≡ w.overlay
      → Describes b g s u
      → Describes b g s w
  Describes-overlay s u w e (keys, built) =
      (keys, λ v fp bytes rv at there. built v fp bytes rv at (ap (get v) e ∙ there))

  -- What pass 2 starts from.
  abbrev after_pass_1 : AllMeta → Bool → World → World
  after_pass_1 m can_incremental w = record (clean_unless can_incremental w) {
    cache_file = some m.saved_cache;
    last_mod_wad_reports = m.mod_wad_reports;
    last_linked_bin_offenders =
        collect_linked_bin_offenders b.externals m.all_meta (routing b g m) g;
  }

  -- The last step of a build that is not skipped.
  pub build_with-eq-ok :
      (prev_state : Option OverlayState) (can_incremental : Bool) (w : World)
      (r : OverlayBuildResult)
      → (build_with b g prev_state can_incremental w).0 ≡ ok r
      → (m : AllMeta) × (collected w ≡ ok m)
        × (u : World) × (u.overlay ≡ (clean_unless can_incremental w).overlay)
        × (build_with b g prev_state can_incremental w
            ≡ build_wads b g m prev_state can_incremental
                (partition_of b g m (routing b g m) prev_state can_incremental u)
                u)
  unfolding build_with collect_meta clean_unless clean_overlay_wads
  build_with-eq-ok prev_state true w r e = elim (Result-cases (collected w)) [
    | inr (e', at) ↦ let no : ⊥ = ground arith in absurd no
    | inl (m, at) ↦ (m, at, after_pass_1 m true w, refl, rw (at, build_with) refl)
  ]
  build_with-eq-ok prev_state false w r e = elim (Result-cases (collected w)) [
    | inr (e', at) ↦ let no : ⊥ = ground arith in absurd no
    | inl (m, at) ↦ (m, at, after_pass_1 m false w, refl, rw (at, build_with) refl)
  ]

  incremental-fingerprint :
      (s : OverlayState)
      → supports_incremental s g.game_fingerprint ≡ true
      → s.game_fingerprint ≡ g.game_fingerprint
  unfolding supports_incremental
  incremental-fingerprint s e = eq→≡ s.game_fingerprint g.game_fingerprint (ground arith)

  cleaned :
      (c : Bool) (u w : World)
      → c ≡ true
      → u.overlay ≡ (clean_unless c w).overlay
      → w.overlay ≡ u.overlay
  unfolding clean_unless
  cleaned true u w c e = sym e
  cleaned false u w c e = cc

  abbrev pub PrevDescribes : Option OverlayState → World → Type 0
  PrevDescribes prev_state w =
      (s : OverlayState)
      → prev_state ≡ some s
      → s.game_fingerprint ≡ g.game_fingerprint
      → Describes b g s w

  was_incremental :
      (prev_state : Option OverlayState) (s : OverlayState)
      → prev_state ≡ some s
      → incremental prev_state g.game_fingerprint ≡ true
      → s.game_fingerprint ≡ g.game_fingerprint
  unfolding incremental
  was_incremental none s p c = cc
  was_incremental (some t) s p c =
      let same : t ≡ s = cc p in incremental-fingerprint s (rw (← same) c)

  pub ready :
      (prev_state : Option OverlayState) (m : AllMeta) (u w : World)
      → AreSound w
      → PrevDescribes prev_state w
      → collected w ≡ ok m
      → u.overlay ≡ (clean_unless (incremental prev_state g.game_fingerprint) w).overlay
      → IsReady b g m prev_state (incremental prev_state g.game_fingerprint) u
  ready prev_state m u w sound before at same = record {
    relative = (sound m at).0;
    stable = (sound m at).1;
    described = λ s p c.
        Describes-overlay s w u (cleaned _ u w c same)
          (before s p (was_incremental prev_state s p c));
  }

  -- Where the state saved before, if it is for the same game, describes the overlay directory, the
  -- routed WADs have relative paths and no mod file changes between the passes: a build that is not
  -- skipped and succeeds leaves each WAD that the collected metadata routes to in the overlay
  -- directory, built by `build_patched_wad` from overrides that have the fingerprint of the WAD's
  -- metadata, whether it was rebuilt or reused.
  pub build_changed_fresh :
      (prev_state : Option OverlayState) (w : World) (r : OverlayBuildResult) (m : AllMeta)
      (v : FilePath) (hs : List ℕ)
      → AreSound w
      → PrevDescribes prev_state w
      → (build_changed b g prev_state w).0 ≡ ok r
      → collected w ≡ ok m
      → IsRelative v
      → get v (routing b g m) ≡ some hs
      → (bytes : List ℕ) × (get v (build_changed b g prev_state w).1.overlay ≡ some bytes)
        × IsBuilt b g v (compute_wad_fingerprint_from_meta b.externals.xxh3_64 hs m.all_meta) bytes
  unfolding build_changed
  build_changed_fresh prev_state w r m v hs sound before e at rv at_v =
      let c = incremental prev_state g.game_fingerprint in
      let (m', at', u, same, last) = build_with-eq-ok prev_state c w r e in
      let one : m' ≡ m = cc (at', at) in
      let (bytes, there, built) =
        fresh_at b g m' prev_state c u r v hs (ready prev_state m' u w sound before at' same) rv
          (subst (λ x. get v (routing b g x) ≡ some hs) (sym one) at_v)
          (ap (λ x. x.0) (sym last) ∙ e) in
      (
        bytes,
        ap (λ (x : Result Error OverlayBuildResult × World). get v x.1.overlay) last ∙ there,
        subst
            (λ x.
              IsBuilt b g v (compute_wad_fingerprint_from_meta b.externals.xxh3_64 hs x.all_meta)
                bytes)
            one built,
      )
