-- ===== src/Overlay/Builder/Fresh.antt =====
-- What a build that succeeds leaves for the WADs that the mods override.
use league_mod.Prelude.{
  ℕ, ◌≡◌, refl, sym, ap, subst, ◌∙◌, Bool, true, false, Option, none, some, Option-cases, List,
  arith, if◌then◌else◌, nat_ord, list_ord, Bool-cases, inl, inr,
}
use league_mod.Prelude.Assoc.{get}
use league_mod.Prelude.HashSet
use league_mod.Prelude.HashSet.{contains}
use league_mod.Prelude.TreeMap.{TreeMap}
use league_mod.Prelude.Outcome.{Result, ok}
use league_mod.Overlay.FilePath.{FilePath, IsRelative, as_str}
use league_mod.Overlay.Types.{Error}
use league_mod.Overlay.State.{OverlayState}
use league_mod.Overlay.GameIndex.{GameIndex, or_nil}
use league_mod.Overlay.Fingerprint.{compute_wad_fingerprint_from_meta}
use league_mod.Overlay.Fingerprint.Order.{from_meta-eq-from_bytes}
use league_mod.Overlay.Partition.{Partition}
use league_mod.Overlay.Partition.Keys.{AllRelative}
use league_mod.Overlay.Partition.Exact.{
  partition_fingerprints, partition_reuses, partition_covers, MayReuse,
}
use league_mod.Overlay.Partition.Once.{wads_to_build-Distinct}
use league_mod.Overlay.Distribute.WellFormed.{
  IsProper, IsRouting, distribute-IsRouting, remove_blocked-IsRouting,
}
use league_mod.Prelude.TreeMap.Sorted.{IsSorted-Distinct}
use league_mod.Overlay.Patch.Done.{PatchedAt, PatchedAt-same, patch_wads_done}
use league_mod.Overlay.Resolve.Contents.{IsStable}
use league_mod.Overlay.Resolve.Exact.{resolve_exact}
use league_mod.Overlay.Resolve.{Overrides, resolve_overrides_for_wads}
use league_mod.Overlay.AllMods.{AllMeta}
use league_mod.Overlay.World.{World, exists}
use league_mod.Overlay.Builder.{
  OverlayBuilder, OverlayBuildResult, routing, partition_of, build_wads,
}
use league_mod.Overlay.Builder.Steps.{IsBuilt, Describes, patched, build_wads-eq-ok, kept}

module _ (b : OverlayBuilder) (g : GameIndex) where
  -- The mods' metadata, the game index and the saved state are as a build finds them.
  pub record IsReady (m : AllMeta) (prev_state : Option OverlayState) (can_incremental : Bool)
      (w : World) : Type 0 where
    pub relative : AllRelative (routing b g m)
    pub stable : IsStable b.externals.xxh3_64 m.all_meta b.enabled_mods
    pub described :
        (s : OverlayState) → prev_state ≡ some s → can_incremental ≡ true → Describes b g s w

  module _ (m : AllMeta) (prev_state : Option OverlayState) (can_incremental : Bool)
      (w : World) where
    abbrev pub parts : Partition
    parts = partition_of b g m (routing b g m) prev_state can_incremental w

    abbrev pub finish : Result Error OverlayBuildResult × World
    finish = build_wads b g m prev_state can_incremental parts w

    abbrev pub new_fp : List ℕ → ℕ
    new_fp hs = compute_wad_fingerprint_from_meta b.externals.xxh3_64 hs m.all_meta

    pub routing-IsRouting : IsRouting (routing b g m)
    unfolding routing
    routing-IsRouting =
        remove_blocked-IsRouting b.blocked_wads _ (distribute-IsRouting g m.all_meta)

    at_key :
        (v : FilePath) (hs : List ℕ)
        → AllRelative (routing b g m)
        → IsRelative v
        → get v (routing b g m) ≡ some hs
        → get (as_str v) parts.new_wad_fingerprints ≡ some (new_fp hs)
    unfolding partition_of
    at_key v hs rs r e =
        partition_fingerprints b.externals.xxh3_64 (exists w) (routing b g m) m.all_meta prev_state
          can_incremental rs (IsSorted-Distinct _ routing-IsRouting.sorted) v r
        ∙ rw e refl

    built_once : AllRelative (routing b g m) → HashSet.Distinct parts.wads_to_build
    unfolding partition_of
    built_once rs =
        wads_to_build-Distinct b.externals.xxh3_64 (exists w) (routing b g m) m.all_meta prev_state
          can_incremental rs

    may_reuse :
        (rs : AllRelative (routing b g m)) (v : FilePath) (hs : List ℕ) (rv : IsRelative v)
        → get v (routing b g m) ≡ some hs
        → contains v parts.wads_to_build ≡ false
        → MayReuse b.externals.xxh3_64
            (exists w)
            (routing b g m)
            m.all_meta
            prev_state
            can_incremental
            rs
            (IsSorted-Distinct _ routing-IsRouting.sorted)
            v
            rv
    unfolding partition_of
    may_reuse rs v hs rv e t =
        let d = IsSorted-Distinct _ routing-IsRouting.sorted in
        let covers =
          partition_covers b.externals.xxh3_64 (exists w) (routing b g m) m.all_meta prev_state
            can_incremental rs d v rv in
        (partition_reuses b.externals.xxh3_64 (exists w) (routing b g m) m.all_meta prev_state
            can_incremental rs d v rv).0
          (ground (arith, covers, e, t))

    some_bytes :
        (v : FilePath) → exists w v ≡ true → (bytes : List ℕ) × (get v w.overlay ≡ some bytes)
    unfolding exists
    some_bytes v e = elim (Option-cases (get v w.overlay)) [
      | inl n ↦ let no : ⊥ = ground arith in absurd no
      | inr found ↦ found
    ]

    -- Where the WAD has a new fingerprint, the cleanup leaves what the patching left.
    after_patching :
        (r : OverlayBuildResult) (v : FilePath) (hs : List ℕ)
        → IsReady m prev_state can_incremental w
        → IsRelative v
        → get v (routing b g m) ≡ some hs
        → finish.0 ≡ ok r
        → (overrides : TreeMap FilePath Overrides) × (resolve_overrides_for_wads b.enabled_mods
              parts.wads_to_build
              (routing b g m)
              m.all_meta
            ≡ ok overrides)
          × ((o : Option Overrides)
              → (if contains v parts.wads_to_build then some (or_nil (get v overrides)) else none)
                ≡ o
              → PatchedAt b.build_patched_wad v o w finish.1)
    after_patching r v hs i rv e done_ok =
        let (overrides, at, built, at', ov) =
          build_wads-eq-ok b g m prev_state can_incremental parts w r done_ok in
        (
          overrides,
          at,
          λ o f.
              PatchedAt-same b.build_patched_wad v o w _ _
                (sym (
                  ap (λ u. get v u.overlay) ov
                  ∙ kept b g prev_state can_incremental parts.new_wad_fingerprints v _ rv
                      (rw (at_key v hs i.relative rv e) refl) (λ s p c. (i.described s p c).0)))
                (subst
                  (λ x.
                    PatchedAt b.build_patched_wad v x w
                      (patched b g m prev_state can_incremental parts overrides w).1)
                  f
                  (patch_wads_done b.build_patched_wad v parts.wads_to_build overrides w built
                    (built_once i.relative) at')),
        )

    some_set : (v : FilePath) (hs : List ℕ) → get v (routing b g m) ≡ some hs → IsProper (some hs)
    some_set v hs e = subst IsProper e (routing-IsRouting.proper v)

    rebuilt_at :
        (r : OverlayBuildResult) (v : FilePath) (hs : List ℕ)
        → IsReady m prev_state can_incremental w
        → IsRelative v
        → get v (routing b g m) ≡ some hs
        → finish.0 ≡ ok r
        → contains v parts.wads_to_build ≡ true
        → (bytes : List ℕ) × (get v finish.1.overlay ≡ some bytes) × IsBuilt b g v (new_fp hs) bytes
    rebuilt_at r v hs i rv e done_ok t =
        let (overrides, at, patch) = after_patching r v hs i rv e done_ok in
        let (distinct, nonempty) = some_set v hs e in
        let (o, at_v, contents) =
          resolve_exact b.externals.xxh3_64 m.all_meta b.enabled_mods parts.wads_to_build
            (routing b g m) overrides v hs i.stable t e nonempty at in
        let (bytes, from, there) = patch (some o) (rw (t, at_v) refl) in
        (
          bytes,
          there,
          (
            o,
            from,
            sym (
                from_meta-eq-from_bytes b.externals.xxh3_64 hs m.all_meta o distinct contents.0
                  contents.1),
          ),
        )

    reused_at :
        (r : OverlayBuildResult) (v : FilePath) (hs : List ℕ)
        → IsReady m prev_state can_incremental w
        → IsRelative v
        → get v (routing b g m) ≡ some hs
        → finish.0 ≡ ok r
        → contains v parts.wads_to_build ≡ false
        → (bytes : List ℕ) × (get v finish.1.overlay ≡ some bytes) × IsBuilt b g v (new_fp hs) bytes
    reused_at r v hs i rv e done_ok t =
        let (overrides, at, patch) = after_patching r v hs i rv e done_ok in
        let (hs', at_v, inc, s, prev, old, disk) = may_reuse i.relative v hs rv e t in
        let (bytes, there) = some_bytes v disk in
        let same : hs ≡ hs' = cc (e, at_v) in
        (
          bytes,
          patch none (rw t refl) ∙ there,
          (i.described s prev inc).1 v (new_fp hs) bytes rv (rw same old) there,
        )

    -- Every WAD with overrides is there, and was built from overrides with its new fingerprint.
    pub fresh_at :
        (r : OverlayBuildResult) (v : FilePath) (hs : List ℕ)
        → IsReady m prev_state can_incremental w
        → IsRelative v
        → get v (routing b g m) ≡ some hs
        → finish.0 ≡ ok r
        → (bytes : List ℕ) × (get v finish.1.overlay ≡ some bytes) × IsBuilt b g v (new_fp hs) bytes
    fresh_at r v hs i rv e done_ok = elim (Bool-cases (contains v parts.wads_to_build)) [
      | inl t ↦ rebuilt_at r v hs i rv e done_ok t
      | inr t ↦ reused_at r v hs i rv e done_ok t
    ]
