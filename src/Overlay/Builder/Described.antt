-- ===== src/Overlay/Builder/Described.antt =====
-- The state that a build saves describes what it leaves.
use league_mod.Prelude.{
  ℕ, ◌≡◌, sym, ap, subst, ◌∙◌, Bool, Option, some, Option-cases, List, nat_ord, list_ord, inl, inr,
}
use league_mod.Prelude.Assoc.{get}
use league_mod.Prelude.Outcome.{ok}
use league_mod.Prelude.TreeMap.Sorted.{IsSorted-Distinct}
use league_mod.Overlay.FilePath.{FilePath, IsRelative, as_str}
use league_mod.Overlay.State.{OverlayState, wad_fingerprint, saved}
use league_mod.Overlay.GameIndex.{GameIndex}
use league_mod.Overlay.AllMods.{AllMeta}
use league_mod.Overlay.Partition.{partition_wads_from_meta}
use league_mod.Overlay.Partition.Keys.{AllKeys, AllRelative, fingerprint_of, collect-AllKeys}
use league_mod.Overlay.Partition.Exact.{partition_fingerprints}
use league_mod.Overlay.World.{World, exists}
use league_mod.Overlay.Builder.{OverlayBuilder, OverlayBuildResult, routing, partition_of}
use league_mod.Overlay.Builder.Steps.{IsBuilt, Describes, build_wads-saves}
use league_mod.Overlay.Builder.Fresh.{IsReady, routing-IsRouting, parts, finish, new_fp, fresh_at}

module _ (b : OverlayBuilder) (g : GameIndex) (m : AllMeta) (prev_state : Option OverlayState)
    (can_incremental : Bool) (w : World) where
  pub parts-AllKeys :
      AllRelative (routing b g m)
      → AllKeys (parts b g m prev_state can_incremental w).new_wad_fingerprints
  unfolding partition_of partition_wads_from_meta
  parts-AllKeys rs = collect-AllKeys b.externals.xxh3_64 m.all_meta (routing b g m) _ rs tt

  -- A recorded fingerprint is that of a routed WAD.
  pub recorded :
      (v : FilePath) (fp : ℕ)
      → AllRelative (routing b g m)
      → IsRelative v
      → get (as_str v) (parts b g m prev_state can_incremental w).new_wad_fingerprints ≡ some fp
      → (hs : List ℕ) × (get v (routing b g m) ≡ some hs)
        × (new_fp b g m prev_state can_incremental w hs ≡ fp)
  unfolding partition_of
  recorded v fp rs rv e =
      let at =
        partition_fingerprints b.externals.xxh3_64 (exists w) (routing b g m) m.all_meta prev_state
          can_incremental rs
          (IsSorted-Distinct _ (routing-IsRouting b g m prev_state can_incremental w).sorted) v
          rv in
      elim (Option-cases (get v (routing b g m))) [
        | inl n ↦ cc (at, e, ap (fingerprint_of b.externals.xxh3_64 m.all_meta) n)
        | inr (hs, s) ↦ (hs, s, cc (at, e, ap (fingerprint_of b.externals.xxh3_64 m.all_meta) s))
      ]

  pub described_after :
      (r : OverlayBuildResult)
      → IsReady b g m prev_state can_incremental w
      → (finish b g m prev_state can_incremental w).0 ≡ ok r
      → (s : OverlayState) × ((finish b g m prev_state can_incremental w).1.state_file ≡ saved s)
        × Describes b g s (finish b g m prev_state can_incremental w).1
  unfolding wad_fingerprint
  described_after r i e =
      let (s, at_s, same, _) = build_wads-saves b g m prev_state can_incremental _ w r e in
      (
        s,
        at_s,
        (
          subst AllKeys (sym same) (parts-AllKeys i.relative),
          λ v fp bytes rv at there.
              let (hs, at_v, at_fp) =
                recorded v fp i.relative rv (ap (get (as_str v)) (sym same) ∙ at) in
              let (bytes', there', built) =
                fresh_at b g m prev_state can_incremental w r v hs i rv at_v e in
              let one : bytes' ≡ bytes = cc (there', there) in
              subst (λ x. IsBuilt b g v x bytes) at_fp (subst (IsBuilt b g v _) one built),
        ),
      )
