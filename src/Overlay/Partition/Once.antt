-- ===== src/Overlay/Partition/Once.antt =====
-- No WAD is rebuilt twice.
use league_mod.Prelude.{
  ℕ, ◌≡◌, refl, Bool, true, false, Option, none, List, [], ◌∷◌, ◌++◌, Text, arith, ◌==◌, eq_refl,
  eq→≡, nat_ord, list_ord, Bool-cases, inl, inr,
}
use league_mod.Prelude.Assoc
use league_mod.Prelude.Assoc.{get, is_some}
use league_mod.Prelude.HashMap.{HashMap}
use league_mod.Prelude.HashSet
use league_mod.Prelude.HashSet.{contains, contains-append_one, append_one-Distinct}
use league_mod.Prelude.TreeMap.{TreeMap}
use league_mod.Prelude.TreeMap.Sorted.{IsSorted-Distinct}
use league_mod.Overlay.FilePath.{FilePath, IsRelative, as_str, from, from-as_str}
use league_mod.Overlay.Types.{OverrideMeta}
use league_mod.Overlay.State.{OverlayState}
use league_mod.Overlay.Distribute.{WadHashes}
use league_mod.Overlay.Partition.{is_reusable, choose, partition_wads_from_meta}
use league_mod.Overlay.Partition.Keys.{AllRelative, AllKeys, collect-IsSorted, collect-AllKeys}

module _ (on_disk : FilePath → Bool) (prev_state : Option OverlayState)
    (can_incremental : Bool) where
  -- No path of the keys that are left is chosen yet.
  abbrev AllNew : TreeMap Text ℕ → List FilePath → Type 0
  AllNew fps chosen =
      (v : FilePath)
      → IsRelative v
      → is_some (get (as_str v) fps) ≡ true
      → contains v chosen ≡ false

  absent_key :
      (v w : FilePath) (k : Text) (fps : TreeMap Text ℕ)
      → get k fps ≡ none
      → k ≡ as_str v
      → (v == w) ≡ true
      → is_some (get (as_str w) fps) ≡ false
  absent_key v w k fps d e t = rw (← eq→≡ v w t, ← e, d) refl

  choose-Distinct :
      (fps : TreeMap Text ℕ) (build reuse : List FilePath)
      → AllKeys fps
      → Assoc.Distinct fps
      → HashSet.Distinct build
      → AllNew fps build
      → HashSet.Distinct (choose on_disk prev_state can_incremental fps build reuse).0
  unfolding choose
  choose-Distinct [] build reuse a d b new = b
  choose-Distinct ((k, fp) ∷ fps) build reuse ((v, r, e), a) d b new =
      elim (Bool-cases (is_reusable on_disk prev_state can_incremental k fp)) [
        | inl t ↦ rw t (
            choose-Distinct fps build (reuse ++ (from k ∷ [])) a d.1 b
              λ w rw' s. new w rw' (ground arith))
        | inr t ↦ rw t (
            choose-Distinct fps (build ++ (from k ∷ [])) reuse a d.1
              (rw at (
                append_one-Distinct v build b
                  (new v r (rw e (ground (arith, eq_refl (as_str v)))))))
              λ w rw' s. rw at (
                ground (
                  arith,
                  contains-append_one v w build,
                  new w rw' (ground arith),
                  absent_key v w k fps d.0 e,
                )))
      ]
    where
      at : from k ≡ v
      at = rw e (from-as_str v r)

-- For sets of relative paths: no WAD is in the list of WADs to rebuild twice.
pub wads_to_build-Distinct :
    (xxh3_64 : List ℕ → ℕ) (on_disk : FilePath → Bool) (sets : WadHashes)
    (all_meta : HashMap ℕ OverrideMeta) (prev_state : Option OverlayState) (can_incremental : Bool)
    → AllRelative sets
    → HashSet.Distinct
        (partition_wads_from_meta xxh3_64 on_disk sets all_meta prev_state
          can_incremental).wads_to_build
unfolding partition_wads_from_meta
wads_to_build-Distinct xxh3_64 on_disk sets all_meta prev_state can_incremental r =
    choose-Distinct on_disk prev_state can_incremental _ [] []
      (collect-AllKeys xxh3_64 all_meta sets [] r tt)
      (IsSorted-Distinct _ (collect-IsSorted xxh3_64 all_meta sets [] tt)) tt (λ w r s. refl)
