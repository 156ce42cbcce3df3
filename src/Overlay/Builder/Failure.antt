-- ===== src/Overlay/Builder/Failure.antt =====
-- What a build that fails leaves in `overlay.json`.
use league_mod.Prelude.{
  nat_ord, list_ord, ℕ, ◌⊎◌, ◌≡◌, refl, subst, ◌∙◌, inl, inr, Bool, true, false, not, Bool-cases,
  Option, none, some, List, [], ◌∷◌, Text, arith, if◌then◌else◌, ◌++◌,
}
use league_mod.Prelude.Assoc.{keys}
use league_mod.Prelude.TreeMap.{TreeMap}
use league_mod.Prelude.Outcome.{Result, ok, err}
use league_mod.Overlay.FilePath.{FilePath}
use league_mod.Overlay.Types.{Error, other}
use league_mod.Overlay.State
use league_mod.Overlay.State.{saved, OverlayState, StateFile, load}
use league_mod.Overlay.GameIndex.{GameIndex}
use league_mod.Overlay.Content.{EnabledMod}
use league_mod.Overlay.Partition.{Partition}
use league_mod.Overlay.Resolve.{Overrides, resolve_overrides_for_wads}
use league_mod.Overlay.Offenders.{collect_linked_bin_offenders}
use league_mod.Overlay.AllMods.{AllMeta, mod_ids}
use league_mod.Overlay.Patch.{Patched, done, failed, write_some, patch_all, patch_wads_parallel}
use league_mod.Overlay.World.{
  World, Build, pure, lift, gets, modify, continue, ◌>>=◌, ◌>>◌, write_wad, clean_overlay_wads,
}
use league_mod.Overlay.Builder.{
  OverlayBuilder, OverlayBuildResult, incremental, clean_unless, clean_stale_if, clean_stale_wads,
  remove_stale, save, partition_of, routing, effective_blocked_wads, is_exact_match, collect_meta,
  build_empty, build_skip, build_wads, build_with, build_changed, build_from, build_indexed, build,
}

-- The method leaves the state file alone.
abbrev Keeps {ℓ} : {A : Type ℓ} → Build A → Type 0
Keeps m = (w : World) → (m w).1.state_file ≡ w.state_file

patch_all-Keeps :
    (build_patched_wad : FilePath → Overrides → Patched) (work : List (FilePath × Overrides))
    (built : List FilePath)
    → Keeps (patch_all build_patched_wad work built)
unfolding patch_all write_some write_wad
patch_all-Keeps f [] built w = refl
patch_all-Keeps f ((path, overrides) ∷ work) built w =
    go (λ bytes. patch_all-Keeps f work (built ++ (path ∷ [])) (write_wad path bytes w))
      (f path overrides)
  where
    go :
        ((bytes : List ℕ)
          → (patch_all f work (built ++ (path ∷ [])) (write_wad path bytes w)).1.state_file
            ≡ w.state_file)
        → (r : Patched)
        → (elim r as (λ _. Result Error (List FilePath) × World) [
          | done bytes ↦ patch_all f work (built ++ (path ∷ [])) (write_wad path bytes w)
          | failed left e ↦ (err e, write_some path left w)
        ]).1.state_file
          ≡ w.state_file
    go ih (done bytes) = ih bytes
    go ih (failed none e) = refl
    go ih (failed (some left) e) = refl

clean_unless-Keeps : (c : Bool) (w : World) → (clean_unless c w).state_file ≡ w.state_file
unfolding clean_unless clean_overlay_wads
clean_unless-Keeps true w = refl
clean_unless-Keeps false w = refl

remove_stale-Keeps :
    (new_fps : TreeMap Text ℕ) (olds : List Text) (w : World)
    → (remove_stale new_fps olds w).state_file ≡ w.state_file
unfolding remove_stale
remove_stale-Keeps new_fps [] w = refl
remove_stale-Keeps new_fps (old ∷ olds) w = remove_stale-Keeps new_fps olds _ ∙ ground arith

clean_stale_if-Keeps :
    (c : Bool) (prev_state : Option OverlayState) (new_fps : TreeMap Text ℕ) (w : World)
    → (clean_stale_if c prev_state new_fps w).state_file ≡ w.state_file
unfolding clean_stale_if clean_stale_wads
clean_stale_if-Keeps true (some s) new_fps w =
    remove_stale-Keeps new_fps (keys s.wad_fingerprints) w
clean_stale_if-Keeps true none new_fps w = refl
clean_stale_if-Keeps false prev_state new_fps w = refl

module _ (b : OverlayBuilder) where
  -- What a failure with `e` makes of the state file: nothing, or what a failed save leaves of it.
  abbrev pub IsLeft : Error → StateFile → StateFile → Type 0
  IsLeft e before after =
      (after ≡ before) ⊎ ((s : OverlayState) × (b.save_failure s before ≡ some (e, after)))

  abbrev KeepsOnFailure {ℓ} : {A : Type ℓ} → Build A → Type ℓ
  KeepsOnFailure m =
      (w : World) (e : Error) → (m w).0 ≡ err e → IsLeft e w.state_file (m w).1.state_file

  kept_before :
      {e : Error} {before between after : StateFile}
      → between ≡ before
      → IsLeft e between after
      → IsLeft e before after
  kept_before {e} {before} {between} {after} same = subst (λ f. IsLeft e f after) same

  >>=-KeepsOnFailure :
      {A B : Type 0} (m : Build A) (f : A → Build B)
      → Keeps m
      → ((a : A) → KeepsOnFailure (f a))
      → KeepsOnFailure (m >>= f)
  >>=-KeepsOnFailure {A} {B} m f keeps rest w e = go (m w).0 (m w).1 (keeps w)
    where
      go :
          (r : Result Error A) (u : World)
          → u.state_file ≡ w.state_file
          → (continue r f u).0 ≡ err e
          → IsLeft e w.state_file (continue r f u).1.state_file
      go (ok a) u same h = kept_before same (rest a u e h)
      go (err e') u same h = inl same

  >>=-pure-KeepsOnFailure :
      {A B : Type 0} (m : Build A) (f : A → B)
      → KeepsOnFailure m
      → KeepsOnFailure (m >>= λ a. pure (f a))
  >>=-pure-KeepsOnFailure {A} {B} m f fails w e = go (m w).0 (m w).1 (fails w e)
    where
      go :
          (r : Result Error A) (u : World)
          → (r ≡ err e → IsLeft e w.state_file u.state_file)
          → (continue r (λ a. pure (f a)) u).0 ≡ err e
          → IsLeft e w.state_file (continue r (λ a. pure (f a)) u).1.state_file
      go (ok a) u left h = cc h
      go (err e') u left h = left (cc h)

  save-KeepsOnFailure : (s : OverlayState) → KeepsOnFailure (save b s)
  unfolding save
  save-KeepsOnFailure s w e = go (b.save_failure s w.state_file) refl
    where
      go :
          (r : Option (Error × StateFile))
          → b.save_failure s w.state_file ≡ r
          → (elim r as (λ _. Result Error (Unit {0}) × World) [
            | none ↦ (ok tt, record w { state_file = saved s })
            | some failure ↦ (err failure.0, record w { state_file = failure.1 })
          ]).0
            ≡ err e
          → IsLeft e w.state_file
              (elim r as (λ _. Result Error (Unit {0}) × World) [
                | none ↦ (ok tt, record w { state_file = saved s })
                | some failure ↦ (err failure.0, record w { state_file = failure.1 })
              ]).1.state_file
      go none at h = cc h
      go (some (e', left)) at h = inr (s, cc (at, h))

module _ (b : OverlayBuilder) (g : GameIndex) where
  build_wads-KeepsOnFailure :
      (m : AllMeta) (prev_state : Option OverlayState) (can_incremental : Bool) (p : Partition)
      → KeepsOnFailure b (build_wads b g m prev_state can_incremental p)
  unfolding build_wads patch_wads_parallel
  build_wads-KeepsOnFailure m prev_state can_incremental p =
      >>=-KeepsOnFailure b
        (lift
          (resolve_overrides_for_wads b.enabled_mods p.wads_to_build (routing b g m) m.all_meta))
        _ (λ w. refl)
        (λ overrides.
          >>=-KeepsOnFailure b (patch_wads_parallel b.build_patched_wad p.wads_to_build overrides) _
            (patch_all-Keeps b.build_patched_wad _ [])
            (λ built u e h.
              let u' = clean_stale_if can_incremental prev_state p.new_wad_fingerprints u in
              kept_before b
                (clean_stale_if-Keeps can_incremental prev_state p.new_wad_fingerprints u)
                (>>=-pure-KeepsOnFailure b
                  (save b
                    (record (State.new (mod_ids b.enabled_mods) g.game_fingerprint
                      (effective_blocked_wads b) p.new_wad_fingerprints) {
                        linked_bin_offenders = u'.last_linked_bin_offenders;
                      }))
                  (λ _. record { wads_built = built; wads_reused = p.wads_to_reuse })
                  (save-KeepsOnFailure b _) u' e h)))

  collect_meta-Keeps : Keeps (collect_meta b g)
  unfolding collect_meta
  collect_meta-Keeps w = ground arith

  build_changed-KeepsOnFailure :
      (prev_state : Option OverlayState) → KeepsOnFailure b (build_changed b g prev_state)
  unfolding build_changed build_with
  build_changed-KeepsOnFailure prev_state w e h =
      let c = incremental prev_state g.game_fingerprint in
      kept_before b (clean_unless-Keeps c w) (
        >>=-KeepsOnFailure b (collect_meta b g)
          (λ m.
            modify (λ u. record u {
              last_linked_bin_offenders =
                  collect_linked_bin_offenders b.externals m.all_meta (routing b g m) g;
            })
            >> (gets (partition_of b g m (routing b g m) prev_state c)
                >>= build_wads b g m prev_state c))
          collect_meta-Keeps (λ m u. build_wads-KeepsOnFailure m prev_state c _ _)
          (clean_unless c w) e h)

  build_from-KeepsOnFailure :
      (prev_state : Option OverlayState) → KeepsOnFailure b (build_from b g prev_state)
  unfolding build_from build_skip
  build_from-KeepsOnFailure none w e f = build_changed-KeepsOnFailure none w e f
  build_from-KeepsOnFailure (some s) w e f = elim (Bool-cases (is_exact_match b g s w)) [
    | inl t ↦ let no : ⊥ = ground (arith, t) in absurd no
    | inr t ↦ rw t (build_changed-KeepsOnFailure (some s) w e (ground (arith, t)))
  ]

  build_empty-KeepsOnFailure : KeepsOnFailure b (build_empty b g)
  unfolding build_empty clean_overlay_wads
  build_empty-KeepsOnFailure w e h =
      >>=-pure-KeepsOnFailure b
        (save b (State.new [] g.game_fingerprint (effective_blocked_wads b) []))
        (λ _. record { wads_built = []; wads_reused = [] }) (save-KeepsOnFailure b _)
        (clean_overlay_wads w) e h

  build_indexed-KeepsOnFailure : KeepsOnFailure b (build_indexed b g)
  unfolding build_indexed
  build_indexed-KeepsOnFailure w e = go (load w.state_file) b.enabled_mods
    where
      go :
          (l : Result Error (Option OverlayState)) (mods : List EnabledMod)
          → (elim l as (λ _. Result Error OverlayBuildResult × World) [
            | err e' ↦ (err e', w)
            | ok prev_state ↦ elim mods [
              | [] ↦ build_empty b g w
              | m ∷ ms ↦ build_from b g prev_state w
            ]
          ]).0
            ≡ err e
          → IsLeft b e w.state_file
              (elim l as (λ _. Result Error OverlayBuildResult × World) [
                | err e' ↦ (err e', w)
                | ok prev_state ↦ elim mods [
                  | [] ↦ build_empty b g w
                  | m ∷ ms ↦ build_from b g prev_state w
                ]
              ]).1.state_file
      go (err e') mods f = inl refl
      go (ok prev_state) [] f = build_empty-KeepsOnFailure w e f
      go (ok prev_state) (m ∷ ms) f = build_from-KeepsOnFailure prev_state w e f

-- The part of `build` after the check of the directory.
abbrev pub begin : OverlayBuilder → Bool → Result Error GameIndex → Build OverlayBuildResult
begin b has_data_final game_index =
    if not has_data_final
    then (λ w. (err other, w))
    else (lift game_index >>= λ g. build_indexed b g)

begin-KeepsOnFailure :
    (b : OverlayBuilder) (has_data_final : Bool) (game_index : Result Error GameIndex)
    → KeepsOnFailure b (begin b has_data_final game_index)
begin-KeepsOnFailure b false r w e f = inl refl
begin-KeepsOnFailure b true (err e') w e f = inl refl
begin-KeepsOnFailure b true (ok g) w e f = build_indexed-KeepsOnFailure b g w e f

-- A build that fails, whatever the step, leaves the state file as it was, unless the failing step
-- was the saving of a new state: then the state file is what the failed save left of it.
pub build_failure_keeps_state :
    (b : OverlayBuilder) (w : World) (e : Error)
    → (build b w).0 ≡ err e
    → IsLeft b e w.state_file (build b w).1.state_file
unfolding build
build_failure_keeps_state b w e f = begin-KeepsOnFailure b b.has_data_final b.game_index _ e f
