-- ===== src/Overlay/Distribute/WellFormed.antt =====
-- What holds of every map that `distribute_override_hashes` returns, also after the blocked WADs
-- are taken out of it.
use league_mod.Prelude.{
  ℕ, ◌≡◌, refl, ◌∙◌, subst, ◌≢◌, inl, inr, Bool, true, false, Option, none, some, List, [], ◌∷◌,
  Text, arith, if◌then◌else◌, ◌==◌, eq_refl, nat_ord, list_ord, All,
}
use league_mod.Prelude.Assoc
use league_mod.Prelude.Assoc.{get, retain, get-retain, keys, In, All_of_In}
use league_mod.Prelude.HashMap.{HashMap}
use league_mod.Prelude.HashSet
use league_mod.Prelude.HashSet.{All_of_contains, insert-ne-nil}
use league_mod.Prelude.TreeMap.{get-insert, IsSorted}
use league_mod.Prelude.TreeMap.Sorted.{retain-IsSorted, insert-IsSorted, IsSorted-Distinct}
use league_mod.Overlay.FilePath.{FilePath, IsRelative}
use league_mod.Overlay.Types.{OverrideMeta}
use league_mod.Overlay.GameIndex.{GameIndex, or_nil, find_wads_with_hash}
use league_mod.Overlay.Distribute.{
  WadHashes, add_hash, add_to_all, add_fallback, distribute_entry, distribute_from,
  distribute_override_hashes, is_wad_blocked, remove_blocked,
}
use league_mod.Overlay.Distribute.Routes.{has, BelongsTo, distribute_routes}

-- A set has no hash twice, and some hash.
abbrev pub IsProper : Option (List ℕ) → Type 0
IsProper none = Unit {0}
IsProper (some hs) = HashSet.Distinct hs × (hs ≢ [])

pub record IsRouting (sets : WadHashes) : Type 0 where
  pub sorted : IsSorted sets
  pub proper : (w : FilePath) → IsProper (get w sets)

IsProper-insert :
    (h : ℕ) (o : Option (List ℕ)) → IsProper o → IsProper (some (HashSet.insert h (or_nil o)))
IsProper-insert h none p = (HashSet.insert-Distinct h [] tt, insert-ne-nil h [])
IsProper-insert h (some hs) p = (HashSet.insert-Distinct h hs p.0, insert-ne-nil h hs)

IsProper-if :
    (b : Bool) (o p : Option (List ℕ)) → IsProper o → IsProper p → IsProper (if b then o else p)
IsProper-if true o p x y = x
IsProper-if false o p x y = y

add_hash-IsRouting :
    (h : ℕ) (v : FilePath) (sets : WadHashes) → IsRouting sets → IsRouting (add_hash h v sets)
unfolding add_hash
add_hash-IsRouting h v sets r = record {
  sorted = insert-IsSorted v _ sets r.sorted;
  proper = λ w.
      rw (get-insert v w (HashSet.insert h (or_nil (get v sets))) sets)
        (IsProper-if (v == w) _ _ (IsProper-insert h (get v sets) (r.proper v)) (r.proper w));
}

add_to_all-IsRouting :
    (h : ℕ) (vs : List FilePath) (sets : WadHashes)
    → IsRouting sets
    → IsRouting (add_to_all h vs sets)
unfolding add_to_all
add_to_all-IsRouting h [] sets r = r
add_to_all-IsRouting h (v ∷ vs) sets r = add_to_all-IsRouting h vs _ (add_hash-IsRouting h v sets r)

either-IsRouting :
    (h : ℕ) (found : Option (List FilePath)) (fallback : Option FilePath) (sets : WadHashes)
    → IsRouting sets
    → IsRouting
        (elim found [ some wads ↦ add_to_all h wads sets | none ↦ add_fallback h fallback sets ])
unfolding add_fallback
either-IsRouting h (some wads) fallback sets r = add_to_all-IsRouting h wads sets r
either-IsRouting h none none sets r = r
either-IsRouting h none (some v) sets r = add_hash-IsRouting h v sets r

distribute_from-IsRouting :
    (g : GameIndex) (all_meta : HashMap ℕ OverrideMeta) (sets : WadHashes)
    → IsRouting sets
    → IsRouting (distribute_from g all_meta sets)
unfolding distribute_from distribute_entry
distribute_from-IsRouting g [] sets r = r
distribute_from-IsRouting g ((h, meta) ∷ all_meta) sets r =
    distribute_from-IsRouting g all_meta _
      (either-IsRouting h (find_wads_with_hash g h) meta.fallback_wad sets r)

pub distribute-IsRouting :
    (g : GameIndex) (all_meta : HashMap ℕ OverrideMeta)
    → IsRouting (distribute_override_hashes g all_meta)
unfolding distribute_override_hashes
distribute-IsRouting g all_meta =
    distribute_from-IsRouting g all_meta [] (record { sorted = (tt); proper = λ w. tt })

-- For sets as the distribution makes them: taking out the blocked WADs takes out the sets of these
-- WADs and leaves every other as it is.
pub get-remove_blocked :
    (blocked : List Text) (w : FilePath) (sets : WadHashes)
    → IsRouting sets
    → get w (remove_blocked blocked sets) ≡ (if is_wad_blocked blocked w then none else get w sets)
unfolding remove_blocked
get-remove_blocked blocked w sets r =
    get-retain _ w sets (IsSorted-Distinct sets r.sorted) ∙ ground arith

pub remove_blocked-IsRouting :
    (blocked : List Text) (sets : WadHashes)
    → IsRouting sets
    → IsRouting (remove_blocked blocked sets)
remove_blocked-IsRouting blocked sets r = record {
  sorted = unfold remove_blocked in retain-IsSorted _ sets r.sorted;
  proper = λ w.
      rw (get-remove_blocked blocked w sets r)
        (IsProper-if (is_wad_blocked blocked w) none (get w sets) tt (r.proper w));
}

-- The paths of the game index and the fallbacks are relative paths: both come of `strip_prefix`.
pub record IsIndexed (g : GameIndex) (all_meta : HashMap ℕ OverrideMeta) : Type 0 where
  pub of_game : (h : ℕ) (ws : List FilePath) → find_wads_with_hash g h ≡ some ws → All IsRelative ws
  pub of_fallback :
      (h : ℕ) (meta : OverrideMeta) (w : FilePath)
      → get h all_meta ≡ some meta
      → meta.fallback_wad ≡ some w
      → IsRelative w

pub distribute-IsRelative :
    (g : GameIndex) (all_meta : HashMap ℕ OverrideMeta) (w : FilePath) (hs : List ℕ)
    → Assoc.Distinct all_meta
    → IsIndexed g all_meta
    → get w (distribute_override_hashes g all_meta) ≡ some hs
    → IsRelative w
distribute-IsRelative g all_meta w [] d i e =
    absurd ((subst IsProper e ((distribute-IsRouting g all_meta).proper w)).1 refl)
distribute-IsRelative g all_meta w (h ∷ hs) d i e =
    let (meta, at_h, belongs) = found in
    elim belongs [
      | inl (ws, at_game, c) ↦ All_of_contains IsRelative w ws (i.of_game h ws at_game) c
      | inr (_, f) ↦ i.of_fallback h meta w at_h f
    ]
  where
    present : has h w (distribute_override_hashes g all_meta) ≡ true
    present = rw e (rw (eq_refl h))

    found : (meta : OverrideMeta) × (get h all_meta ≡ some meta) × BelongsTo g h meta w
    found = (distribute_routes g all_meta h w d).0 present
