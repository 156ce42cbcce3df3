-- ===== src/Overlay/Patch/Done.antt =====
-- What a patching pass that succeeds leaves in the overlay directory.
use league_mod.Prelude.{
  ℕ, ◌≡◌, refl, sym, ◌∙◌, inl, inr, Option, none, some, List, [], ◌∷◌, ◌++◌, arith, if◌then◌else◌,
  ◌==◌, eq_refl, eq→≡, nat_ord, list_ord, Bool-cases,
}
use league_mod.Prelude.Assoc
use league_mod.Prelude.Assoc.{get, remove, get-remove}
use league_mod.Prelude.HashMap.{get-insert}
use league_mod.Prelude.HashSet
use league_mod.Prelude.HashSet.{contains}
use league_mod.Prelude.TreeMap.{TreeMap}
use league_mod.Prelude.Outcome.{Result, ok, err}
use league_mod.Overlay.FilePath.{FilePath}
use league_mod.Overlay.Types.{Error}
use league_mod.Overlay.GameIndex.{or_nil}
use league_mod.Overlay.Resolve.{Overrides}
use league_mod.Overlay.World.{World, write_wad}
use league_mod.Overlay.Patch.{
  Patched, done, failed, per_wad_work, write_some, patch_all, patch_wads_parallel,
}

get-per_wad_work :
    (p : FilePath) (wads : List FilePath) (overrides : TreeMap FilePath Overrides)
    → get p (per_wad_work wads overrides)
      ≡ (if contains p wads then some (or_nil (get p overrides)) else none)
unfolding per_wad_work
get-per_wad_work p [] overrides = refl
get-per_wad_work p (v ∷ wads) overrides = elim (Bool-cases (v == p)) [
  | inl t ↦ let same : v ≡ p = eq→≡ v p t in rw (same, eq_refl p) refl
  | inr t ↦
      rw t (get-per_wad_work p wads (remove v overrides) ∙ rw (get-remove v p overrides, t) refl)
]

per_wad_work-Distinct :
    (wads : List FilePath) (overrides : TreeMap FilePath Overrides)
    → HashSet.Distinct wads
    → Assoc.Distinct (per_wad_work wads overrides)
unfolding per_wad_work
per_wad_work-Distinct [] overrides d = tt
per_wad_work-Distinct (v ∷ wads) overrides d =
    (get-per_wad_work v wads (remove v overrides) ∙ rw d.0 refl, per_wad_work-Distinct wads _ d.1)

module _ (build_patched_wad : FilePath → Overrides → Patched) where
  -- The WAD of a piece of work was built and written, any other file is as before.
  abbrev pub PatchedAt : FilePath → Option Overrides → World → World → Type 0
  PatchedAt p none w w' = get p w'.overlay ≡ get p w.overlay
  PatchedAt p (some overrides) w w' =
      (bytes : List ℕ) × (build_patched_wad p overrides ≡ done bytes)
      × (get p w'.overlay ≡ some bytes)

  abbrev next :
      FilePath
      → List (FilePath × Overrides)
      → List FilePath
      → World
      → Patched
      → Result Error (List FilePath) × World
  next path work built w r = elim r [
    | done bytes ↦ patch_all build_patched_wad work (built ++ (path ∷ [])) (write_wad path bytes w)
    | failed left e ↦ (err e, write_some path left w)
  ]

  next-eq-ok :
      (path : FilePath) (work : List (FilePath × Overrides)) (built : List FilePath) (w : World)
      (r : Patched) {res : List FilePath}
      → (next path work built w r).0 ≡ ok res
      → (bytes : List ℕ) × (r ≡ done bytes)
  next-eq-ok path work built w (done bytes) e = (bytes, refl)
  next-eq-ok path work built w (failed left e') e = cc

  after_write :
      (p path : FilePath) (overrides : Overrides) (bytes : List ℕ) (rest : Option Overrides)
      (w w' : World)
      → build_patched_wad path overrides ≡ done bytes
      → (path ≡ p → rest ≡ none)
      → PatchedAt p rest (write_wad path bytes w) w'
      → PatchedAt p (if path == p then some overrides else rest) w w'
  unfolding write_wad
  after_write p path overrides bytes none w w' b fresh a = elim (Bool-cases (path == p)) [
    | inl t ↦
        let same : path ≡ p = eq→≡ path p t in
        rw t (bytes, rw (← same) b, a ∙ get-insert path p bytes w.overlay ∙ rw t refl)
    | inr t ↦ rw t (a ∙ get-insert path p bytes w.overlay ∙ rw t refl)
  ]
  after_write p path overrides bytes (some o) w w' b fresh a = elim (Bool-cases (path == p)) [
    | inl t ↦ cc (fresh (eq→≡ path p t))
    | inr t ↦ rw t a
  ]

  patch_all-PatchedAt :
      (p : FilePath) (work : List (FilePath × Overrides)) (built : List FilePath) (w : World)
      (res : List FilePath)
      → Assoc.Distinct work
      → (patch_all build_patched_wad work built w).0 ≡ ok res
      → PatchedAt p (get p work) w (patch_all build_patched_wad work built w).1
  unfolding patch_all
  patch_all-PatchedAt p [] built w res d e = refl
  patch_all-PatchedAt p ((path, overrides) ∷ work) built w res d e =
      let (bytes, at) = next-eq-ok path work built w (build_patched_wad path overrides) e in
      rw (at, patch_all)
        (after_write p path overrides bytes (get p work) w _ at (λ s. rw (← s) d.0)
          (patch_all-PatchedAt p work (built ++ (path ∷ [])) (write_wad path bytes w) res d.1
            (ground (arith, at))))

  -- If no WAD is in the list twice and patching succeeds, each WAD of the list was built from its
  -- own overrides, or none if it has no entry, and its file is the result; every other file of the
  -- overlay directory is as it was.
  pub patch_wads_done :
      (p : FilePath) (wads : List FilePath) (overrides : TreeMap FilePath Overrides) (w : World)
      (res : List FilePath)
      → HashSet.Distinct wads
      → (patch_wads_parallel build_patched_wad wads overrides w).0 ≡ ok res
      → PatchedAt p
          (if contains p wads then some (or_nil (get p overrides)) else none)
          w
          (patch_wads_parallel build_patched_wad wads overrides w).1
  unfolding patch_wads_parallel
  patch_wads_done p wads overrides w res d e =
      rw (← get-per_wad_work p wads overrides)
        (patch_all-PatchedAt p _ [] w res (per_wad_work-Distinct wads overrides d) e)

  pub PatchedAt-same :
      (p : FilePath) (o : Option Overrides) (w u v : World)
      → get p u.overlay ≡ get p v.overlay
      → PatchedAt p o w u
      → PatchedAt p o w v
  PatchedAt-same p none w u v e a = sym e ∙ a
  PatchedAt-same p (some overrides) w u v e (bytes, b, a) = (bytes, b, sym e ∙ a)
