-- ===== src/Overlay/Partition/Exact.antt =====
-- Every WAD with overrides is rebuilt or reused, and reused exactly when it may be.
use league_mod.Prelude.{
  ℕ, ◌≡◌, refl, sym, ap, ◌∙◌, ◌↔◌, Bool, true, false, not, ◌||◌, ◌&&◌, Option, none, some, List, [],
  ◌∷◌, ◌++◌, Text, arith, ◌==◌, eq_refl, eq→≡, nat_ord, list_ord, Bool-cases, inl, inr,
}
use league_mod.Prelude.Assoc
use league_mod.Prelude.Assoc.{get, is_some}
use league_mod.Prelude.HashMap.{HashMap}
use league_mod.Prelude.HashSet.{contains, contains-append_one}
use league_mod.Prelude.TreeMap.{TreeMap}
use league_mod.Prelude.TreeMap.Sorted.{IsSorted-Distinct}
use league_mod.Overlay.FilePath.{FilePath, IsRelative, as_str, from, from-as_str}
use league_mod.Overlay.Types.{OverrideMeta}
use league_mod.Overlay.State.{OverlayState, wad_fingerprint}
use league_mod.Overlay.Fingerprint.{compute_wad_fingerprint_from_meta}
use league_mod.Overlay.Distribute.{WadHashes}
use league_mod.Overlay.Partition.{
  Partition, collect_fingerprints, is_reusable, choose, partition_wads_from_meta,
}
use league_mod.Overlay.Partition.Keys.{
  AllRelative, as_str_eq, fingerprint_of, or_before, get-collect, collect-IsSorted, IsKey, AllKeys,
  collect-AllKeys,
}

module _ (on_disk : FilePath → Bool) (prev_state : Option OverlayState)
    (can_incremental : Bool) where
  abbrev reusable : Text → Option ℕ → Bool
  reusable k none = false
  reusable k (some fp) = is_reusable on_disk prev_state can_incremental k fp

  abbrev rebuildable : Text → Option ℕ → Bool
  rebuildable k none = false
  rebuildable k (some fp) = not (is_reusable on_disk prev_state can_incremental k fp)

  pub key_eq : (k : Text) (w : FilePath) → IsKey k → IsRelative w → (from k == w) ≡ (k == as_str w)
  key_eq k w (v, r, e) rw' = rw (e, from-as_str v r) (sym (as_str_eq v w r rw'))

  same_reusable :
      (k : Text) (w : FilePath) (fp : ℕ)
      → (k == as_str w) ≡ true
      → is_reusable on_disk prev_state can_incremental (as_str w) fp
        ≡ is_reusable on_disk prev_state can_incremental k fp
  same_reusable k w fp e = rw (eq→≡ k (as_str w) e)

  fresh_key :
      (k : Text) (w : FilePath) (fps : TreeMap Text ℕ)
      → get k fps ≡ none
      → (k == as_str w) ≡ true
      → get (as_str w) fps ≡ none
  fresh_key k w fps d e = rw (← eq→≡ k (as_str w) e) d

  choose_exact :
      (w : FilePath) (fps : TreeMap Text ℕ) (build reuse : List FilePath)
      → IsRelative w
      → AllKeys fps
      → Assoc.Distinct fps
      → let r = choose on_disk prev_state can_incremental fps build reuse in
        (contains w r.0 ≡ contains w build || rebuildable (as_str w) (get (as_str w) fps))
        × (contains w r.1 ≡ contains w reuse || reusable (as_str w) (get (as_str w) fps))
  unfolding choose
  choose_exact w [] build reuse r a d = ground arith
  choose_exact w ((k, fp) ∷ fps) build reuse r a d =
      elim (Bool-cases (is_reusable on_disk prev_state can_incremental k fp)) [
        | inl t ↦ rw t (
            let (i, j) = choose_exact w fps build (reuse ++ (from k ∷ [])) r a.1 d.1 in
            ground (
              arith,
              i,
              j,
              key_eq k w a.0 r,
              same_reusable k w fp,
              fresh_key k w fps d.0,
              contains-append_one (from k) w reuse,
            ))
        | inr t ↦ rw t (
            let (i, j) = choose_exact w fps (build ++ (from k ∷ [])) reuse r a.1 d.1 in
            ground (
              arith,
              i,
              j,
              key_eq k w a.0 r,
              same_reusable k w fp,
              fresh_key k w fps d.0,
              contains-append_one (from k) w build,
            ))
      ]

module _ (xxh3_64 : List ℕ → ℕ) (on_disk : FilePath → Bool) (sets : WadHashes)
    (all_meta : HashMap ℕ OverrideMeta) (prev_state : Option OverlayState) (can_incremental : Bool)
    (relative : AllRelative sets) (distinct : Assoc.Distinct sets) (w : FilePath)
    (at_w : IsRelative w) where
  abbrev parts : Partition
  parts = partition_wads_from_meta xxh3_64 on_disk sets all_meta prev_state can_incremental

  -- For sets of relative paths with no path twice: the new fingerprint of a WAD is that of its set
  -- of hashes, and a WAD without a set has none.
  pub partition_fingerprints :
      get (as_str w) parts.new_wad_fingerprints ≡ fingerprint_of xxh3_64 all_meta (get w sets)
  unfolding partition_wads_from_meta
  partition_fingerprints = get-collect xxh3_64 all_meta w sets [] at_w relative distinct ∙ keep _
    where
      keep : (o : Option ℕ) → or_before xxh3_64 all_meta o none ≡ o
      keep none = refl
      keep (some n) = refl

  abbrev fps : TreeMap Text ℕ
  fps = collect_fingerprints xxh3_64 sets all_meta []

  chosen :
      (contains w parts.wads_to_build
        ≡ rebuildable on_disk prev_state can_incremental (as_str w) (get (as_str w) fps))
      × (contains w parts.wads_to_reuse
          ≡ reusable on_disk prev_state can_incremental (as_str w) (get (as_str w) fps))
  unfolding partition_wads_from_meta
  chosen =
      choose_exact on_disk prev_state can_incremental w fps [] [] at_w
        (collect-AllKeys xxh3_64 all_meta sets [] relative tt)
        (IsSorted-Distinct fps (collect-IsSorted xxh3_64 all_meta sets [] tt))

  at_key : get (as_str w) fps ≡ fingerprint_of xxh3_64 all_meta (get w sets)
  unfolding partition_wads_from_meta
  at_key = partition_fingerprints

  -- The previous build recorded for `w` the fingerprint that its overrides have now, the file is
  -- there, and the build is incremental.
  abbrev pub MayReuse : Type 0
  MayReuse =
      (hs : List ℕ) × (get w sets ≡ some hs)
      × (can_incremental ≡ true)
      × (s : OverlayState) × (prev_state ≡ some s)
      × (wad_fingerprint s (as_str w)
          ≡ some (compute_wad_fingerprint_from_meta xxh3_64 hs all_meta))
      × (on_disk w ≡ true)

  reusable→MayReuse :
      (o : Option (List ℕ)) (p : Option OverlayState)
      → get w sets ≡ o
      → prev_state ≡ p
      → reusable on_disk p can_incremental (as_str w) (fingerprint_of xxh3_64 all_meta o) ≡ true
      → MayReuse
  unfolding is_reusable
  reusable→MayReuse none p e q t = cc
  reusable→MayReuse (some hs) none e q t = ground arith
  reusable→MayReuse (some hs) (some s) e q t =
      (hs, e, ground arith, s, q, ground arith, ground (arith, from-as_str w at_w))

  MayReuse→reusable :
      MayReuse
      → reusable on_disk prev_state can_incremental
          (as_str w)
          (fingerprint_of xxh3_64 all_meta (get w sets))
        ≡ true
  unfolding is_reusable
  MayReuse→reusable (hs, at, inc, s, prev, old, disk) =
      rw (at, prev, inc, old, from-as_str w at_w, disk)
        (ground (arith, eq_refl (compute_wad_fingerprint_from_meta xxh3_64 hs all_meta)))

  reuse_eq :
      contains w parts.wads_to_reuse
      ≡ reusable on_disk prev_state can_incremental
          (as_str w)
          (fingerprint_of xxh3_64 all_meta (get w sets))
  reuse_eq = chosen.1 ∙ ap (reusable on_disk prev_state can_incremental (as_str w)) at_key

  -- For sets of relative paths with no path twice: a WAD is reused exactly when the build is
  -- incremental, the previous state records for it the fingerprint of its present set, and its file
  -- is there.
  pub partition_reuses : (contains w parts.wads_to_reuse ≡ true) ↔ MayReuse
  partition_reuses = (
    λ t. reusable→MayReuse (get w sets) prev_state refl refl (sym reuse_eq ∙ t),
    λ m. reuse_eq ∙ MayReuse→reusable m,
  )

  -- For sets of relative paths with no path twice: a WAD is rebuilt exactly when it has a set of
  -- hashes and is not reused.
  pub partition_covers :
      contains w parts.wads_to_build ≡ is_some (get w sets) && not (contains w parts.wads_to_reuse)
  partition_covers = ground (arith, chosen, at_key)
