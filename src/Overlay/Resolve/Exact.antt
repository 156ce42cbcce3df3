-- ===== src/Overlay/Resolve/Exact.antt =====
-- What a WAD that is rebuilt gets is what pass 1 counted on.
use league_mod.Prelude.{
  ℕ, ◌≡◌, refl, sym, ap, ◌∙◌, ◌≢◌, inl, inr, true, false, Option, none, some, List, [], ◌∷◌, ◌++◌,
  Text, arith, All, eq_refl, nat_ord, list_ord, Bool-cases, Option-cases,
}
use league_mod.Prelude.Assoc
use league_mod.Prelude.Assoc.{get, is_some, AllEntries, entry_of}
use league_mod.Prelude.HashMap.{HashMap, insert-AllEntries}
use league_mod.Prelude.HashSet.{contains}
use league_mod.Prelude.TreeMap.{TreeMap}
use league_mod.Prelude.Outcome.{ok, >>=-eq-ok}
use league_mod.Overlay.FilePath.{FilePath}
use league_mod.Overlay.Types.{OverrideMeta, mod_id}
use league_mod.Overlay.GameIndex.{or_nil}
use league_mod.Overlay.Distribute.{WadHashes}
use league_mod.Overlay.Content.{EnabledMod}
use league_mod.Overlay.Fingerprint.Order.{content_at, hash_bytes}
use league_mod.Overlay.Resolve.{
  Overrides, group_hash, group_by_mod, read_groups, wad_overrides, distribute_bytes, resolve_needed,
  resolve_overrides_for_wads,
}
use league_mod.Overlay.Resolve.Contents.{IsStable, IsSound, IsOf, IsGroup, read_groups-IsSound}
use league_mod.Overlay.Resolve.Complete.{
  contains-needed_hashes, in_groups-group_by_mod, read_groups-has, get-wad_overrides,
  wad_overrides-Distinct, get-distribute_bytes, bytes_for,
}

All-append_one : (P : ℕ → Type 0) (xs : List ℕ) (x : ℕ) → All P xs → P x → All P (xs ++ (x ∷ []))
All-append_one P [] x a p = (p, tt)
All-append_one P (y ∷ ys) x a p = (a.0, All-append_one P ys x a.1 p)

module _ (xxh3_64 : List ℕ → ℕ) (all_meta : HashMap ℕ OverrideMeta) where
  abbrev Grouped : HashMap Text (List ℕ) → Type 0
  Grouped = AllEntries (IsGroup xxh3_64 all_meta)

  group_at :
      (id : Text) (m : HashMap Text (List ℕ)) (o : Option (List ℕ))
      → Grouped m
      → get id m ≡ o
      → All (IsOf xxh3_64 all_meta id) (or_nil o)
  group_at id m none a e = tt
  group_at id m (some hs) a e = entry_of (IsGroup xxh3_64 all_meta) id hs m a e

  group_hash-Grouped :
      (k : ℕ) (m : HashMap Text (List ℕ)) → Grouped m → Grouped (group_hash all_meta k m)
  unfolding group_hash
  group_hash-Grouped k m a = elim (Option-cases (get k all_meta)) [
    | inl e ↦ rw (e, group_hash) a
    | inr (meta, e) ↦
        rw (e, group_hash)
          (insert-AllEntries (IsGroup xxh3_64 all_meta) (mod_id meta.source) _ m
            (All-append_one _ _ k (group_at (mod_id meta.source) m _ a refl) (meta, e, refl)) a)
  ]

  group_by_mod-Grouped :
      (hs : List ℕ) (m : HashMap Text (List ℕ)) → Grouped m → Grouped (group_by_mod all_meta hs m)
  unfolding group_by_mod
  group_by_mod-Grouped [] m a = a
  group_by_mod-Grouped (k ∷ hs) m a = group_by_mod-Grouped hs _ (group_hash-Grouped k m a)

  -- What pass 1 counted on: exactly the hashes `hs`, with the contents of the metadata.
  abbrev pub HasContents : List ℕ → Overrides → Type 0
  HasContents hs overrides =
      Assoc.Distinct overrides
      × ((h : ℕ) → content_at hs all_meta h ≡ hash_bytes xxh3_64 (get h overrides))

  at_hash :
      (h : ℕ) (hs : List ℕ) (resolved : Overrides)
      → IsSound xxh3_64 all_meta resolved
      → (is_some (get h all_meta) ≡ true → contains h hs ≡ true → is_some (get h resolved) ≡ true)
      → content_at hs all_meta h
        ≡ hash_bytes xxh3_64 (bytes_for (contains h hs) (get h resolved) none)
  at_hash h hs resolved s c = elim (Bool-cases (contains h hs)) [
    | inr t ↦ rw t refl
    | inl t ↦ elim (Option-cases (get h resolved)) [
      | inl e ↦ ground (arith, t, e, c)
      | inr (bytes, e) ↦
          let (meta, at_h, same) = s h bytes e in rw (t, e, at_h) (ap some (sym same))
    ]
  ]

  module _ (mods : List EnabledMod) (wads : List FilePath) (sets : WadHashes) (w : FilePath) (x : ℕ)
      (hs : List ℕ) where
    resolve_needed-exact :
        (needed : List ℕ) (r : TreeMap FilePath Overrides)
        → IsStable xxh3_64 all_meta mods
        → contains w wads ≡ true
        → get w sets ≡ some (x ∷ hs)
        → ((h : ℕ) → contains h (x ∷ hs) ≡ true → contains h needed ≡ true)
        → resolve_needed mods wads sets all_meta needed ≡ ok r
        → (overrides : Overrides) × (get w r ≡ some overrides) × HasContents (x ∷ hs) overrides
    unfolding resolve_needed
    resolve_needed-exact [] r st c at_w n e =
        absurd (false_ne_true (n x (ground (arith, eq_refl x))))
      where
        false_ne_true : false ≡ true → ⊥
        false_ne_true e = cc
    resolve_needed-exact (k ∷ needed) r st c at_w n e =
        let by_mod = group_by_mod all_meta (k ∷ needed) [] in
        let (resolved, at_r, rest) = >>=-eq-ok (read_groups mods all_meta by_mod []) _ e in
        let same : distribute_bytes resolved sets wads [] ≡ r = cc rest in
        let sound =
          read_groups-IsSound xxh3_64 all_meta mods by_mod [] resolved st
            (group_by_mod-Grouped (k ∷ needed) [] tt) (λ h b e. cc) at_r in
        (
          wad_overrides resolved (x ∷ hs) [],
          ap (get w) (sym same) ∙ get-distribute_bytes resolved sets w wads [] ∙ rw (c, at_w) refl,
          (
            wad_overrides-Distinct resolved (x ∷ hs) [] tt,
            λ h.
                at_hash h (x ∷ hs) resolved sound (λ s t.
                  read_groups-has all_meta mods h by_mod [] resolved
                    (ground (
                      arith,
                      in_groups-group_by_mod all_meta h (k ∷ needed) [] s (ground (arith, n h t)),
                    ))
                    at_r)
                ∙ ap (hash_bytes xxh3_64) (sym (get-wad_overrides resolved h (x ∷ hs) [])),
          ),
        )

  -- If every mod file still has the content that was hashed in pass 1 and pass 2 succeeds, each WAD
  -- of its list with a set of hashes that is not empty gets exactly the hashes of the set that have
  -- metadata, each with bytes of the recorded content.
  pub resolve_exact :
      (mods : List EnabledMod) (wads : List FilePath) (sets : WadHashes)
      (r : TreeMap FilePath Overrides) (w : FilePath) (hs : List ℕ)
      → IsStable xxh3_64 all_meta mods
      → contains w wads ≡ true
      → get w sets ≡ some hs
      → hs ≢ []
      → resolve_overrides_for_wads mods wads sets all_meta ≡ ok r
      → (overrides : Overrides) × (get w r ≡ some overrides) × HasContents hs overrides
  unfolding resolve_overrides_for_wads
  resolve_exact mods wads sets r w [] st c at_w ne e = absurd (ne refl)
  resolve_exact mods wads sets r w (x ∷ hs) st c at_w ne e =
      resolve_needed-exact mods wads sets w x hs _ r st c at_w
        (λ h t. contains-needed_hashes h w sets wads [] (rw (c, at_w) t)) e
