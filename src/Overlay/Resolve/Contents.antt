-- ===== src/Overlay/Resolve/Contents.antt =====
-- What pass 2 reads is what pass 1 saw.
use league_mod.Prelude.{
  ℕ, ◌≡◌, sym, ◌∙◌, subst, inl, inr, Option, none, some, List, [], ◌∷◌, Text, arith, All, ◌==◌,
  eq→≡, nat_ord, list_ord, Bool-cases,
}
use league_mod.Prelude.Assoc.{get, AllEntries}
use league_mod.Prelude.HashMap.{HashMap, insert, get-insert}
use league_mod.Prelude.Outcome.{ok, >>=-eq-ok}
use league_mod.Overlay.Types.{OverrideMeta, mod_id}
use league_mod.Overlay.Content.{ModContentProvider, EnabledMod}
use league_mod.Overlay.Resolve.{
  Overrides, find_mod, read_source, read_hash, read_group, found_or_err, read_groups,
}

module _ (xxh3_64 : List ℕ → ℕ) (all_meta : HashMap ℕ OverrideMeta) where
  -- The mod's files still have the contents that pass 1 hashed.
  abbrev pub StableFor : ModContentProvider → Text → Type 0
  StableFor p id =
      (h : ℕ) (meta : OverrideMeta) (bytes : List ℕ)
      → get h all_meta ≡ some meta
      → mod_id meta.source ≡ id
      → read_source p meta.source ≡ ok bytes
      → xxh3_64 bytes ≡ meta.content_hash

  abbrev pub IsStable : List EnabledMod → Type 0
  IsStable mods = (id : Text) (m : EnabledMod) → find_mod mods id ≡ some m → StableFor m.content id

  -- The bytes at hand have the hashes of the metadata.
  abbrev pub IsSound : Overrides → Type 0
  IsSound resolved =
      (h : ℕ) (bytes : List ℕ)
      → get h resolved ≡ some bytes
      → (meta : OverrideMeta) × (get h all_meta ≡ some meta) × (xxh3_64 bytes ≡ meta.content_hash)

  -- The hash has metadata, of the mod `id`.
  abbrev pub IsOf : Text → ℕ → Type 0
  IsOf id h = (meta : OverrideMeta) × (get h all_meta ≡ some meta) × (mod_id meta.source ≡ id)

  insert-IsSound :
      (h : ℕ) (bytes : List ℕ) (meta : OverrideMeta) (resolved : Overrides)
      → get h all_meta ≡ some meta
      → xxh3_64 bytes ≡ meta.content_hash
      → IsSound resolved
      → IsSound (insert h bytes resolved)
  insert-IsSound h bytes meta resolved e x s j more g = elim (Bool-cases (h == j)) [
    | inl t ↦
        let same : h ≡ j = eq→≡ h j t in
        let b : bytes ≡ more = ground (arith, get-insert h j bytes resolved) in
        (meta, rw (← same) e, rw (← b) x)
    | inr t ↦ s j more (ground (arith, get-insert h j bytes resolved))
  ]

  read_hash_at :
      (p : ModContentProvider) (h : ℕ) (meta : OverrideMeta)
      → get h all_meta ≡ some meta
      → read_hash all_meta p h ≡ read_source p meta.source
  unfolding read_hash
  read_hash_at p h meta e = rw (e, read_hash)

  found_or_err-eq-ok : (o : Option EnabledMod) (m : EnabledMod) → found_or_err o ≡ ok m → o ≡ some m
  found_or_err-eq-ok none m e = ground arith
  found_or_err-eq-ok (some n) m e = ground arith

  read_group-IsSound :
      (p : ModContentProvider) (id : Text) (hs : List ℕ) (resolved r : Overrides)
      → StableFor p id
      → All (IsOf id) hs
      → IsSound resolved
      → read_group all_meta p hs resolved ≡ ok r
      → IsSound r
  unfolding read_group
  read_group-IsSound p id [] resolved r st a s e = subst IsSound (cc) s
  read_group-IsSound p id (h ∷ hs) resolved r st a s e =
      let (bytes, at_h, rest) = >>=-eq-ok (read_hash all_meta p h) _ e in
      let (meta, at_meta, owner) = a.0 in
      read_group-IsSound p id hs (insert h bytes resolved) r st a.1
        (insert-IsSound h bytes meta resolved at_meta
          (st h meta bytes at_meta owner (sym (read_hash_at p h meta at_meta) ∙ at_h)) s)
        rest

  -- A mod's id with hashes of that mod.
  abbrev pub IsGroup : Text → List ℕ → Type 0
  IsGroup id hs = All (IsOf id) hs

  pub read_groups-IsSound :
      (mods : List EnabledMod) (by_mod : HashMap Text (List ℕ)) (resolved r : Overrides)
      → IsStable mods
      → AllEntries IsGroup by_mod
      → IsSound resolved
      → read_groups mods all_meta by_mod resolved ≡ ok r
      → IsSound r
  unfolding read_groups
  read_groups-IsSound mods [] resolved r st a s e = subst IsSound (cc) s
  read_groups-IsSound mods ((id, hs) ∷ by_mod) resolved r st a s e =
      let (m, at_m, rest) = >>=-eq-ok (found_or_err (find_mod mods id)) _ e in
      let (resolved', at_r, rest') = >>=-eq-ok (read_group all_meta m.content hs resolved) _ rest in
      read_groups-IsSound mods by_mod resolved' r st a.1
        (read_group-IsSound m.content id hs resolved resolved'
          (st id m (found_or_err-eq-ok (find_mod mods id) m at_m)) a.0 s at_r)
        rest'
