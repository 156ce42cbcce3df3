-- ===== src/Overlay/Resolve/Complete.antt =====
-- Pass 2 reads every override of the WADs that are rebuilt.
use league_mod.Prelude.{
  ℕ, ◌≡◌, refl, ap, ◌∙◌, inl, inr, Bool, true, false, ◌||◌, ◌&&◌, Option, none, some, List, [], ◌∷◌,
  ◌++◌, Text, arith, ◌==◌, eq_refl, eq→≡, nat_ord, list_ord, Bool-cases, Option-cases,
}
use league_mod.Prelude.Assoc
use league_mod.Prelude.Assoc.{get, is_some, AllEntries, entry_of}
use league_mod.Prelude.HashMap.{HashMap, insert, get-insert, insert-Distinct}
use league_mod.Prelude.HashSet
use league_mod.Prelude.HashSet.{contains, contains-insert, contains-append_one}
use league_mod.Prelude.TreeMap
use league_mod.Prelude.TreeMap.{TreeMap}
use league_mod.Prelude.Outcome.{ok, >>=-eq-ok}
use league_mod.Overlay.FilePath.{FilePath}
use league_mod.Overlay.Types.{OverrideMeta, mod_id}
use league_mod.Overlay.GameIndex.{or_nil}
use league_mod.Overlay.Distribute.{WadHashes}
use league_mod.Overlay.Content.{ModContentProvider, EnabledMod}
use league_mod.Overlay.Resolve.{
  Overrides, add_hashes, needed_hashes, group_hash, group_by_mod, find_mod, read_hash, read_group,
  found_or_err, read_groups, wad_overrides, distribute_bytes,
}

contains-add_hashes :
    (h : ℕ) (hs needed : List ℕ)
    → contains h (add_hashes hs needed) ≡ contains h needed || contains h hs
unfolding add_hashes
contains-add_hashes h [] needed = ground arith
contains-add_hashes h (k ∷ hs) needed =
    ground (arith, contains-add_hashes h hs (HashSet.insert k needed), contains-insert k h needed)

-- A hash of a WAD that is rebuilt is needed.
pub contains-needed_hashes :
    (h : ℕ) (w : FilePath) (sets : WadHashes) (wads : List FilePath) (needed : List ℕ)
    → contains h needed || (contains w wads && contains h (or_nil (get w sets))) ≡ true
    → contains h (needed_hashes sets wads needed) ≡ true
unfolding needed_hashes
contains-needed_hashes h w sets [] needed c = ground arith
contains-needed_hashes h w sets (v ∷ wads) needed c = contains-needed_hashes h w sets wads _ (
    rw (contains-add_hashes h (or_nil (get v sets)) needed) (elim (Bool-cases (v == w)) [
      | inl t ↦ let same : v ≡ w = eq→≡ v w t in rw same (ground arith)
      | inr t ↦ ground arith
    ]))

-- Whether some mod's group has the hash.
abbrev pub in_groups : ℕ → HashMap Text (List ℕ) → Bool
in_groups h [] = false
in_groups h ((id, hs) ∷ by_mod) = contains h hs || in_groups h by_mod

in_groups-insert :
    (h k : ℕ) (id : Text) (m : HashMap Text (List ℕ))
    → in_groups h (insert id (or_nil (get id m) ++ (k ∷ [])) m) ≡ in_groups h m || (k == h)
unfolding insert
in_groups-insert h k id [] = ground arith
in_groups-insert h k id ((j, ys) ∷ m) =
    ground (arith, in_groups-insert h k id m, contains-append_one k h ys)

module _ (all_meta : HashMap ℕ OverrideMeta) where
  in_groups-group_hash :
      (h k : ℕ) (m : HashMap Text (List ℕ))
      → in_groups h (group_hash all_meta k m)
        ≡ in_groups h m || (is_some (get k all_meta) && (k == h))
  unfolding group_hash
  in_groups-group_hash h k m = elim (Option-cases (get k all_meta)) [
    | inl e ↦ rw (e, group_hash) (ground arith)
    | inr (meta, e) ↦ rw (e, group_hash) (in_groups-insert h k (mod_id meta.source) m)
  ]

  -- A hash with metadata is in the group of a mod.
  pub in_groups-group_by_mod :
      (h : ℕ) (hs : List ℕ) (m : HashMap Text (List ℕ))
      → is_some (get h all_meta) ≡ true
      → in_groups h m || contains h hs ≡ true
      → in_groups h (group_by_mod all_meta hs m) ≡ true
  unfolding group_by_mod
  in_groups-group_by_mod h [] m s c = ground arith
  in_groups-group_by_mod h (k ∷ hs) m s c =
      in_groups-group_by_mod h hs (group_hash all_meta k m) s (
        rw (in_groups-group_hash h k m) (elim (Bool-cases (k == h)) [
          | inl t ↦ let same : k ≡ h = eq→≡ k h t in rw same (ground (arith, eq_refl h))
          | inr t ↦ ground arith
        ]))

  read_group-has :
      (p : ModContentProvider) (h : ℕ) (hs : List ℕ) (resolved r : Overrides)
      → contains h hs || is_some (get h resolved) ≡ true
      → read_group all_meta p hs resolved ≡ ok r
      → is_some (get h r) ≡ true
  unfolding read_group
  read_group-has p h [] resolved r c e = ground arith
  read_group-has p h (k ∷ hs) resolved r c e =
      let (bytes, at_k, rest) = >>=-eq-ok (read_hash all_meta p k) _ e in
      read_group-has p h hs (insert k bytes resolved) r
        (ground (arith, get-insert k h bytes resolved)) rest

  -- Every hash of the groups is read.
  pub read_groups-has :
      (mods : List EnabledMod) (h : ℕ) (by_mod : HashMap Text (List ℕ)) (resolved r : Overrides)
      → in_groups h by_mod || is_some (get h resolved) ≡ true
      → read_groups mods all_meta by_mod resolved ≡ ok r
      → is_some (get h r) ≡ true
  unfolding read_groups
  read_groups-has mods h [] resolved r c e = ground arith
  read_groups-has mods h ((id, hs) ∷ by_mod) resolved r c e =
      let (m, at_m, rest) = >>=-eq-ok (found_or_err (find_mod mods id)) _ e in
      let (resolved', at_r, rest') = >>=-eq-ok (read_group all_meta m.content hs resolved) _ rest in
      read_groups-has mods h by_mod resolved' r
        (elim (Bool-cases (in_groups h by_mod)) [
          | inl t ↦ ground arith
          | inr t ↦
              ground (arith, read_group-has m.content h hs resolved resolved' (ground arith) at_r)
        ])
        rest'

-- What a WAD gets: the bytes of its hashes.
abbrev pub bytes_for : Bool → Option (List ℕ) → Option (List ℕ) → Option (List ℕ)
bytes_for false now before = before
bytes_for true none before = before
bytes_for true (some bytes) before = some bytes

get_put :
    (k h : ℕ) (o r : Option (List ℕ)) (per_wad : Overrides)
    → (k ≡ h → o ≡ r)
    → get h (elim o [ none ↦ per_wad | some bytes ↦ insert k bytes per_wad ])
      ≡ bytes_for (k == h) r (get h per_wad)
get_put k h none r per_wad same = elim (Bool-cases (k == h)) [
  | inl t ↦ rw (t, ← same (eq→≡ k h t)) refl
  | inr t ↦ rw t refl
]
get_put k h (some bytes) r per_wad same =
    get-insert k h bytes per_wad
    ∙ elim (Bool-cases (k == h)) [ inl t ↦ rw (t, ← same (eq→≡ k h t)) refl | inr t ↦ rw t refl ]

bytes_for_twice :
    (a b : Bool) (r before : Option (List ℕ))
    → bytes_for a r (bytes_for b r before) ≡ bytes_for (b || a) r before
bytes_for_twice a b r before = ground arith

pub get-wad_overrides :
    (resolved : Overrides) (h : ℕ) (hs : List ℕ) (per_wad : Overrides)
    → get h (wad_overrides resolved hs per_wad)
      ≡ bytes_for (contains h hs) (get h resolved) (get h per_wad)
unfolding wad_overrides
get-wad_overrides resolved h [] per_wad = refl
get-wad_overrides resolved h (k ∷ hs) per_wad =
    get-wad_overrides resolved h hs _
    ∙ ap (bytes_for (contains h hs) (get h resolved))
        (get_put k h (get k resolved) (get h resolved) per_wad λ e. rw e refl)
    ∙ bytes_for_twice (contains h hs) (k == h) (get h resolved) (get h per_wad)

put-Distinct :
    (k : ℕ) (o : Option (List ℕ)) (per_wad : Overrides)
    → Assoc.Distinct per_wad
    → Assoc.Distinct (elim o [ none ↦ per_wad | some bytes ↦ insert k bytes per_wad ])
put-Distinct k none per_wad d = d
put-Distinct k (some bytes) per_wad d = insert-Distinct k bytes per_wad d

pub wad_overrides-Distinct :
    (resolved : Overrides) (hs : List ℕ) (per_wad : Overrides)
    → Assoc.Distinct per_wad
    → Assoc.Distinct (wad_overrides resolved hs per_wad)
unfolding wad_overrides
wad_overrides-Distinct resolved [] per_wad d = d
wad_overrides-Distinct resolved (k ∷ hs) per_wad d =
    wad_overrides-Distinct resolved hs _ (put-Distinct k (get k resolved) per_wad d)

-- The overrides that a WAD with the set `o` gets, or what it had.
abbrev pub wad_entry : Overrides → Bool → Option (List ℕ) → Option Overrides → Option Overrides
wad_entry resolved false o before = before
wad_entry resolved true none before = before
wad_entry resolved true (some hs) before = some (wad_overrides resolved hs [])

wad_put :
    (resolved : Overrides) (v w : FilePath) (o r : Option (List ℕ))
    (result : TreeMap FilePath Overrides)
    → (v ≡ w → o ≡ r)
    → get w (elim o [
      | none ↦ result
      | some hs ↦ TreeMap.insert v (wad_overrides resolved hs []) result
    ])
      ≡ wad_entry resolved (v == w) r (get w result)
wad_put resolved v w none r result same = elim (Bool-cases (v == w)) [
  | inl t ↦ rw (t, ← same (eq→≡ v w t)) refl
  | inr t ↦ rw t refl
]
wad_put resolved v w (some hs) r result same =
    TreeMap.get-insert v w _ result
    ∙ elim (Bool-cases (v == w)) [ inl t ↦ rw (t, ← same (eq→≡ v w t)) refl | inr t ↦ rw t refl ]

wad_entry_twice :
    (resolved : Overrides) (a b : Bool) (r : Option (List ℕ)) (before : Option Overrides)
    → wad_entry resolved a r (wad_entry resolved b r before) ≡ wad_entry resolved (b || a) r before
wad_entry_twice resolved a b r before = ground arith

pub get-distribute_bytes :
    (resolved : Overrides) (sets : WadHashes) (w : FilePath) (wads : List FilePath)
    (result : TreeMap FilePath Overrides)
    → get w (distribute_bytes resolved sets wads result)
      ≡ wad_entry resolved (contains w wads) (get w sets) (get w result)
unfolding distribute_bytes
get-distribute_bytes resolved sets w [] result = refl
get-distribute_bytes resolved sets w (v ∷ wads) result =
    get-distribute_bytes resolved sets w wads _
    ∙ ap (wad_entry resolved (contains w wads) (get w sets))
        (wad_put resolved v w (get v sets) (get w sets) result λ e. rw e refl)
    ∙ wad_entry_twice resolved (contains w wads) (v == w) (get w sets) (get w result)
