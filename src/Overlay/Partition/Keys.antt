-- ===== src/Overlay/Partition/Keys.antt =====
-- The map of the new fingerprints: its keys are the texts of the WADs' paths.
use league_mod.Prelude.{
  ℕ, ◌≡◌, refl, sym, ap, ◌∙◌, Bool, Option, none, some, List, [], ◌∷◌, Text, arith, if◌then◌else◌,
  ◌==◌, eq_iff, eq_refl, eq→≡, subst, nat_ord, list_ord, Bool-cases, inl, inr,
}
use league_mod.Prelude.Assoc
use league_mod.Prelude.Assoc.{get, is_some}
use league_mod.Prelude.HashMap.{HashMap}
use league_mod.Prelude.TreeMap.{TreeMap, insert, get-insert, IsSorted}
use league_mod.Prelude.TreeMap.Sorted.{insert-IsSorted}
use league_mod.Overlay.FilePath.{FilePath, IsRelative, as_str, as_str_injective}
use league_mod.Overlay.Types.{OverrideMeta}
use league_mod.Overlay.Fingerprint.{compute_wad_fingerprint_from_meta}
use league_mod.Overlay.Distribute.{WadHashes}
use league_mod.Overlay.Partition.{collect_fingerprints}

-- Every path of the map is relative.
abbrev pub AllRelative : WadHashes → Type 0
AllRelative [] = Unit {0}
AllRelative ((w, hs) ∷ sets) = IsRelative w × AllRelative sets

pub as_str_eq : (v w : FilePath) → IsRelative v → IsRelative w → (as_str v == as_str w) ≡ (v == w)
as_str_eq v w rv rw' = elim (Bool-cases (v == w)) [
  | inl e ↦ rw e (rw (eq→≡ v w e) (eq_refl (as_str w)))
  | inr e ↦ elim (Bool-cases (as_str v == as_str w)) [
    | inl t ↦ cc ((eq_iff v w).1 (as_str_injective v w rv rw' (eq→≡ _ _ t)))
    | inr t ↦ t ∙ sym e
  ]
]

module _ (xxh3_64 : List ℕ → ℕ) (all_meta : HashMap ℕ OverrideMeta) where
  abbrev pub fingerprint_of : Option (List ℕ) → Option ℕ
  fingerprint_of none = none
  fingerprint_of (some hs) = some (compute_wad_fingerprint_from_meta xxh3_64 hs all_meta)

  abbrev pub or_before : Option ℕ → Option ℕ → Option ℕ
  or_before none old = old
  or_before (some n) old = some n

  collect_step :
      (v w : FilePath) (hs : List ℕ) (rest : Option (List ℕ)) (old : Option ℕ) (same : Bool)
      → same ≡ (v == w)
      → (v ≡ w → rest ≡ none)
      → or_before (fingerprint_of rest) (if same then fingerprint_of (some hs) else old)
        ≡ or_before (fingerprint_of (if v == w then some hs else rest)) old
  collect_step v w hs none old same e fresh =
      rw e (elim (Bool-cases (v == w)) [ inl t ↦ rw t | inr t ↦ rw t ])
  collect_step v w hs (some hs') old same e fresh = elim (Bool-cases (v == w)) [
    | inl t ↦ cc (fresh (eq→≡ v w t))
    | inr t ↦ rw t
  ]

  pub get-collect :
      (w : FilePath) (sets : WadHashes) (fps : TreeMap Text ℕ)
      → IsRelative w
      → AllRelative sets
      → Assoc.Distinct sets
      → get (as_str w) (collect_fingerprints xxh3_64 sets all_meta fps)
        ≡ or_before (fingerprint_of (get w sets)) (get (as_str w) fps)
  unfolding collect_fingerprints
  get-collect w [] fps r rs d = refl
  get-collect w ((v, hs) ∷ sets) fps r rs d =
      get-collect w sets
        (insert (as_str v) (compute_wad_fingerprint_from_meta xxh3_64 hs all_meta) fps) r rs.1 d.1
      ∙ ap (or_before (fingerprint_of (get w sets))) (get-insert (as_str v) (as_str w) _ fps)
      ∙ collect_step v w hs (get w sets) (get (as_str w) fps) _ (as_str_eq v w rs.0 r)
          λ e. subst (λ u. get u sets ≡ none) e d.0

  pub collect-IsSorted :
      (sets : WadHashes) (fps : TreeMap Text ℕ)
      → IsSorted fps
      → IsSorted (collect_fingerprints xxh3_64 sets all_meta fps)
  unfolding collect_fingerprints
  collect-IsSorted [] fps s = s
  collect-IsSorted ((v, hs) ∷ sets) fps s = collect-IsSorted sets _ (insert-IsSorted _ _ fps s)

-- The key is the text of a relative path.
abbrev pub IsKey : Text → Type 0
IsKey k = (v : FilePath) × IsRelative v × (k ≡ as_str v)

abbrev pub AllKeys : TreeMap Text ℕ → Type 0
AllKeys [] = Unit {0}
AllKeys ((k, fp) ∷ fps) = IsKey k × AllKeys fps

pub AllKeys-insert :
    (k : Text) (n : ℕ) (fps : TreeMap Text ℕ) → IsKey k → AllKeys fps → AllKeys (insert k n fps)
unfolding insert
AllKeys-insert k n [] i a = (i, tt)
AllKeys-insert k n ((j, m) ∷ fps) i a = ground (arith, AllKeys-insert k n fps i a.1)

pub collect-AllKeys :
    (xxh3_64 : List ℕ → ℕ) (all_meta : HashMap ℕ OverrideMeta) (sets : WadHashes)
    (fps : TreeMap Text ℕ)
    → AllRelative sets
    → AllKeys fps
    → AllKeys (collect_fingerprints xxh3_64 sets all_meta fps)
unfolding collect_fingerprints
collect-AllKeys xxh3_64 all_meta [] fps r a = a
collect-AllKeys xxh3_64 all_meta ((v, hs) ∷ sets) fps r a =
    collect-AllKeys xxh3_64 all_meta sets _ r.1 (AllKeys-insert _ _ fps (v, r.0, refl) a)
