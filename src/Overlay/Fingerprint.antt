-- ===== src/Overlay/Fingerprint.antt =====
-- The fingerprint of a WAD's overrides, crates/ltk_overlay/src/utils.rs. `xxh3_64` is a parameter.
pub mod Order
use league_mod.Prelude.{ℕ, Option, none, some, List, [], ◌∷◌, ◌++◌, leb, if◌then◌else◌, nat_ord}
use league_mod.Prelude.Assoc.{get}
use league_mod.Prelude.HashMap.{HashMap}
use league_mod.Prelude.Bytes.{le_bytes}
use league_mod.Overlay.Types.{OverrideMeta}

-- `sort_unstable_by_key` on the path hash. The keys are distinct, so that every sort by key gives
-- one list; this one inserts the entries in turn.
pub insert_entry : ℕ × ℕ → List (ℕ × ℕ) → List (ℕ × ℕ)
insert_entry e [] = e ∷ []
insert_entry e (x ∷ xs) =
    let rest = insert_entry e xs in if leb e.0 x.0 then e ∷ x ∷ xs else x ∷ rest

unfoldable pub sort_by_hash : List (ℕ × ℕ) → List (ℕ × ℕ)
unfolding insert_entry
sort_by_hash [] = []
sort_by_hash (e ∷ xs) = insert_entry e (sort_by_hash xs)

unfoldable pub pair_bytes : List (ℕ × ℕ) → List ℕ
pair_bytes [] = []
pair_bytes ((path_hash, content_hash) ∷ entries) =
    le_bytes 8 path_hash ++ (le_bytes 8 content_hash ++ pair_bytes entries)

-- The entries of one WAD: a hash with no metadata is passed over.
unfoldable pub meta_entries : List ℕ → HashMap ℕ OverrideMeta → List (ℕ × ℕ)
meta_entries [] all_meta = []
meta_entries (h ∷ hs) all_meta =
    let rest = meta_entries hs all_meta in
    elim (get h all_meta) [ none ↦ rest | some m ↦ (h, m.content_hash) ∷ rest ]

module _ (xxh3_64 : List ℕ → ℕ) where
  pub fingerprint_from_sorted_pairs : List (ℕ × ℕ) → ℕ
  fingerprint_from_sorted_pairs [] = 0
  fingerprint_from_sorted_pairs (e ∷ entries) = xxh3_64 (pair_bytes (e ∷ entries))

  unfoldable pub compute_wad_fingerprint_from_meta : List ℕ → HashMap ℕ OverrideMeta → ℕ
  unfolding fingerprint_from_sorted_pairs
  compute_wad_fingerprint_from_meta [] all_meta = 0
  compute_wad_fingerprint_from_meta (h ∷ hs) all_meta =
      fingerprint_from_sorted_pairs (sort_by_hash (meta_entries (h ∷ hs) all_meta))

  -- The entries of a WAD whose bytes are at hand.
  unfoldable pub byte_entries : HashMap ℕ (List ℕ) → List (ℕ × ℕ)
  byte_entries [] = []
  byte_entries ((h, bytes) ∷ overrides) = (h, xxh3_64 bytes) ∷ byte_entries overrides

  unfoldable pub compute_wad_overrides_fingerprint : HashMap ℕ (List ℕ) → ℕ
  unfolding fingerprint_from_sorted_pairs
  compute_wad_overrides_fingerprint [] = 0
  compute_wad_overrides_fingerprint (o ∷ overrides) =
      fingerprint_from_sorted_pairs (sort_by_hash (byte_entries (o ∷ overrides)))
