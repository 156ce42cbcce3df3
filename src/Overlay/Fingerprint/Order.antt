-- ===== src/Overlay/Fingerprint/Order.antt =====
-- The fingerprint is a function of which contents the hashes of a WAD have: it depends neither on
-- the order in which a set or a map is iterated, nor on which of the two routines computes it.
use league_mod.Prelude.{
  ℕ, ◌≡◌, refl, sym, ap, ◌∙◌, Option, none, some, List, [], ◌∷◌, arith, if◌then◌else◌, ◌==◌,
  nat_ord, eq_iff, Ordering,
}
use league_mod.Prelude.Assoc
use league_mod.Prelude.Assoc.{get}
use league_mod.Prelude.HashMap.{HashMap}
use league_mod.Prelude.HashSet
use league_mod.Prelude.HashSet.{contains}
use league_mod.Prelude.TreeMap.{TreeMap, Above, IsSorted}
use league_mod.Prelude.TreeMap.Sorted.{Above-trans, sorted_ext}
use league_mod.Overlay.Types.{OverrideMeta}
use league_mod.Overlay.Fingerprint.{
  insert_entry, sort_by_hash, meta_entries, byte_entries, fingerprint_from_sorted_pairs,
  compute_wad_fingerprint_from_meta, compute_wad_overrides_fingerprint,
}

abbrev Entries : Type 0
Entries = TreeMap ℕ ℕ

Above-insert_entry :
    (j k c : ℕ) (l : Entries)
    → nat_ord.cmp j k ≡ Ordering.lt
    → Above j l
    → Above j (insert_entry (k, c) l)
unfolding insert_entry
Above-insert_entry j k c [] h a = (h, tt)
Above-insert_entry j k c ((i, d) ∷ l) h a = ground (arith, Above-insert_entry j k c l h a.1)

insert_entry-IsSorted :
    (k c : ℕ) (l : Entries) → get k l ≡ none → IsSorted l → IsSorted (insert_entry (k, c) l)
unfolding insert_entry
insert_entry-IsSorted k c [] h s = (tt, tt)
insert_entry-IsSorted k c ((i, d) ∷ l) h s =
    ground (
      arith,
      eq_iff i k,
      Above-trans k i l,
      Above-insert_entry i k c l,
      insert_entry-IsSorted k c l,
    )

get-insert_entry :
    (k c j : ℕ) (l : Entries)
    → get k l ≡ none
    → get j (insert_entry (k, c) l) ≡ (if k == j then some c else get j l)
unfolding insert_entry
get-insert_entry k c j [] h = refl
get-insert_entry k c j ((i, d) ∷ l) h =
    ground (arith, eq_iff i k, eq_iff k j, eq_iff i j, get-insert_entry k c j l)

get-sort_by_hash : (l : Entries) (j : ℕ) → Assoc.Distinct l → get j (sort_by_hash l) ≡ get j l
unfolding sort_by_hash
get-sort_by_hash [] j d = refl
get-sort_by_hash ((k, c) ∷ l) j d =
    get-insert_entry k c j (sort_by_hash l) (get-sort_by_hash l k d.1 ∙ d.0)
    ∙ rw (get-sort_by_hash l j d.1)

sort_by_hash-IsSorted : (l : Entries) → Assoc.Distinct l → IsSorted (sort_by_hash l)
unfolding sort_by_hash
sort_by_hash-IsSorted [] d = tt
sort_by_hash-IsSorted ((k, c) ∷ l) d =
    insert_entry-IsSorted k c (sort_by_hash l) (get-sort_by_hash l k d.1 ∙ d.0)
      (sort_by_hash-IsSorted l d.1)

-- Entry lists with the same lookups sort to one list.
pub sort_by_hash_ext :
    (l m : Entries)
    → Assoc.Distinct l
    → Assoc.Distinct m
    → ((j : ℕ) → get j l ≡ get j m)
    → sort_by_hash l ≡ sort_by_hash m
sort_by_hash_ext l m d e h =
    sorted_ext (sort_by_hash l) (sort_by_hash m) (sort_by_hash-IsSorted l d)
      (sort_by_hash-IsSorted m e) λ j. get-sort_by_hash l j d ∙ h j ∙ sym (get-sort_by_hash m j e)

abbrev content : Option OverrideMeta → Option ℕ
content none = none
content (some m) = some m.content_hash

-- The content that a WAD with the hashes `hs` has at `h`.
abbrev pub content_at : List ℕ → HashMap ℕ OverrideMeta → ℕ → Option ℕ
content_at hs all_meta h = if contains h hs then content (get h all_meta) else none

get-meta_entries :
    (hs : List ℕ) (all_meta : HashMap ℕ OverrideMeta) (h : ℕ)
    → get h (meta_entries hs all_meta) ≡ content_at hs all_meta h
unfolding meta_entries
get-meta_entries [] all_meta h = refl
get-meta_entries (x ∷ hs) all_meta h = ground (arith, eq_iff x h, get-meta_entries hs all_meta h)

meta_entries-Distinct :
    (hs : List ℕ) (all_meta : HashMap ℕ OverrideMeta)
    → HashSet.Distinct hs
    → Assoc.Distinct (meta_entries hs all_meta)
unfolding meta_entries
meta_entries-Distinct [] all_meta d = tt
meta_entries-Distinct (x ∷ hs) all_meta d =
    ground (arith, get-meta_entries hs all_meta x, meta_entries-Distinct hs all_meta d.1)

module _ (xxh3_64 : List ℕ → ℕ) where
  abbrev pub hash_bytes : Option (List ℕ) → Option ℕ
  hash_bytes none = none
  hash_bytes (some bytes) = some (xxh3_64 bytes)

  get-byte_entries :
      (overrides : HashMap ℕ (List ℕ)) (h : ℕ)
      → get h (byte_entries xxh3_64 overrides) ≡ hash_bytes (get h overrides)
  unfolding byte_entries
  get-byte_entries [] h = refl
  get-byte_entries ((x, b) ∷ overrides) h = ground (arith, get-byte_entries overrides h)

  byte_entries-Distinct :
      (overrides : HashMap ℕ (List ℕ))
      → Assoc.Distinct overrides
      → Assoc.Distinct (byte_entries xxh3_64 overrides)
  unfolding byte_entries
  byte_entries-Distinct [] d = tt
  byte_entries-Distinct ((x, b) ∷ overrides) d =
      ground (arith, get-byte_entries overrides x, byte_entries-Distinct overrides d.1)

  from_meta_lem :
      (hs : List ℕ) (all_meta : HashMap ℕ OverrideMeta)
      → compute_wad_fingerprint_from_meta xxh3_64 hs all_meta
        ≡ fingerprint_from_sorted_pairs xxh3_64 (sort_by_hash (meta_entries hs all_meta))
  unfolding compute_wad_fingerprint_from_meta sort_by_hash meta_entries
  from_meta_lem [] all_meta = refl
  from_meta_lem (h ∷ hs) all_meta = refl

  overrides_lem :
      (overrides : HashMap ℕ (List ℕ))
      → compute_wad_overrides_fingerprint xxh3_64 overrides
        ≡ fingerprint_from_sorted_pairs xxh3_64 (sort_by_hash (byte_entries xxh3_64 overrides))
  unfolding compute_wad_overrides_fingerprint sort_by_hash byte_entries
  overrides_lem [] = refl
  overrides_lem (o ∷ overrides) = refl

  -- Two sets of hashes, each hash once, over two metadata maps get one fingerprint if every hash
  -- has the same content, or none, under both: whatever the orders in which the sets and maps are
  -- iterated.
  pub fingerprint_order_free :
      (xs ys : List ℕ) (m n : HashMap ℕ OverrideMeta)
      → HashSet.Distinct xs
      → HashSet.Distinct ys
      → ((h : ℕ) → content_at xs m h ≡ content_at ys n h)
      → compute_wad_fingerprint_from_meta xxh3_64 xs m
        ≡ compute_wad_fingerprint_from_meta xxh3_64 ys n
  fingerprint_order_free xs ys m n d e same =
      from_meta_lem xs m
      ∙ ap (fingerprint_from_sorted_pairs xxh3_64) (
          sort_by_hash_ext _ _ (meta_entries-Distinct xs m d) (meta_entries-Distinct ys n e)
            λ h. get-meta_entries xs m h ∙ same h ∙ sym (get-meta_entries ys n h))
      ∙ sym (from_meta_lem ys n)

  -- For a set with each hash once and a map of bytes with each hash once, where the content hash
  -- recorded for each hash of the set is that of its bytes: the fingerprint from the metadata is
  -- the fingerprint from the bytes.
  pub from_meta-eq-from_bytes :
      (hs : List ℕ) (all_meta : HashMap ℕ OverrideMeta) (overrides : HashMap ℕ (List ℕ))
      → HashSet.Distinct hs
      → Assoc.Distinct overrides
      → ((h : ℕ) → content_at hs all_meta h ≡ hash_bytes (get h overrides))
      → compute_wad_fingerprint_from_meta xxh3_64 hs all_meta
        ≡ compute_wad_overrides_fingerprint xxh3_64 overrides
  from_meta-eq-from_bytes hs all_meta overrides d e same =
      from_meta_lem hs all_meta
      ∙ ap (fingerprint_from_sorted_pairs xxh3_64) (
          sort_by_hash_ext _ _ (meta_entries-Distinct hs all_meta d)
            (byte_entries-Distinct overrides e)
            λ h. get-meta_entries hs all_meta h ∙ same h ∙ sym (get-byte_entries overrides h))
      ∙ sym (overrides_lem overrides)
