-- ===== src/Modpkg/Write/Loading.antt =====
-- Loading what the builder wrote: the data of an entry, and the entry of a key.
use league_mod.Prelude.{
  ℕ, ◌≡◌, refl, sym, ap, subst, ◌∙◌, ◌⊎◌, inl, inr, true, Bool-cases, some, List, [], ◌∷◌, ◌++◌,
  arith, length, length-append, ◌==◌, eq_iff, eq→≡, nat_ord, pair_ord,
}
use mathlib.Core.List.{append_assoc}
use league_mod.Prelude.Assoc.{In, get, contains_key}
use league_mod.Prelude.HashMap.{get-insert}
use league_mod.Prelude.Outcome.{ok}
use league_mod.Overlay.Externals.{Externals}
use league_mod.Modpkg.Types.{ModpkgCompression, uncompressed, zstd, ModpkgChunk}
use league_mod.Modpkg.Crates.{Crates}
use league_mod.Modpkg.Archive.{Key, load_raw, load_as, load_chunk_decompressed}
use league_mod.Prelude.Slices.{Holds, take-append, drop-append, le-append}
use league_mod.Modpkg.Mount.{Chunks, add_chunk}
use league_mod.Modpkg.Mount.Layout.{layer_hash_of, add_chunks}
use league_mod.Modpkg.Write.Stored.{Decodes, Keeps}
use league_mod.Modpkg.Write.Meta.{data_of}

load_raw-Holds :
    (front bytes stored : List ℕ) (c : ModpkgChunk)
    → Holds (length front) bytes c.data_offset stored
    → c.compressed_size ≡ length stored
    → load_raw (front ++ bytes) c ≡ ok stored
unfolding load_raw
load_raw-Holds front bytes stored c h size =
    let at : c.data_offset ≡ length (front ++ h.before) =
      omega (arith, h.offset_is, length-append front h.before) in
    let whole : front ++ bytes ≡ (front ++ h.before) ++ (stored ++ h.after) =
      ap (λ t. front ++ t) h.split ∙ sym (append_assoc front h.before (stored ++ h.after)) in
    rw
      (
        whole,
        at,
        size,
        drop-append (front ++ h.before) (stored ++ h.after),
        le-append stored h.after,
        take-append stored h.after,
      )
      refl

load_as-Decodes :
    (x : Crates) (source raw stored : List ℕ) (c : ModpkgChunk) (compression : ModpkgCompression)
    → Decodes x compression raw stored
    → load_raw source c ≡ ok stored
    → c.uncompressed_size ≡ length raw
    → load_as x compression source c ≡ ok raw
unfolding load_as
load_as-Decodes x source raw stored c uncompressed d h size = h ∙ ap ok d
load_as-Decodes x source raw stored c zstd d h size = rw (h, size) d

-- An entry whose data stand in the file loads as its content.
pub load-Keeps :
    (x : Crates) (e : Externals) (front bytes raw : List ℕ) (c : ModpkgChunk)
    → Keeps x e (length front) bytes raw (data_of c)
    → c.uncompressed_size ≡ length raw
    → load_chunk_decompressed x (front ++ bytes) c ≡ ok raw
unfolding load_chunk_decompressed
load-Keeps x e front bytes raw c k size =
    load_as-Decodes x (front ++ bytes) raw k.stored c c.compression k.decodes
      (load_raw-Holds front bytes k.stored c k.holds k.size_is) size

module _ (hashes : List ℕ) where
  -- The key of an entry.
  abbrev pub key_of : ModpkgChunk → Key
  key_of c = (c.path_hash, layer_hash_of hashes c.layer_index)

  add_chunk_found :
      (k : Key) (c d : ModpkgChunk) (entries : List ModpkgChunk) (maps : Chunks)
      → get k (add_chunk d (layer_hash_of hashes d.layer_index) maps).0 ≡ some c
      → (get k maps.0 ≡ some c) ⊎ (In c (d ∷ entries) × (key_of c ≡ k))
  unfolding add_chunk
  add_chunk_found k c d entries (chunks, groups) h = elim (Bool-cases (key_of d == k)) [
    | inl same ↦
        let is_d : d ≡ c = ground (arith, get-insert (key_of d) k d chunks) in
        inr (inl (sym is_d), ap key_of (sym is_d) ∙ eq→≡ (key_of d) k same)
    | inr differs ↦ inl (ground (arith, get-insert (key_of d) k d chunks))
  ]

  -- What the map of the chunks answers is an entry with that key.
  pub add_chunks_found :
      (k : Key) (c : ModpkgChunk) (entries : List ModpkgChunk) (maps : Chunks)
      → get k (add_chunks hashes entries maps).0 ≡ some c
      → (get k maps.0 ≡ some c) ⊎ (In c entries × (key_of c ≡ k))
  add_chunks_found k c [] maps h = inl h
  add_chunks_found k c (d ∷ entries) maps h =
      elim (add_chunks_found k c entries (add_chunk d (layer_hash_of hashes d.layer_index) maps)
        h) [
          | inr (i, same) ↦ inr (inr i, same)
          | inl before ↦ add_chunk_found k c d entries maps before
        ]

  add_chunk-contains :
      (k : Key) (d : ModpkgChunk) (maps : Chunks)
      → contains_key k maps.0 ≡ true
      → contains_key k (add_chunk d (layer_hash_of hashes d.layer_index) maps).0 ≡ true
  unfolding add_chunk
  add_chunk-contains k d (chunks, groups) h = ground (arith, get-insert (key_of d) k d chunks)

  add_chunk-contains_self :
      (d : ModpkgChunk) (maps : Chunks)
      → contains_key (key_of d) (add_chunk d (layer_hash_of hashes d.layer_index) maps).0 ≡ true
  unfolding add_chunk
  add_chunk-contains_self d (chunks, groups) =
      ground (arith, get-insert (key_of d) (key_of d) d chunks, eq_iff (key_of d) (key_of d))

  add_chunks-contains :
      (k : Key) (entries : List ModpkgChunk) (maps : Chunks)
      → contains_key k maps.0 ≡ true
      → contains_key k (add_chunks hashes entries maps).0 ≡ true
  add_chunks-contains k [] maps h = h
  add_chunks-contains k (d ∷ entries) maps h =
      add_chunks-contains k entries _ (add_chunk-contains k d maps h)

  -- Each entry's key is in the map.
  pub add_chunks-In :
      (c : ModpkgChunk) (entries : List ModpkgChunk) (maps : Chunks)
      → In c entries
      → contains_key (key_of c) (add_chunks hashes entries maps).0 ≡ true
  add_chunks-In c [] maps i = elim i [ ]
  add_chunks-In c (d ∷ entries) maps (inl same) = add_chunks-contains (key_of c) entries _ (
      subst (λ k. contains_key k (add_chunk d (layer_hash_of hashes d.layer_index) maps).0 ≡ true)
        (ap key_of (sym same)) (add_chunk-contains_self d maps))
  add_chunks-In c (d ∷ entries) maps (inr i) = add_chunks-In c entries _ i
