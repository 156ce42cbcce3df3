-- ===== src/Modpkg/Write/Placed.antt =====
-- The entries that the builder writes fit the chunk table, and their layers are in the table of layers.
use league_mod.Prelude.{
  ℕ, zero, suc, ◌+◌, ◌^◌, ◌<◌, ◌≤◌, ◌≡◌, refl, sym, ap, subst, false, Bool-cases, inl, inr, some,
  List, [], ◌∷◌, ◌++◌, arith, length, length-append, get_elem?, if◌then◌else◌, ◌==◌, nat_ord,
  list_ord,
}
use league_mod.Prelude.Assoc.{In, get, AllEntries}
use league_mod.Prelude.HashMap.{HashMap}
use league_mod.Prelude.Outcome.{ok}
use league_mod.Overlay.Externals.{Externals}
use league_mod.Overlay.FilePath.{is_empty}
use league_mod.Modpkg.Types.{ModpkgLayer, ModpkgChunk, no_layer_index, no_layer_hash}
use league_mod.Modpkg.Crates.{Crates}
use league_mod.Overlay.ChunkHash.{hash_chunk_name}
use league_mod.Modpkg.Names.{hash_layer_name, hash_wad_name}
use league_mod.Modpkg.Builder.{ModpkgChunkBuilder, ModpkgBuilder, key}
use league_mod.Modpkg.Reader.Reads.{Reads}
use league_mod.Modpkg.Mount.{layer_hash_at}
use league_mod.Modpkg.Mount.Fields.{layer_hashes}
use league_mod.Modpkg.Mount.Layout.{layer_hash_of, IsPlaced}
use league_mod.Modpkg.Tables.{
  or_zero, or_no_index, validate_layers, collect_unique_layers, all_builders, build_layer_index_map,
}
use league_mod.Modpkg.Tables.Layers.{layer_found}
use league_mod.Modpkg.Write.{WrittenData, Indices, chunk_of}
use league_mod.Prelude.Slices.{Holds}
use league_mod.Modpkg.Write.Stored.{Keeps}
use league_mod.Modpkg.Write.Meta.{IsMeta, data_of}

-- Data that stand in the file end within it.
pub Holds-bound :
    (base : ℕ) (bytes : List ℕ) (offset : ℕ) (stored : List ℕ)
    → Holds base bytes offset stored
    → offset + length stored ≤ base + length bytes
Holds-bound base bytes offset stored h = omega (
  arith,
  ap (length {A = ℕ}) h.split,
  h.offset_is,
  length-append h.before (stored ++ h.after),
  length-append stored h.after,
)

get_elem?-lt : (xs : List ℕ) (i h : ℕ) → get_elem? xs i ≡ some h → i < length xs
get_elem?-lt [] i h e = cc
get_elem?-lt (x ∷ xs) zero h e = omega arith
get_elem?-lt (x ∷ xs) (suc i) h e = omega (arith, get_elem?-lt xs i h e)

or_zero-lt :
    (h : ℕ) (m : HashMap ℕ ℕ) → AllEntries (λ k i. i < 2 ^ 32) m → or_zero (get h m) < 2 ^ 32
or_zero-lt h [] a = omega arith
or_zero-lt h ((k, i) ∷ m) a = ground (arith, or_zero-lt h m a.1)

or_no_index-lt :
    (h : ℕ) (m : HashMap ℕ ℕ) → AllEntries (λ k i. i < 2 ^ 32) m → or_no_index (get h m) < 2 ^ 32
or_no_index-lt h [] a = omega arith
or_no_index-lt h ((k, i) ∷ m) a = ground (arith, or_no_index-lt h m a.1)

-- An index that leads to a hash.
pub record LeadsTo (hashes : List ℕ) (index h : ℕ) : Type 0 where
  pub fits : index < 2 ^ 32
  pub hash_is : layer_hash_of hashes index ≡ h
  pub read : Reads (layer_hash_at hashes index) [] (layer_hash_of hashes index)

pub no_layer-LeadsTo : (hashes : List ℕ) → LeadsTo hashes no_layer_index no_layer_hash
unfolding layer_hash_at
no_layer-LeadsTo hashes = record {
  fits = omega arith;
  hash_is = refl;
  read = record { run = λ rest. refl };
}

place-LeadsTo :
    (hashes : List ℕ) (i h : ℕ)
    → length hashes < no_layer_index
    → get_elem? hashes i ≡ some h
    → LeadsTo hashes i h
unfolding layer_hash_at
place-LeadsTo hashes i h few at =
    let low = get_elem?-lt hashes i h at in
    let other : (i == no_layer_index) ≡ false = ground arith in
    record {
      fits = omega arith;
      hash_is = rw (other, at) refl;
      read = record { run = λ rest. rw (other, at) refl };
    }

length-layer_hashes :
    (e : Externals) (b : ModpkgBuilder) → length (layer_hashes e b.layers) ≡ length b.layers
length-layer_hashes e b = go b.layers
  where
    go : (layers : List ModpkgLayer) → length (layer_hashes e layers) ≡ length layers
    go [] = refl
    go (l ∷ layers) = omega (arith, go layers)

-- The layer index of a chunk leads to the second part of its key.
pub layer-LeadsTo :
    (e : Externals) (b : ModpkgBuilder) (c : ModpkgChunkBuilder)
    → validate_layers b.layers (collect_unique_layers e b).0 ≡ ok tt
    → length b.layers < no_layer_index
    → In c (all_builders b)
    → LeadsTo
        (layer_hashes e b.layers)
        (if is_empty c.layer
          then no_layer_index
          else or_no_index (get (hash_layer_name e c.layer) (build_layer_index_map e b.layers)))
        (key e c).1
unfolding key
layer-LeadsTo e b c v few there = elim (Bool-cases (is_empty c.layer)) [
  | inl t ↦ rw t (no_layer-LeadsTo (layer_hashes e b.layers))
  | inr t ↦
      let place = layer_found e b c v (omega arith) there t in
      rw (t, place.1)
        (place-LeadsTo (layer_hashes e b.layers) place.0 (hash_layer_name e c.layer)
          (omega (arith, length-layer_hashes e b)) place.2)
]

-- The checksums of the program have 64 bits.
pub record HasWidth (e : Externals) : Type 0 where
  pub xxh3-lt : (bytes : List ℕ) → e.xxh3_64 bytes < 2 ^ 64
  pub xxh64-lt : (bytes : List ℕ) → e.xxh64 bytes < 2 ^ 64

module _ (x : Crates) (e : Externals) (width : HasWidth e) (base : ℕ) (bytes : List ℕ)
    (small : base + length bytes < 2 ^ 64) where
  data_fits :
      (raw : List ℕ) (entry : WrittenData)
      → Keeps x e base bytes raw entry
      → (entry.data_offset < 2 ^ 64)
        × (entry.compressed_size < 2 ^ 64)
        × (entry.compressed_checksum < 2 ^ 64)
  data_fits raw entry k =
      let bound = Holds-bound base bytes entry.data_offset k.stored k.holds in
      (
        omega (arith, bound, small),
        omega (arith, bound, small, k.size_is),
        subst (λ n. n < 2 ^ 64) (sym k.checksum_is) (width.xxh3-lt k.stored),
      )

  pub chunk_of-IsPlaced :
      (hashes : List ℕ) (indices : Indices) (c : ModpkgChunkBuilder) (raw : List ℕ)
      (entry : WrittenData) (h : ℕ)
      → Keeps x e base bytes raw entry
      → c.path_hash < 2 ^ 64
      → length raw < 2 ^ 64
      → AllEntries (λ k i. i < 2 ^ 32) indices.paths
      → AllEntries (λ k i. i < 2 ^ 32) indices.wads
      → LeadsTo hashes (chunk_of e indices c raw entry).layer_index h
      → IsPlaced hashes (chunk_of e indices c raw entry)
  unfolding chunk_of
  chunk_of-IsPlaced hashes indices c raw entry h k path_fits raw_fits paths wads leads =
      let fits = data_fits raw entry k in
      record {
        encodable = record {
          path_hash_fits = path_fits;
          data_offset_fits = fits.0;
          compressed_size_fits = fits.1;
          uncompressed_size_fits = raw_fits;
          compressed_checksum_fits = fits.2;
          uncompressed_checksum_fits = width.xxh3-lt raw;
          path_index_fits = or_zero-lt c.path_hash indices.paths paths;
          layer_index_fits = leads.fits;
          wad_index_fits = ground (arith, or_no_index-lt (hash_wad_name e c.wad) indices.wads wads);
        };
        has_layer = leads.read;
      }

  pub IsMeta-IsPlaced :
      (hashes : List ℕ) (path_indices : HashMap ℕ ℕ) (path : List ℕ) (raw : List ℕ)
      (c : ModpkgChunk)
      → IsMeta x e base path_indices bytes path raw c
      → AllEntries (λ k i. i < 2 ^ 32) path_indices
      → IsPlaced hashes c
  unfolding hash_chunk_name
  IsMeta-IsPlaced hashes path_indices path raw c m paths =
      let fits = data_fits raw (data_of c) m.keeps in
      let raw_fits : length raw < 2 ^ 64 = omega (arith, fits.1, m.stored_size_is) in
      let leads : LeadsTo hashes c.layer_index no_layer_hash =
        subst (λ i. LeadsTo hashes i no_layer_hash) (sym m.layer_index_is)
          (no_layer-LeadsTo hashes) in
      record {
        encodable = record {
          path_hash_fits = subst (λ n. n < 2 ^ 64) (sym m.path_hash_is) (width.xxh64-lt path);
          data_offset_fits = fits.0;
          compressed_size_fits = fits.1;
          uncompressed_size_fits = subst (λ n. n < 2 ^ 64) (sym m.size_is) raw_fits;
          compressed_checksum_fits = fits.2;
          uncompressed_checksum_fits =
              subst (λ n. n < 2 ^ 64) (sym m.checksum_is) (width.xxh3-lt raw);
          path_index_fits =
              subst (λ n. n < 2 ^ 32) (sym m.path_index_is)
                (or_zero-lt c.path_hash path_indices paths);
          layer_index_fits = leads.fits;
          wad_index_fits = subst (λ n. n < 2 ^ 32) (sym m.wad_index_is) (omega arith);
        };
        has_layer = leads.read;
      }
