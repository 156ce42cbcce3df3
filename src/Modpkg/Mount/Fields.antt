-- ===== src/Modpkg/Mount/Fields.antt =====
-- The reader takes the bytes that the builder writes: layers, chunks, texts and the header.
use league_mod.Prelude.{
  ℕ, ◌^◌, ◌<◌, ◌≡◌, refl, sym, ap, subst, true, List, [], ◌∷◌, ◌++◌, Text, arith, length, All, map,
  nat_ord, pair_ord,
}
use mathlib.Core.List.{append-nil, append_assoc}
use league_mod.Prelude.Int.{ℤ, pos, negsuc}
use league_mod.Prelude.Bytes.{from_le}
use league_mod.Prelude.HashMap.{HashMap, insert}
use league_mod.Prelude.Utf8.{is_utf8}
use league_mod.Overlay.Externals.{Externals}
use league_mod.Overlay.ChunkHash.{hash_chunk_name, normalize_chunk_path}
use league_mod.Modpkg.Types.{
  ModpkgError, io, binrw_error, ModpkgCompression, uncompressed, zstd, ModpkgLayer, ModpkgChunk,
}
use league_mod.Modpkg.Crates.{Crates, IsCText, Documented}
use league_mod.Modpkg.Names.{hash_layer_name, hash_wad_name}
use league_mod.Modpkg.Reader.{
  Reader, ◌>>=◌, read_uint, to_i32, utf8, read_layer, compression_of, read_chunk,
}
use league_mod.Modpkg.Reader.Reads.{
  Reads, Reads-pure, Reads->>=, Reads-last, Reads-read_exact, Reads-read_uint, Reads-read_uint_of,
  Reads-retype,
}
use league_mod.Modpkg.Format.{
  u32, u64, i32_bits, header, layer_bytes, layers_bytes, write_layers, texts_bytes, write_texts,
  compression_byte, chunk_bytes,
}
use league_mod.Modpkg.Mount.{
  magic, read_header, lift, read_layers_from, read_layers, read_chunk_paths_from, read_chunk_paths,
  read_wads_from, read_wads,
}

abbrev pub IsI32 : ℤ → Type 0
IsI32 (pos n) = n < 2 ^ 31
IsI32 (negsuc n) = n < 2 ^ 31

-- A layer that fits the format.
pub record IsLayer (l : ModpkgLayer) : Type 0 where
  pub is_text : is_utf8 l.name ≡ true
  pub length_fits : length l.name < 2 ^ 32
  pub priority_fits : IsI32 l.priority

to_i32-i32_bits : (n : ℤ) → IsI32 n → to_i32 (i32_bits n) ≡ n
to_i32-i32_bits (pos n) h = ground arith
to_i32-i32_bits (negsuc n) h = ground arith

i32_bits-lt : (n : ℤ) → IsI32 n → i32_bits n < 256 ^ 4
i32_bits-lt (pos n) h = omega arith
i32_bits-lt (negsuc n) h = omega arith

Reads-u32 : (e : ModpkgError) (n : ℕ) → n < 2 ^ 32 → Reads (read_uint e 4) (u32 n) n
Reads-u32 e n h = Reads-read_uint e 4 n (omega arith)

Reads-u64 : (e : ModpkgError) (n : ℕ) → n < 2 ^ 64 → Reads (read_uint e 8) (u64 n) n
Reads-u64 e n h = Reads-read_uint e 8 n (omega arith)

Reads-utf8 : (t : Text) → is_utf8 t ≡ true → Reads (utf8 t) [] t
unfolding utf8
Reads-utf8 t h = record { run = λ rest. rw h refl }

Reads-read_layer : (l : ModpkgLayer) → IsLayer l → Reads read_layer (layer_bytes l) l
unfolding read_layer layer_bytes
Reads-read_layer l v = Reads->>= _ _ (Reads-u32 binrw_error (length l.name) v.length_fits) (
    Reads->>= _ _ (Reads-read_exact binrw_error l.name) (
      Reads->>= _ _ (Reads-utf8 l.name v.is_text) (
        subst (Reads _ (u32 (i32_bits l.priority)))
          (ap (λ p. record { name = l.name; priority = p })
            (to_i32-i32_bits l.priority v.priority_fits))
          (Reads-last (read_uint binrw_error 4) (λ n. record { name = l.name; priority = to_i32 n })
            (Reads-read_uint binrw_error 4 (i32_bits l.priority)
              (i32_bits-lt l.priority v.priority_fits))))))

-- A chunk whose numbers fit their fields.
pub record IsEncodable (c : ModpkgChunk) : Type 0 where
  pub path_hash_fits : c.path_hash < 2 ^ 64
  pub data_offset_fits : c.data_offset < 2 ^ 64
  pub compressed_size_fits : c.compressed_size < 2 ^ 64
  pub uncompressed_size_fits : c.uncompressed_size < 2 ^ 64
  pub compressed_checksum_fits : c.compressed_checksum < 2 ^ 64
  pub uncompressed_checksum_fits : c.uncompressed_checksum < 2 ^ 64
  pub path_index_fits : c.path_index < 2 ^ 32
  pub layer_index_fits : c.layer_index < 2 ^ 32
  pub wad_index_fits : c.wad_index < 2 ^ 32

compression_byte-lt : (c : ModpkgCompression) → compression_byte c < 256 ^ 1
unfolding compression_byte
compression_byte-lt uncompressed = omega arith
compression_byte-lt zstd = omega arith

Reads-compression : (c : ModpkgCompression) → Reads (compression_of (compression_byte c)) [] c
unfolding compression_of compression_byte
Reads-compression uncompressed = Reads-pure uncompressed
Reads-compression zstd = Reads-pure zstd

pub Reads-read_chunk : (c : ModpkgChunk) → IsEncodable c → Reads read_chunk (chunk_bytes c) c
unfolding read_chunk chunk_bytes
Reads-read_chunk c v = Reads->>= _ _ (Reads-u64 binrw_error c.path_hash v.path_hash_fits) (
    Reads->>= _ _ (Reads-u64 binrw_error c.data_offset v.data_offset_fits) (
      Reads->>= _ _ (Reads-read_uint binrw_error 1 _ (compression_byte-lt c.compression)) (
        Reads->>= _ _ (Reads-compression c.compression) (
          Reads->>= _ _ (Reads-u64 binrw_error c.compressed_size v.compressed_size_fits) (
            Reads->>= _ _ (Reads-u64 binrw_error c.uncompressed_size v.uncompressed_size_fits) (
              Reads->>= _ _ (Reads-u64 binrw_error c.compressed_checksum v.compressed_checksum_fits)
                (Reads->>= _ _
                  (Reads-u64 binrw_error c.uncompressed_checksum v.uncompressed_checksum_fits)
                  (Reads->>= _ _ (Reads-u32 binrw_error c.path_index v.path_index_fits) (
                    Reads->>= _ _ (Reads-u32 binrw_error c.layer_index v.layer_index_fits)
                      (Reads-last _ _ (Reads-u32 binrw_error c.wad_index v.wad_index_fits)))))))))))

pub Reads-read_header : (n : ℕ) → n < 2 ^ 32 → Reads read_header (header n) ([], n)
unfolding read_header header from_le
Reads-read_header n h = Reads->>= _ _ (Reads-read_uint_of io magic) (
    Reads->>= _ _ (Reads-u32 io 1 (omega arith)) (
      Reads->>= _ _ (Reads-u32 io 0 (omega arith))
        (Reads->>= _ _ (Reads-u32 io n h) (Reads-last _ _ (Reads-read_exact io [])))))

-- What the tables of an archive hold for layers and texts.
module _ (e : Externals) where
  abbrev pub layer_hashes : List ModpkgLayer → List ℕ
  layer_hashes layers = map (λ l. hash_layer_name e l.name) layers

  abbrev pub insert_layers : List ModpkgLayer → HashMap ℕ ModpkgLayer → HashMap ℕ ModpkgLayer
  insert_layers [] m = m
  insert_layers (l ∷ layers) m = insert_layers layers (insert (hash_layer_name e l.name) l m)

  Reads-read_layers_from :
      (layers : List ModpkgLayer) (indices : List ℕ) (m : HashMap ℕ ModpkgLayer)
      → All IsLayer layers
      → Reads
          (read_layers_from e (length layers) indices m)
          (layers_bytes layers)
          (indices ++ layer_hashes layers, insert_layers layers m)
  unfolding read_layers_from layers_bytes
  Reads-read_layers_from [] indices m v =
      Reads-retype (ap (λ i. (i, m)) (sym (append-nil indices))) (Reads-pure (indices, m))
  Reads-read_layers_from (l ∷ layers) indices m v = Reads->>= _ _ (Reads-read_layer l v.0) (
      Reads-retype
        (ap (λ i. (i, insert_layers (l ∷ layers) m))
          (append_assoc indices (hash_layer_name e l.name ∷ []) (layer_hashes layers)))
        (Reads-read_layers_from layers (indices ++ (hash_layer_name e l.name ∷ []))
          (insert (hash_layer_name e l.name) l m) v.1))

  pub Reads-read_layers :
      (layers : List ModpkgLayer)
      → All IsLayer layers
      → length layers < 2 ^ 32
      → Reads (read_layers e) (write_layers layers) (layer_hashes layers, insert_layers layers [])
  unfolding read_layers write_layers
  Reads-read_layers layers v h =
      Reads->>= _ _ (Reads-u32 io (length layers) h) (Reads-read_layers_from layers [] [] v)

module _ (e : Externals) where
  abbrev pub path_hashes : List Text → List ℕ
  path_hashes texts = map (λ t. hash_chunk_name e (normalize_chunk_path e t)) texts

  abbrev pub insert_paths : List Text → HashMap ℕ Text → HashMap ℕ Text
  insert_paths [] m = m
  insert_paths (t ∷ texts) m =
      insert_paths texts
        (insert (hash_chunk_name e (normalize_chunk_path e t)) (normalize_chunk_path e t) m)

  abbrev pub wad_hashes : List Text → List ℕ
  wad_hashes texts = map (λ t. hash_wad_name e t) texts

  abbrev pub insert_wads : List Text → HashMap ℕ Text → HashMap ℕ Text
  insert_wads [] m = m
  insert_wads (t ∷ texts) m = insert_wads texts (insert (hash_wad_name e t) (t) m)

module _ (x : Crates) (e : Externals) (documented : Documented x) where
  abbrev Table : Type 0
  Table = List ℕ × HashMap ℕ Text

  -- A text with its terminator, and what follows it.
  Reads-text :
      {B : Type 0} (f : Text → Reader B) (t : Text) {s : List ℕ} {b : B}
      → IsCText t
      → Reads (f t) s b
      → Reads (lift x.read_str_until_nul >>= f) (t ++ (0 ∷ s)) b
  Reads-text f t {s} v r = record {
    run =
        λ rest. rw (append_assoc t (0 ∷ s) rest, documented.reads_str t (s ++ rest) v) (r.run rest);
  }

  Reads-read_chunk_paths_from :
      (texts : List Text) (indices : List ℕ) (m : HashMap ℕ Text)
      → All IsCText texts
      → Reads
          (read_chunk_paths_from x e (length texts) indices m)
          (texts_bytes texts)
          (indices ++ path_hashes e texts, insert_paths e texts m)
  unfolding read_chunk_paths_from texts_bytes
  Reads-read_chunk_paths_from [] indices m v =
      Reads-retype (ap (λ i. (i, m)) (sym (append-nil indices))) (Reads-pure (indices, m))
  Reads-read_chunk_paths_from (t ∷ texts) indices m v = Reads-text _ _ v.0 (
      Reads-retype
        (ap (λ i. (i, insert_paths e (t ∷ texts) m))
          (append_assoc indices ((hash_chunk_name e (normalize_chunk_path e t)) ∷ [])
            (path_hashes e texts)))
        (Reads-read_chunk_paths_from texts
          (indices ++ ((hash_chunk_name e (normalize_chunk_path e t)) ∷ []))
          (insert (hash_chunk_name e (normalize_chunk_path e t)) (normalize_chunk_path e t) m) v.1))

  pub Reads-read_chunk_paths :
      (texts : List Text)
      → All IsCText texts
      → length texts < 2 ^ 32
      → Reads
          (read_chunk_paths x e)
          (write_texts texts)
          (path_hashes e texts, insert_paths e texts [])
  unfolding read_chunk_paths write_texts
  Reads-read_chunk_paths texts v h =
      Reads->>= _ _ (Reads-u32 io (length texts) h) (Reads-read_chunk_paths_from texts [] [] v)

  Reads-read_wads_from :
      (texts : List Text) (indices : List ℕ) (m : HashMap ℕ Text)
      → All IsCText texts
      → Reads
          (read_wads_from x e (length texts) indices m)
          (texts_bytes texts)
          (indices ++ wad_hashes e texts, insert_wads e texts m)
  unfolding read_wads_from texts_bytes
  Reads-read_wads_from [] indices m v =
      Reads-retype (ap (λ i. (i, m)) (sym (append-nil indices))) (Reads-pure (indices, m))
  Reads-read_wads_from (t ∷ texts) indices m v = Reads-text _ _ v.0 (
      Reads-retype
        (ap (λ i. (i, insert_wads e (t ∷ texts) m))
          (append_assoc indices ((hash_wad_name e t) ∷ []) (wad_hashes e texts)))
        (Reads-read_wads_from texts (indices ++ ((hash_wad_name e t) ∷ []))
          (insert (hash_wad_name e t) (t) m) v.1))

  pub Reads-read_wads :
      (texts : List Text)
      → All IsCText texts
      → length texts < 2 ^ 32
      → Reads (read_wads x e) (write_texts texts) (wad_hashes e texts, insert_wads e texts [])
  unfolding read_wads write_texts
  Reads-read_wads texts v h =
      Reads->>= _ _ (Reads-u32 io (length texts) h) (Reads-read_wads_from texts [] [] v)
