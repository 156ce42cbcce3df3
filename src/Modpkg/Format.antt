-- ===== src/Modpkg/Format.antt =====
-- The bytes of the package format: the `write_` functions of crates/ltk_modpkg/src/builder.rs, and
-- binrw's layers and chunks of lib.rs and chunk.rs.
use league_mod.Prelude.{
  ℕ, ◌-◌, ◌%◌, ◌^◌, List, [], ◌∷◌, ◌++◌, Text, length, replicate, nat_ord, list_ord, pair_ord,
}
use league_mod.Prelude.Int.{ℤ, pos, negsuc}
use league_mod.Prelude.Slices.{overwrite}
use league_mod.Prelude.Bytes.{le_bytes}
use league_mod.Modpkg.Types.{ModpkgCompression, uncompressed, zstd, ModpkgLayer, ModpkgChunk}
use league_mod.Modpkg.Mount.{magic}

-- Integers as byteorder and binrw write them, cut to their width.
abbrev pub u32 : ℕ → List ℕ
u32 n = le_bytes 4 n

abbrev pub u64 : ℕ → List ℕ
u64 n = le_bytes 8 n

-- The 32 bits of an `i32`.
abbrev pub i32_bits : ℤ → ℕ
i32_bits (pos n) = n
i32_bits (negsuc n) = 2 ^ 32 - 1 - n

unfoldable pub header : ℕ → List ℕ
header total_chunks = magic ++ (u32 1 ++ (u32 0 ++ (u32 total_chunks ++ [])))

unfoldable pub layer_bytes : ModpkgLayer → List ℕ
layer_bytes layer = u32 (length layer.name) ++ (layer.name ++ u32 (i32_bits layer.priority))

unfoldable pub layers_bytes : List ModpkgLayer → List ℕ
layers_bytes [] = []
layers_bytes (layer ∷ layers) = layer_bytes layer ++ layers_bytes layers

unfoldable pub write_layers : List ModpkgLayer → List ℕ
write_layers layers = u32 (length layers) ++ layers_bytes layers

-- Each text with a null terminator.
unfoldable pub texts_bytes : List Text → List ℕ
texts_bytes [] = []
texts_bytes (t ∷ texts) = t ++ (0 ∷ texts_bytes texts)

-- `write_chunk_paths` and `write_wads`
unfoldable pub write_texts : List Text → List ℕ
write_texts texts = u32 (length texts) ++ texts_bytes texts

unfoldable pub write_alignment : List ℕ → List ℕ
write_alignment written = written ++ replicate ((8 - length written % 8) % 8) 0

unfoldable pub compression_byte : ModpkgCompression → ℕ
compression_byte uncompressed = 0
compression_byte zstd = 1

-- `ModpkgChunk::write`, by binrw
unfoldable pub chunk_bytes : ModpkgChunk → List ℕ
unfolding compression_byte
chunk_bytes c =
    u64 c.path_hash
    ++ (u64 c.data_offset
        ++ (le_bytes 1 (compression_byte c.compression)
            ++ (u64 c.compressed_size
                ++ (u64 c.uncompressed_size
                    ++ (u64 c.compressed_checksum
                        ++ (u64 c.uncompressed_checksum
                            ++ (u32 c.path_index ++ (u32 c.layer_index ++ u32 c.wad_index))))))))

unfoldable pub chunks_bytes : List ModpkgChunk → List ℕ
chunks_bytes [] = []
chunks_bytes (c ∷ chunks) = chunk_bytes c ++ chunks_bytes chunks

-- `write_chunk_toc`: over what stands at the offset.
unfoldable pub write_chunk_toc : ℕ → List ModpkgChunk → List ℕ → List ℕ
write_chunk_toc offset chunks written = overwrite offset (chunks_bytes chunks) written
