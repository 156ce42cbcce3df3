-- ===== src/Modpkg/Write/Toc.antt =====
-- The chunk table fills the space that was reserved for it.
use league_mod.Prelude.{
  ℕ, zero, suc, ◌+◌, ◌*◌, ◌≡◌, refl, ◌∙◌, List, [], ◌∷◌, ◌++◌, arith, length, replicate,
  length-append, nat_ord,
}
use league_mod.Prelude.Bytes.{le_bytes, length-le_bytes}
use league_mod.Modpkg.Types.{ModpkgChunk, size_of}
use league_mod.Prelude.Slices.{overwrite-over}
use league_mod.Modpkg.Format.{compression_byte, chunk_bytes, chunks_bytes, write_chunk_toc}

add_field :
    (w n : ℕ) (rest : List ℕ) (k : ℕ) → length rest ≡ k → length (le_bytes w n ++ rest) ≡ w + k
add_field w n rest k h = length-append (le_bytes w n) rest ∙ omega (arith, length-le_bytes w n)

pub length-chunk_bytes : (c : ModpkgChunk) → length (chunk_bytes c) ≡ size_of
unfolding chunk_bytes
length-chunk_bytes c = add_field 8 c.path_hash _ _ (
    add_field 8 c.data_offset _ _ (
      add_field 1 (compression_byte c.compression) _ _ (
        add_field 8 c.compressed_size _ _ (
          add_field 8 c.uncompressed_size _ _ (
            add_field 8 c.compressed_checksum _ _ (
              add_field 8 c.uncompressed_checksum _ _ (
                add_field 4 c.path_index _ _
                  (add_field 4 c.layer_index _ _ (length-le_bytes 4 c.wad_index)))))))))

pub length-chunks_bytes :
    (chunks : List ModpkgChunk) → length (chunks_bytes chunks) ≡ length chunks * size_of
unfolding chunks_bytes
length-chunks_bytes [] = omega arith
length-chunks_bytes (c ∷ chunks) =
    length-append (chunk_bytes c) (chunks_bytes chunks)
    ∙ omega (arith, length-chunk_bytes c, length-chunks_bytes chunks)

pub length-zeros : (n : ℕ) → length {A = ℕ} (replicate n 0) ≡ n
length-zeros zero = refl
length-zeros (suc n) = omega (arith, length-zeros n)

-- Over space of its length, the table is written between what stands before and after.
pub write_chunk_toc-over :
    (before space after : List ℕ) (chunks : List ModpkgChunk)
    → length space ≡ length (chunks_bytes chunks)
    → write_chunk_toc (length before) chunks ((before ++ space) ++ after)
      ≡ before ++ (chunks_bytes chunks ++ after)
unfolding write_chunk_toc
write_chunk_toc-over before space after chunks h =
    overwrite-over before space after (chunks_bytes chunks) h
