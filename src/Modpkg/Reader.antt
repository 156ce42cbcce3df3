-- ===== src/Modpkg/Reader.antt =====
-- Reading the package format: byteorder's integers, `read_exact` and binrw's layers and chunks, in
-- crates/ltk_modpkg/src/lib.rs, chunk.rs and read.rs. What is left of the input is the state.
pub mod Reads
use league_mod.Prelude.{
  ℕ, zero, suc, ◌-◌, ◌^◌, Bool, true, false, List, [], ◌∷◌, Text, ltb, leb, length, take, drop,
  if◌then◌else◌, ◌==◌, nat_ord,
}
use league_mod.Prelude.Int.{ℤ, pos, negsuc}
use league_mod.Prelude.Bytes.{from_le}
use league_mod.Prelude.Utf8.{is_utf8}
use league_mod.Prelude.Outcome.{Result, ok, err}
use league_mod.Modpkg.Types.{
  ModpkgError, binrw_error, ModpkgCompression, uncompressed, zstd, ModpkgLayer, ModpkgChunk,
}

-- How a call may end early: by an error, or by a panic.
pub data Fault : Type 0 where
  failed : ModpkgError → Fault
  panicked : Fault

abbrev pub Reader : Type 0 → Type 0
Reader A = List ℕ → Result Fault (A × List ℕ)

abbrev pub feed :
    {A B : Type 0} → (A → Reader B) → Result Fault (A × List ℕ) → Result Fault (B × List ℕ)
feed f (ok (a, rest)) = f a rest
feed f (err e) = err e

infixl 5 ◌>>=◌
abbrev pub ◌>>=◌ : {A B : Type 0} → Reader A → (A → Reader B) → Reader B
◌>>=◌ m f s = feed f (m s)

abbrev pub pure : {A : Type 0} → A → Reader A
pure a s = ok (a, s)

abbrev pub fail : {A : Type 0} → Fault → Reader A
fail e s = err e

-- `n` bytes, or the error.
unfoldable pub read_exact : ModpkgError → ℕ → Reader (List ℕ)
read_exact e n s = if leb n (length s) then ok (take n s, drop n s) else err (failed e)

-- A little-endian integer of `n` bytes.
unfoldable pub read_uint : ModpkgError → ℕ → Reader ℕ
read_uint e n = do bytes ← read_exact e n; pure (from_le bytes)

-- The `i32` of 32 bits.
abbrev pub to_i32 : ℕ → ℤ
to_i32 n = if ltb n (2 ^ 31) then pos n else negsuc (2 ^ 32 - 1 - n)

-- `String::from_utf8`
unfoldable pub utf8 : List ℕ → Reader Text
utf8 bytes = if is_utf8 bytes then pure bytes else fail (failed binrw_error)

unfoldable pub read_layer : Reader ModpkgLayer
read_layer = do
  name_len ← read_uint binrw_error 4
  bytes ← read_exact binrw_error name_len
  name ← utf8 bytes
  priority ← read_uint binrw_error 4
  pure (record { name = name; priority = to_i32 priority })

unfoldable pub compression_of : ℕ → Reader ModpkgCompression
compression_of value =
    if value == 0
    then pure uncompressed
    else if value == 1
    then pure zstd
    else fail (failed binrw_error)

unfoldable pub read_chunk : Reader ModpkgChunk
read_chunk = do
  path_hash ← read_uint binrw_error 8
  data_offset ← read_uint binrw_error 8
  value ← read_uint binrw_error 1
  compression ← compression_of value
  compressed_size ← read_uint binrw_error 8
  uncompressed_size ← read_uint binrw_error 8
  compressed_checksum ← read_uint binrw_error 8
  uncompressed_checksum ← read_uint binrw_error 8
  path_index ← read_uint binrw_error 4
  layer_index ← read_uint binrw_error 4
  wad_index ← read_uint binrw_error 4
  pure (record {
    path_hash = path_hash;
    data_offset = data_offset;
    compression = compression;
    compressed_size = compressed_size;
    uncompressed_size = uncompressed_size;
    compressed_checksum = compressed_checksum;
    uncompressed_checksum = uncompressed_checksum;
    path_index = path_index;
    layer_index = layer_index;
    wad_index = wad_index;
  })
