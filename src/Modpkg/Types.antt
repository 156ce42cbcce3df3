-- ===== src/Modpkg/Types.antt =====
-- The data of crates/ltk_modpkg: error.rs, chunk.rs, license.rs, metadata.rs, and the layers and the
-- compression of lib.rs.
use league_mod.Prelude.{ℕ, Option, none, some, List, [], Text, text, if◌then◌else◌, ◌==◌, nat_ord}
use league_mod.Prelude.Int.{ℤ}
use league_mod.Prelude.HashMap.{HashMap}
use league_mod.Prelude.Outcome.{Result, ok, err}

pub data ModpkgCompression : Type 0 where
  uncompressed : ModpkgCompression
  zstd : ModpkgCompression

pub data ModpkgError : Type 0 where
  io io_ext_error binrw_error : ModpkgError
  invalid_header_size unsorted_chunks : ℕ → ℕ → ModpkgError
  missing_metadata missing_base_layer : ModpkgError
  invalid_compression_type : ℕ → ModpkgError
  unexpected_compression_type : ℕ → ModpkgCompression → ModpkgCompression → ModpkgError
  invalid_license_type invalid_magic invalid_version duplicate_chunk : ℕ → ModpkgError
  missing_chunk : ℕ → ModpkgError
  invalid_meta_chunk msgpack_decode msgpack_encode : ModpkgError

-- `ModpkgCompression::try_from`
unfoldable pub try_from : ℕ → Result ModpkgError ModpkgCompression
try_from value =
    if value == 0
    then ok uncompressed
    else if value == 1
    then ok zstd
    else err (invalid_compression_type value)

-- A layer of the archive, and of the builder (`ModpkgLayerBuilder`).
pub record ModpkgLayer : Type 0 where
  pub name : Text
  pub priority : ℤ

abbrev pub no_layer_index : ℕ
no_layer_index = 0xffffffff

abbrev pub no_wad_index : ℕ
no_wad_index = 0xffffffff

abbrev pub no_layer_hash : ℕ
no_layer_hash = 0xffffffffffffffff

pub record ModpkgChunk : Type 0 where
  pub path_hash : ℕ
  pub data_offset : ℕ
  pub compression : ModpkgCompression
  pub compressed_size : ℕ
  pub uncompressed_size : ℕ
  pub compressed_checksum : ℕ
  pub uncompressed_checksum : ℕ
  pub path_index : ℕ
  pub layer_index : ℕ
  pub wad_index : ℕ

-- `ModpkgChunk::size_of`
abbrev pub size_of : ℕ
size_of = 61

-- `ModpkgChunk::layer`
unfoldable pub layer : ModpkgChunk → Option ℕ
layer chunk = if chunk.layer_index == no_layer_index then none else some chunk.layer_index

pub data ModpkgLicense : Type 0 where
  unlicensed : ModpkgLicense
  spdx : Text → ModpkgLicense
  custom : Text → Text → ModpkgLicense

pub record DistributorInfo : Type 0 where
  pub site_id : Text
  pub site_name : Text
  pub site_url : Text
  pub mod_id : Text

pub record ModpkgAuthor : Type 0 where
  pub name : Text
  pub role : Option Text

pub record ModpkgLayerMetadata : Type 0 where
  pub name : Text
  pub display_name : Option Text
  pub priority : ℤ
  pub description : Option Text
  pub string_overrides : HashMap Text (HashMap Text Text)

-- A `semver::Version` is its text.
pub record ModpkgMetadata : Type 0 where
  pub schema_version : ℕ
  pub name : Text
  pub display_name : Text
  pub description : Option Text
  pub version : Text
  pub distributor : Option DistributorInfo
  pub authors : List ModpkgAuthor
  pub license : ModpkgLicense
  pub tags : List Text
  pub champions : List Text
  pub maps : List Text
  pub layers : List ModpkgLayerMetadata

abbrev pub default_schema_version : ℕ
default_schema_version = 2

-- `ModpkgMetadata::default`
abbrev pub default_metadata : ModpkgMetadata
default_metadata = record {
  schema_version = default_schema_version;
  name = [];
  display_name = [];
  description = none;
  version = text "0.0.0";
  distributor = none;
  authors = [];
  license = unlicensed;
  tags = [];
  champions = [];
  maps = [];
  layers = [];
}

abbrev pub base_layer_name : Text
base_layer_name = text "base"

abbrev pub metadata_chunk_path : Text
metadata_chunk_path = text "_meta_/info.msgpack"

abbrev pub thumbnail_chunk_path : Text
thumbnail_chunk_path = text "_meta_/thumbnail.webp"

abbrev pub readme_chunk_path : Text
readme_chunk_path = text "_meta_/readme.md"
