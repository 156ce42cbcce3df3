-- ===== src/Overlay/WadBuilder.antt =====
-- crates/ltk_overlay/src/wad_builder.rs: `build_patched_wad`. The source is the bytes of its file, the
-- destination the bytes that are written; creating and writing it does not fail. Times and logging are
-- left out.
pub mod Ordered
pub mod Entry
pub mod Placed
pub mod Statistics
pub mod Patched
use league_mod.Prelude.{
  ℕ, ◌+◌, ◌-◌, ◌*◌, ◌%◌, ◌^◌, Bool, not, ◌&&◌, ◌||◌, false, Option, none, some, List, [], ◌∷◌, ◌++◌,
  map, ltb, leb, length, take, drop, replicate, select, if◌then◌else◌, ◌==◌, nat_ord,
}
use league_mod.Prelude.HashSet.{contains}
use league_mod.Prelude.Bytes.{le_bytes}
use league_mod.Prelude.Slices.{overwrite}
use league_mod.Prelude.Outcome.{Result, ok, err, ◌>>=◌}
use league_mod.Overlay.Types.{Error, other}

-- `WadChunkCompression` of ltk_wad, as the code tells its cases apart.
pub data WadChunkCompression : Type 0 where
  stored : WadChunkCompression
  zstd : WadChunkCompression
  unsupported : ℕ → WadChunkCompression

-- `WadChunk` of ltk_wad.
pub record WadChunk : Type 0 where
  pub path_hash : ℕ
  pub data_offset : ℕ
  pub compressed_size : ℕ
  pub uncompressed_size : ℕ
  pub compression_type : WadChunkCompression
  pub is_duplicated : Bool
  pub frame_count : ℕ
  pub start_frame : ℕ
  pub checksum : ℕ

-- What it takes from other crates.
pub record WadCrates : Type 0 where
  -- opening the file, `Wad::mount` and `chunks`: the chunks in the order of the table
  pub mount : List ℕ → Result Error (List WadChunk)
  -- `LeagueFileKind::identify_from_bytes` and `ideal_compression`
  pub ideal_compression : List ℕ → WadChunkCompression
  -- `zstd::Encoder` at level 3
  pub compress : List ℕ → Result Error (List ℕ)
  -- `WadChunk::write_v3_4`
  pub write_v3_4 : WadChunk → List ℕ
  -- `xxh3_64`
  pub xxh3_64 : List ℕ → ℕ

pub record PatchedWadStats : Type 0 where
  pub chunks_written : ℕ
  pub overrides_applied : ℕ
  pub new_entries_added : ℕ
  pub chunks_passed_through : ℕ

abbrev pub toc_entry_size : ℕ
toc_entry_size = 32

-- `chunks.get(hash)`
abbrev pub find_chunk : ℕ → List WadChunk → Option WadChunk
find_chunk h [] = none
find_chunk h (c ∷ chunks) = if c.path_hash == h then some c else find_chunk h chunks

abbrev pub hashes_of : List WadChunk → List ℕ
hashes_of chunks = map (λ (c : WadChunk). c.path_hash) chunks

-- Insertion before the first hash that is not smaller: of a new hash into a sorted list, where
-- `binary_search` puts it.
unfoldable pub insert_hash : ℕ → List ℕ → List ℕ
insert_hash h [] = h ∷ []
insert_hash h (o ∷ ordered) = if ltb o h then o ∷ insert_hash h ordered else h ∷ o ∷ ordered

-- `sort`
unfoldable pub sort_hashes : List ℕ → List ℕ
sort_hashes [] = []
sort_hashes (h ∷ hashes) = insert_hash h (sort_hashes hashes)

unfoldable pub new_hashes : List ℕ → List WadChunk → List ℕ
new_hashes override_hashes chunks =
    sort_hashes (select (λ h. not (contains h (hashes_of chunks))) override_hashes)

unfoldable pub insert_all : List ℕ → List ℕ → List ℕ
insert_all [] ordered = ordered
insert_all (h ∷ hashes) ordered = insert_all hashes (insert_hash h ordered)

unfoldable pub ordered_hashes : List ℕ → List WadChunk → List ℕ
ordered_hashes override_hashes chunks =
    insert_all (new_hashes override_hashes chunks) (hashes_of chunks)

-- Magic, version, an empty signature and checksum, and the count of chunks.
unfoldable pub wad_header : ℕ → List ℕ
wad_header count =
    le_bytes 2 0x5752 ++ (3 ∷ 4 ∷ (replicate 256 0 ++ (le_bytes 8 0 ++ le_bytes 4 count)))

-- `mmap.get(start..end)`
unfoldable pub get_range : List ℕ → ℕ → ℕ → Option (List ℕ)
get_range bytes start end =
    if leb start end && leb end (length bytes)
    then some (take (end - start) (drop start bytes))
    else none

-- How a run may end early: with what the file holds by then, if it was created.
abbrev pub Failure : Type 0
Failure = Option (List ℕ) × Error

-- An error after `written` was written.
abbrev pub leaving : {A : Type 0} → List ℕ → Result Error A → Result Failure A
leaving written (ok a) = ok a
leaving written (err e) = err (some written, e)

abbrev pub or_mount_error : {A : Type 0} → Result Error A → Result Failure A
or_mount_error (ok a) = ok a
or_mount_error (err e) = err (none, e)

module _ (w : WadCrates) where
  unfoldable pub compress_by_type : List ℕ → WadChunkCompression → Result Error (List ℕ)
  compress_by_type bytes stored = ok bytes
  compress_by_type bytes zstd = w.compress bytes
  compress_by_type bytes (unsupported n) = err other

  -- The table, entry by entry.
  unfoldable pub toc_bytes : List WadChunk → List ℕ
  toc_bytes [] = []
  toc_bytes (c ∷ chunks) = w.write_v3_4 c ++ toc_bytes chunks

  module _ (source : List ℕ) (chunks : List WadChunk) (override_hashes : List ℕ)
      (resolve_override : ℕ → Result Error (List ℕ)) where
    unfoldable pub override_chunk : ℕ → ℕ → Result Error (WadChunk × List ℕ)
    override_chunk path_hash data_offset = do
      override_data ← resolve_override path_hash
      let compression = w.ideal_compression override_data
      compressed ← compress_by_type override_data compression
      if ltb (2 ^ 32 - 1) (length compressed) || ltb (2 ^ 32 - 1) (length override_data)
          then err other
          else ok (
            record {
              path_hash = path_hash;
              data_offset = data_offset;
              compressed_size = length compressed;
              uncompressed_size = length override_data;
              compression_type = compression;
              is_duplicated = false;
              frame_count = 0;
              start_frame = 0;
              checksum = w.xxh3_64 compressed;
            },
            compressed,
          )

    pass_data : ℕ → ℕ → WadChunk → Option (List ℕ) → Result Error (WadChunk × List ℕ)
    pass_data path_hash data_offset orig none = err other
    pass_data path_hash data_offset orig (some raw) = ok (
      record orig { path_hash = path_hash; data_offset = data_offset; is_duplicated = false },
      raw,
    )

    pass_found : ℕ → ℕ → Option WadChunk → Result Error (WadChunk × List ℕ)
    unfolding pass_data
    pass_found path_hash data_offset none = err other
    pass_found path_hash data_offset (some orig) =
        pass_data path_hash data_offset orig
          (get_range source orig.data_offset ((orig.data_offset + orig.compressed_size) % 2 ^ 64))

    -- The raw bytes of the source, as they are.
    unfoldable pub pass_through : ℕ → ℕ → Result Error (WadChunk × List ℕ)
    unfolding pass_found
    pass_through path_hash data_offset =
        pass_found path_hash data_offset (find_chunk path_hash chunks)

    -- One round of the loop: the entry and the bytes to write.
    unfoldable pub chunk_at : ℕ → ℕ → Result Error (WadChunk × List ℕ)
    chunk_at path_hash data_offset =
        if ltb (2 ^ 32 - 1) data_offset
        then err other
        else if contains path_hash override_hashes
        then override_chunk path_hash data_offset
        else pass_through path_hash data_offset

    -- The entries, the bytes of the file after the loop, and the overrides applied.
    unfoldable pub write_chunks :
        List ℕ → ℕ → List ℕ → ℕ → Result Failure (List WadChunk × (List ℕ × ℕ))
    write_chunks [] data_offset written applied = ok ([], (written, applied))
    write_chunks (path_hash ∷ ordered) data_offset written applied = do
      (chunk, bytes) ← leaving written (chunk_at path_hash data_offset)
      (final_chunks, out) ←
          write_chunks ordered ((data_offset + length bytes) % 2 ^ 64) (written ++ bytes)
            (if contains path_hash override_hashes then applied + 1 else applied)
      ok (chunk ∷ final_chunks, out)

    unfoldable pub write_patched : Result Failure (PatchedWadStats × List ℕ)
    write_patched = do
      let ordered = ordered_hashes override_hashes chunks
      let header = wad_header (length ordered)
      let toc_offset = length header
      (final_chunks, (written, applied)) ←
          write_chunks ordered ((toc_offset + length ordered * toc_entry_size % 2 ^ 64) % 2 ^ 64)
            (header ++ replicate (length ordered * toc_entry_size) 0) 0
      ok (
        record {
          chunks_written = length ordered;
          overrides_applied = applied;
          new_entries_added = length (new_hashes override_hashes chunks);
          chunks_passed_through = length ordered - applied;
        },
        overwrite toc_offset (toc_bytes final_chunks) written,
      )

  unfoldable pub build_patched_wad :
      List ℕ → List ℕ → (ℕ → Result Error (List ℕ)) → Result Failure (PatchedWadStats × List ℕ)
  build_patched_wad source override_hashes resolve_override = do
    chunks ← or_mount_error (w.mount source)
    write_patched source chunks override_hashes resolve_override
