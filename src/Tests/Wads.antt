-- ===== src/Tests/Wads.antt =====
-- A WAD of two chunks, one of them overridden, and a new chunk.
use league_mod.Prelude.{ℕ, ◌^◌, false, ◌<◌, ◌≡◌, refl, List, [], ◌∷◌, arith, length, nat_ord}
use league_mod.Prelude.HashSet.{Distinct}
use league_mod.Prelude.Bytes.{le_bytes, length-le_bytes}
use league_mod.Prelude.Outcome.{Result, ok, err}
use league_mod.Overlay.Types.{Error}
use league_mod.Overlay.WadBuilder.{
  stored, WadChunk, WadCrates, PatchedWadStats, Failure, hashes_of, ordered_hashes, find_chunk,
  build_patched_wad,
}
use league_mod.Overlay.WadBuilder.Ordered.{IsAscending}
use league_mod.Overlay.WadBuilder.Entry.{IsSource}
use league_mod.Overlay.WadBuilder.Patched.{HasEntrySize, IsPatched, build_patched_wad-IsPatched}
use league_mod.Tests.Data.{total}

abbrev entry_of : ℕ → ℕ → WadChunk
entry_of path_hash data_offset = record {
  path_hash = path_hash;
  data_offset = data_offset;
  compressed_size = 2;
  uncompressed_size = 2;
  compression_type = stored;
  is_duplicated = false;
  frame_count = 0;
  start_frame = 0;
  checksum = 3;
}

abbrev a_source : List ℕ
a_source = 1 ∷ 2 ∷ 2 ∷ 1 ∷ []

abbrev the_chunks : List WadChunk
the_chunks = entry_of 5 0 ∷ entry_of 8 2 ∷ []

abbrev wads : WadCrates
wads = record {
  mount = λ source. ok the_chunks;
  ideal_compression = λ bytes. stored;
  compress = λ bytes. ok bytes;
  write_v3_4 = λ c. le_bytes 32 c.path_hash;
  xxh3_64 = total;
}

abbrev overrides : List ℕ
overrides = 8 ∷ 3 ∷ []

abbrev resolve : ℕ → Result Error (List ℕ)
resolve h = ok (h ∷ [])

unfoldable patched : Result Failure (PatchedWadStats × List ℕ)
unfolding total le_bytes league_mod.Overlay.WadBuilder.insert_hash
    league_mod.Overlay.WadBuilder.sort_hashes league_mod.Overlay.WadBuilder.new_hashes
    league_mod.Overlay.WadBuilder.insert_all league_mod.Overlay.WadBuilder.ordered_hashes
    league_mod.Overlay.WadBuilder.wad_header league_mod.Overlay.WadBuilder.get_range
    league_mod.Overlay.WadBuilder.compress_by_type league_mod.Overlay.WadBuilder.toc_bytes
    league_mod.Overlay.WadBuilder.override_chunk league_mod.Overlay.WadBuilder.pass_through
    league_mod.Overlay.WadBuilder.chunk_at league_mod.Overlay.WadBuilder.write_chunks
    league_mod.Overlay.WadBuilder.write_patched league_mod.Overlay.WadBuilder.build_patched_wad
patched = build_patched_wad wads a_source overrides resolve

abbrev or_nothing : Result Failure (PatchedWadStats × List ℕ) → PatchedWadStats × List ℕ
or_nothing (ok out) = out
or_nothing (err _) = (
  record {
    chunks_written = 0;
    overrides_applied = 0;
    new_entries_added = 0;
    chunks_passed_through = 0;
  },
  [],
)

abbrev out : PatchedWadStats × List ℕ
out = or_nothing (build_patched_wad wads a_source overrides resolve)

patches : build_patched_wad wads a_source overrides resolve ≡ ok (out.0, out.1)
unfolding patched
patches = refl

stats_are : out.0 ≡ record {
  chunks_written = 3;
  overrides_applied = 2;
  new_entries_added = 1;
  chunks_passed_through = 1;
}
unfolding patched
stats_are = refl

wads-HasEntrySize : HasEntrySize wads
wads-HasEntrySize c = length-le_bytes 32 c.path_hash

a_source-IsSource : IsSource wads a_source the_chunks overrides resolve
a_source-IsSource = record { small = ground arith; ends_fit = (ground arith, (ground arith, tt)) }

count : length (ordered_hashes overrides the_chunks) < 2 ^ 32
unfolding patched
count = ground arith

the_chunks-IsAscending : IsAscending (hashes_of the_chunks)
the_chunks-IsAscending = ((ground arith, tt), (tt, tt))

overrides-Distinct : Distinct overrides
overrides-Distinct = (refl, (refl, tt))

build_patched_wad-IsPatched_example :
    IsPatched wads a_source the_chunks overrides resolve out.0 out.1
build_patched_wad-IsPatched_example =
    build_patched_wad-IsPatched wads a_source the_chunks overrides resolve out.0 out.1 refl
      wads-HasEntrySize a_source-IsSource overrides-Distinct the_chunks-IsAscending count patches
