-- ===== src/Overlay/WadBuilder/Patched.antt =====
-- The whole file that `build_patched_wad` writes.
use league_mod.Prelude.{
  ℕ, zero, suc, ◌-◌, ◌+◌, ◌*◌, ◌%◌, ◌^◌, ◌<◌, ◌≡◌, refl, sym, ap, subst, ◌∙◌, ◌||◌, List, [], ◌∷◌,
  ◌++◌, arith, length, length-append, replicate, All, nat_ord,
}
use mathlib.Core.List.{append-nil}
use league_mod.Prelude.HashSet.{contains, Distinct}
use league_mod.Prelude.Bytes.{le_bytes, length-le_bytes}
use league_mod.Prelude.Slices.{overwrite, overwrite-over}
use league_mod.Prelude.Outcome.{Result, ok, >>=-eq-ok}
use league_mod.Overlay.Types.{Error}
use league_mod.Overlay.WadBuilder.{
  WadChunk, WadCrates, PatchedWadStats, toc_entry_size, hashes_of, ordered_hashes, wad_header,
  or_mount_error, toc_bytes, new_hashes, write_chunks, write_patched, build_patched_wad,
}
use league_mod.Overlay.WadBuilder.Entry.{IsSource}
use league_mod.Overlay.WadBuilder.Placed.{IsPlaced, write_chunks-AreWritten}
use league_mod.Overlay.WadBuilder.Statistics.{AreCounted, written-AreCounted}
use league_mod.Overlay.WadBuilder.Ordered.{IsAscending, ordered_hashes-IsAscending}

length-replicate : (n : ℕ) → length {A = ℕ} (replicate n 0) ≡ n
length-replicate zero = refl
length-replicate (suc n) = omega (arith, length-replicate n)

length-wad_header : (count : ℕ) → length (wad_header count) ≡ 272
unfolding wad_header
length-wad_header count =
    length-append (le_bytes 2 0x5752) _
    ∙ omega (
      arith,
      length-le_bytes 2 0x5752,
      length-append (replicate 256 0) (le_bytes 8 0 ++ le_bytes 4 count),
      length-replicate 256,
      length-append (le_bytes 8 0) (le_bytes 4 count),
      length-le_bytes 8 0,
      length-le_bytes 4 count,
    )

-- Every table entry takes 32 bytes.
abbrev pub HasEntrySize : WadCrates → Type 0
HasEntrySize w = (c : WadChunk) → length (w.write_v3_4 c) ≡ toc_entry_size

length-toc_bytes :
    (w : WadCrates)
    → HasEntrySize w
    → (chunks : List WadChunk) → length (toc_bytes w chunks) ≡ length chunks * toc_entry_size
unfolding toc_bytes
length-toc_bytes w size [] = omega arith
length-toc_bytes w size (c ∷ chunks) =
    length-append (w.write_v3_4 c) (toc_bytes w chunks)
    ∙ omega (arith, size c, length-toc_bytes w size chunks)

length-hashes_of : (chunks : List WadChunk) → length (hashes_of chunks) ≡ length chunks
length-hashes_of [] = refl
length-hashes_of (c ∷ chunks) = omega (arith, length-hashes_of chunks)

module _ (w : WadCrates) (source : List ℕ) (chunks : List WadChunk) (override_hashes : List ℕ)
    (resolve_override : ℕ → Result Error (List ℕ)) where
  -- Header, table and data: the table has the hashes of the source and of the overrides, in strictly
  -- ascending order, and each entry its bytes in the data.
  pub record IsPatched (stats : PatchedWadStats) (file : List ℕ) : Type 0 where
    pub final_chunks : List WadChunk
    pub bytes : List ℕ
    pub file_is : file ≡ wad_header (length final_chunks) ++ (toc_bytes w final_chunks ++ bytes)
    pub chunks_written_is : stats.chunks_written ≡ length final_chunks
    pub counted :
        AreCounted w source chunks override_hashes resolve_override stats (hashes_of final_chunks)
    pub ascending : IsAscending (hashes_of final_chunks)
    pub hashes_are :
        (h : ℕ)
        → contains h (hashes_of final_chunks)
          ≡ contains h override_hashes || contains h (hashes_of chunks)
    pub placed :
        All
          (IsPlaced w source chunks override_hashes resolve_override
            (length (wad_header (length final_chunks)) + length (toc_bytes w final_chunks))
            bytes)
          final_chunks

  module _ (size : HasEntrySize w) (v : IsSource w source chunks override_hashes resolve_override)
      (distinct : Distinct override_hashes) (ascending : IsAscending (hashes_of chunks))
      (few : length (ordered_hashes override_hashes chunks) < 2 ^ 32) where
    write_patched-IsPatched :
        (stats : PatchedWadStats) (file : List ℕ)
        → write_patched w source chunks override_hashes resolve_override ≡ ok (stats, file)
        → IsPatched stats file
    unfolding write_patched
    write_patched-IsPatched stats file h =
        let ordered : List ℕ = ordered_hashes override_hashes chunks in
        let header : List ℕ = wad_header (length ordered) in
        let space : List ℕ = replicate (length ordered * toc_entry_size) 0 in
        let front : List ℕ = header ++ space in
        let length_front : length front ≡ length header + length ordered * toc_entry_size =
          length-append header space
          ∙ omega (arith, length-replicate (length ordered * toc_entry_size)) in
        let offset : ℕ = (length header + length ordered * toc_entry_size % 2 ^ 64) % 2 ^ 64 in
        let r =
          >>=-eq-ok
            (write_chunks w source chunks override_hashes resolve_override ordered offset front 0) _
            h in
        let at : offset ≡ length front + length {A = ℕ} [] =
          omega (arith, few, length_front, length-wad_header (length ordered)) in
        let all =
          write_chunks-AreWritten w source chunks override_hashes resolve_override v front ordered
            [] offset 0 ((r.0).1).1 (r.0).0 ((r.0).1).0 at
            (subst
              (λ t.
                write_chunks w source chunks override_hashes resolve_override ordered offset t 0
                ≡ ok ((r.0).0, (((r.0).1).0, ((r.0).1).1)))
              (sym (append-nil front)) r.1) in
        let order = ordered_hashes-IsAscending override_hashes chunks distinct ascending in
        let count_is : length (r.0).0 ≡ length ordered =
          sym (length-hashes_of (r.0).0) ∙ ap (length {A = ℕ}) all.hashes_are in
        let toc : List ℕ = toc_bytes w (r.0).0 in
        let toc_is : length space ≡ length toc = omega (
          arith,
          length-replicate (length ordered * toc_entry_size),
          length-toc_bytes w size (r.0).0,
          count_is,
        ) in
        let written_is : ((r.0).1).0 ≡ (header ++ space) ++ all.more = all.written_is in
        let out : overwrite (length header) toc ((r.0).1).0 ≡ file = cc (r.2) in
        let stats_is : record {
          chunks_written = length ordered;
          overrides_applied = ((r.0).1).1;
          new_entries_added = length (new_hashes override_hashes chunks);
          chunks_passed_through = length ordered - ((r.0).1).1;
        }
            ≡ stats =
          cc (r.2) in
        let counted =
          written-AreCounted w source chunks override_hashes resolve_override offset front (r.0).0
            ((r.0).1).0 ((r.0).1).1 r.1 in
        record {
          final_chunks = (r.0).0;
          bytes = all.more;
          file_is =
              sym out
              ∙ ap (overwrite (length header) toc) written_is
              ∙ overwrite-over header space all.more toc toc_is
              ∙ ap (λ n. wad_header n ++ (toc ++ all.more)) (sym count_is);
          chunks_written_is = ap (λ s. s.chunks_written) (sym stats_is) ∙ sym count_is;
          counted =
              subst
                (λ s.
                  AreCounted w source chunks override_hashes resolve_override s (hashes_of (r.0).0))
                stats_is
                (subst (AreCounted w source chunks override_hashes resolve_override _)
                  (sym all.hashes_are) counted);
          ascending = subst IsAscending (sym all.hashes_are) order.0;
          hashes_are = λ g. ap (contains g) all.hashes_are ∙ order.1 g;
          placed =
              subst
                (λ b.
                  All (IsPlaced w source chunks override_hashes resolve_override b all.more)
                    (r.0).0)
                (length-append header space
                  ∙ omega (arith, toc_is, ap (λ n. length (wad_header n)) count_is))
                all.placed;
        }

-- Where table entries take 32 bytes, the source is below 2 ^ 63 bytes with no entry that ends
-- beyond 2 ^ 64 and its hashes in strictly ascending order, no override hash is given twice, and
-- there are fewer than 2 ^ 32 chunks in all: if `build_patched_wad` succeeds, the file is the
-- header with the count of its chunks, the table and the data; the table has exactly the hashes of
-- the source and of the overrides, in strictly ascending order; each entry has its offset, below 2
-- ^ 32, and its size where its bytes are, which are those of its override in the form of its
-- compression type or, with no override, those of the source's chunk, unchanged; the statistics
-- count the entries, and of these the overridden ones, those the source does not have, and those
-- passed through.
pub build_patched_wad-IsPatched :
    (w : WadCrates) (source : List ℕ) (chunks : List WadChunk) (override_hashes : List ℕ)
    (resolve_override : ℕ → Result Error (List ℕ)) (stats : PatchedWadStats) (file : List ℕ)
    → w.mount source ≡ ok chunks
    → HasEntrySize w
    → IsSource w source chunks override_hashes resolve_override
    → Distinct override_hashes
    → IsAscending (hashes_of chunks)
    → length (ordered_hashes override_hashes chunks) < 2 ^ 32
    → build_patched_wad w source override_hashes resolve_override ≡ ok (stats, file)
    → IsPatched w source chunks override_hashes resolve_override stats file
unfolding build_patched_wad
build_patched_wad-IsPatched w source chunks override_hashes resolve_override stats file mounts size
      v distinct ascending few h =
    let r = >>=-eq-ok (or_mount_error (w.mount source)) _ h in
    let same : r.0 ≡ chunks = cc (mounts, r.1) in
    write_patched-IsPatched w source chunks override_hashes resolve_override size v distinct
      ascending few stats file
      (subst (λ c. write_patched w source c override_hashes resolve_override ≡ ok (stats, file))
        same r.2)
