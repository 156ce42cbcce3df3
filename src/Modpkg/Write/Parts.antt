-- ===== src/Modpkg/Write/Parts.antt =====
-- The parts of what `build_to_writer` writes.
use league_mod.Prelude.{
  ℕ, ◌+◌, ◌*◌, ◌≡◌, refl, sym, ap, subst, ◌∙◌, List, [], ◌++◌, length, replicate, nat_ord, list_ord,
  pair_ord,
}
use mathlib.Core.List.{append-nil}
use league_mod.Prelude.Assoc.{AllEntries}
use league_mod.Prelude.Outcome.{Result, ok, >>=-eq-ok}
use league_mod.Overlay.Externals.{Externals}
use league_mod.Modpkg.Types.{ModpkgChunk, size_of}
use league_mod.Modpkg.Crates.{Crates, Documented}
use league_mod.Modpkg.Builder.{ModpkgBuilderError, ModpkgChunkBuilder, ModpkgBuilder}
use league_mod.Modpkg.Builder.Invariant.{IsBuilder}
use league_mod.Modpkg.Format.{write_alignment, write_chunk_toc}
use league_mod.Modpkg.Tables.{values, collect_unique_layers, validate_layers}
use league_mod.Modpkg.Write.{
  process_chunks, process_meta_chunks, collect_regular_chunks, process_all_chunks, sort_builders,
  front, indices_of, build_to_writer,
}
use league_mod.Modpkg.Write.Stored.{Processed, NoCollision, process_chunks-ProcessedAll}
use league_mod.Modpkg.Write.Meta.{
  AreMeta, AreMeta-grow, WroteMeta, meta_contents, process_meta_chunks-WroteMeta,
}
use league_mod.Modpkg.Write.Selected.{NamedIn, collect_regular_chunks-eq-sort}

-- What is written before the data: the front, and space for the chunk table.
abbrev pub reserved : Externals → ModpkgBuilder → List ℕ
reserved e b =
    write_alignment (front e b) ++ replicate ((length b.chunks + length b.meta_chunks) * size_of) 0

module _ (x : Crates) (e : Externals)
    (provide : ModpkgChunkBuilder → Result ModpkgBuilderError (List ℕ)) (b : ModpkgBuilder) where
  -- The data that were written, and the entries of the chunk table.
  pub record Parts (written : List ℕ) (entries : List ModpkgChunk) : Type 0 where
    pub metadata : List ℕ
    pub bytes : List ℕ
    pub meta : List ModpkgChunk
    pub regular : List ModpkgChunk
    pub encoded : x.to_msgpack b.metadata ≡ ok metadata
    pub are_meta :
        AreMeta x e
          (length (reserved e b))
          (indices_of e b).paths
          bytes
          (meta_contents b metadata)
          meta
    pub processed :
        Processed x e
          (length (reserved e b))
          provide
          (indices_of e b)
          bytes
          (sort_builders (values b.chunks))
          regular
    pub written_is : written ≡ reserved e b ++ bytes
    pub entries_are : entries ≡ meta ++ regular

  module _ (documented : Documented x) (no_collision : NoCollision e provide)
      (builder : IsBuilder e b)
      (free : AllEntries (λ k c. ¬ NamedIn e b c.path_hash) b.chunks) where
    regular_parts :
        (metadata written : List ℕ) (meta : List ModpkgChunk) (all_written : List ℕ)
        (regular : List ModpkgChunk)
        → x.to_msgpack b.metadata ≡ ok metadata
        → WroteMeta x e
            (length (reserved e b))
            (indices_of e b).paths
            (reserved e b)
            []
            (meta_contents b metadata)
            written
            meta
        → process_chunks x e provide (indices_of e b) (collect_regular_chunks b meta) written []
          ≡ ok (all_written, regular)
        → Parts all_written (meta ++ regular)
    regular_parts metadata written meta all_written regular encoded wrote h =
        let chunks : List ModpkgChunkBuilder = sort_builders (values b.chunks) in
        let selected : collect_regular_chunks b meta ≡ chunks =
          collect_regular_chunks-eq-sort e x (length (reserved e b)) (indices_of e b).paths b
            builder.synced wrote.more metadata meta wrote.are_meta free in
        let run : process_chunks x e provide (indices_of e b) chunks (reserved e b ++ wrote.more) []
            ≡ ok (all_written, regular) =
          rw (← selected, ← wrote.written_is) h in
        let all =
          process_chunks-ProcessedAll x e (length (reserved e b)) provide documented no_collision
            (reserved e b) refl (indices_of e b) chunks wrote.more [] all_written regular
            (λ k entry g. cc) run in
        record {
          metadata = metadata;
          bytes = wrote.more ++ all.more;
          meta = meta;
          regular = regular;
          encoded = encoded;
          are_meta =
              AreMeta-grow x e (length (reserved e b)) (indices_of e b).paths all.more
                wrote.are_meta;
          processed = all.processed;
          written_is = all.written_is;
          entries_are = refl;
        }

    process_all_chunks-Parts :
        (written : List ℕ) (entries : List ModpkgChunk)
        → process_all_chunks x e provide b (indices_of e b) (reserved e b) ≡ ok (written, entries)
        → Parts written entries
    unfolding process_all_chunks
    process_all_chunks-Parts written entries h =
        let m = >>=-eq-ok (process_meta_chunks x e b (indices_of e b).paths (reserved e b)) _ h in
        let wrote =
          process_meta_chunks-WroteMeta x e (length (reserved e b)) (indices_of e b).paths
            (reserved e b) refl b [] (m.0).0 (m.0).1
            (ap (process_meta_chunks x e b (indices_of e b).paths) (append-nil (reserved e b))
              ∙ m.1) in
        let r =
          >>=-eq-ok
            (process_chunks x e provide (indices_of e b) (collect_regular_chunks b (m.0).1) (m.0).0
              [])
            _ m.2 in
        let parts = regular_parts wrote.0 (m.0).0 (m.0).1 (r.0).0 (r.0).1 wrote.1 wrote.2 r.1 in
        subst (Parts written) (cc (r.2))
          (subst (λ w. Parts w ((m.0).1 ++ (r.0).1)) (cc (r.2)) parts)

    -- A build that succeeds writes the table over the space, before the data.
    pub record Built (file : List ℕ) : Type 0 where
      pub written : List ℕ
      pub entries : List ModpkgChunk
      pub validated : validate_layers b.layers (collect_unique_layers e b).0 ≡ ok tt
      pub parts : Parts written entries
      pub file_is : file ≡ write_chunk_toc (length (write_alignment (front e b))) entries written

    pub build_to_writer-Built :
        (file : List ℕ) → build_to_writer x e provide b ≡ ok file → Built file
    unfolding build_to_writer
    build_to_writer-Built file h =
        let v = >>=-eq-ok (validate_layers b.layers (collect_unique_layers e b).0) _ h in
        let p =
          >>=-eq-ok (process_all_chunks x e provide b (indices_of e b) (reserved e b)) _ v.2 in
        record {
          written = (p.0).0;
          entries = (p.0).1;
          validated = v.1;
          parts = process_all_chunks-Parts (p.0).0 (p.0).1 p.1;
          file_is = sym (cc (p.2));
        }
