-- ===== src/Modpkg/Write/Front.antt =====
-- What `build_to_writer` writes first stays at the front of the file, so that the header is read
-- back from it.
use league_mod.Prelude.{
  ℕ, ◌+◌, ◌*◌, ◌^◌, ◌<◌, ◌≡◌, refl, sym, ap, ◌∙◌, Option, none, some, List, [], ◌∷◌, ◌++◌, length,
  drop, replicate, nat_ord, pair_ord,
}
use mathlib.Core.List.{append-nil, append_assoc}
use league_mod.Prelude.Assoc.{get}
use league_mod.Prelude.Slices.{take-append}
use league_mod.Prelude.Outcome.{Result, ok, >>=-eq-ok}
use league_mod.Overlay.Externals.{Externals}
use league_mod.Modpkg.Types.{ModpkgCompression, ModpkgChunk, size_of}
use league_mod.Modpkg.Crates.{Crates}
use league_mod.Modpkg.Builder.{ModpkgBuilderError, ModpkgChunkBuilder, ModpkgBuilder}
use league_mod.Modpkg.Format.{header, write_alignment, chunks_bytes, write_chunk_toc}
use league_mod.Modpkg.Mount.{read_header}
use league_mod.Modpkg.Mount.Fields.{Reads-read_header}
use league_mod.Modpkg.Tables.{collect_unique_layers, validate_layers}
use league_mod.Modpkg.Write.{
  Indices, Contents, WrittenData, compress_chunk_data, write_new, write_content, process_chunks,
  process_meta_chunks, collect_regular_chunks, process_all_chunks, front, indices_of,
  build_to_writer,
}
use league_mod.Modpkg.Write.Meta.{process_meta_chunks-WroteMeta}
use league_mod.Modpkg.Write.Parts.{reserved}

-- The bytes go on from what was written.
record Extends (written all_written : List ℕ) : Type 0 where
  pub more : List ℕ
  pub whole : all_written ≡ written ++ more

Extends-trans : {a b c : List ℕ} → Extends a b → Extends b c → Extends a c
Extends-trans {a} x y = record {
  more = x.more ++ y.more;
  whole = y.whole ∙ ap (λ l. l ++ y.more) x.whole ∙ append_assoc a x.more y.more;
}

module _ (x : Crates) (e : Externals) where
  write_new-Extends :
      (raw : List ℕ) (requested : ModpkgCompression) (written : List ℕ) (contents : Contents)
      (entry : WrittenData) (written' : List ℕ) (contents' : Contents)
      → write_new x e raw requested written contents ≡ ok (entry, (written', contents'))
      → Extends written written'
  unfolding write_new
  write_new-Extends raw requested written contents entry written' contents' h =
      let c = >>=-eq-ok (compress_chunk_data x raw requested) _ h in
      record { more = (c.0).0; whole = sym (cc (c.2)) }

  write_content-Extends :
      (raw : List ℕ) (requested : ModpkgCompression) (written : List ℕ) (contents : Contents)
      (entry : WrittenData) (written' : List ℕ) (contents' : Contents)
      → write_content x e raw requested written contents ≡ ok (entry, (written', contents'))
      → Extends written written'
  unfolding write_content
  write_content-Extends raw requested written contents entry written' contents' =
      go (get (e.xxh3_64 raw, length raw) contents)
    where
      go :
          (found : Option WrittenData)
          → (elim found as (λ _. Result ModpkgBuilderError (WrittenData × (List ℕ × Contents))) [
            | some existing ↦ ok (existing, (written, contents))
            | none ↦ write_new x e raw requested written contents
          ])
            ≡ ok (entry, (written', contents'))
          → Extends written written'
      go (some existing) h = record { more = []; whole = sym (cc h) ∙ sym (append-nil written) }
      go none h = write_new-Extends raw requested written contents entry written' contents' h

  process_chunks-Extends :
      (provide : ModpkgChunkBuilder → Result ModpkgBuilderError (List ℕ)) (indices : Indices)
      (chunks : List ModpkgChunkBuilder) (written : List ℕ) (contents : Contents)
      (all_written : List ℕ) (entries : List ModpkgChunk)
      → process_chunks x e provide indices chunks written contents ≡ ok (all_written, entries)
      → Extends written all_written
  unfolding process_chunks
  process_chunks-Extends provide indices [] written contents all_written entries h = record {
    more = [];
    whole = sym (cc h) ∙ sym (append-nil written);
  }
  process_chunks-Extends provide indices (c ∷ chunks) written contents all_written entries h =
      let r = >>=-eq-ok (provide c) _ h in
      let s = >>=-eq-ok (write_content x e r.0 c.compression written contents) _ r.2 in
      let q = >>=-eq-ok (process_chunks x e provide indices chunks ((s.0).1).0 ((s.0).1).1) _ s.2 in
      let here =
        write_content-Extends r.0 c.compression written contents (s.0).0 ((s.0).1).0 ((s.0).1).1
          s.1 in
      let rest =
        process_chunks-Extends provide indices chunks ((s.0).1).0 ((s.0).1).1 (q.0).0 (q.0).1 q.1 in
      let all = Extends-trans here rest in
      record { more = all.more; whole = sym (cc (q.2)) ∙ all.whole }

  process_all_chunks-Extends :
      (provide : ModpkgChunkBuilder → Result ModpkgBuilderError (List ℕ)) (b : ModpkgBuilder)
      (written all_written : List ℕ) (entries : List ModpkgChunk)
      → process_all_chunks x e provide b (indices_of e b) written ≡ ok (all_written, entries)
      → Extends written all_written
  unfolding process_all_chunks
  process_all_chunks-Extends provide b written all_written entries h =
      let m = >>=-eq-ok (process_meta_chunks x e b (indices_of e b).paths written) _ h in
      let wrote =
        process_meta_chunks-WroteMeta x e (length written) (indices_of e b).paths written refl b []
          (m.0).0 (m.0).1
          (ap (process_meta_chunks x e b (indices_of e b).paths) (append-nil written) ∙ m.1) in
      let r =
        >>=-eq-ok
          (process_chunks x e provide (indices_of e b) (collect_regular_chunks b (m.0).1) (m.0).0
            [])
          _ m.2 in
      let rest =
        process_chunks-Extends provide (indices_of e b) (collect_regular_chunks b (m.0).1) (m.0).0
          [] (r.0).0 (r.0).1 r.1 in
      let all =
        Extends-trans (record { more = (wrote.2).more; whole = (wrote.2).written_is }) rest in
      record { more = all.more; whole = sym (cc (r.2)) ∙ all.whole }

-- What is written from an offset on leaves what stands before it.
write_chunk_toc-keeps :
    (before s : List ℕ) (entries : List ModpkgChunk)
    → Extends before (write_chunk_toc (length before) entries (before ++ s))
unfolding write_chunk_toc
write_chunk_toc-keeps before s entries = record {
  more = chunks_bytes entries ++ drop (length before + length (chunks_bytes entries)) (before ++ s);
  whole = rw (take-append before s) refl;
}

module _ (x : Crates) (e : Externals)
    (provide : ModpkgChunkBuilder → Result ModpkgBuilderError (List ℕ)) (b : ModpkgBuilder) where
  -- The file is a header that reads as `count`, and a table of `entries` over the bytes written.
  pub record HasCount (file : List ℕ) (count : ℕ) (entries : List ModpkgChunk) : Type 0 where
    pub rest : List ℕ
    pub written : List ℕ
    pub header_is : read_header file ≡ ok (([], count), rest)
    pub processed :
        process_all_chunks x e provide b (indices_of e b) (reserved e b) ≡ ok (written, entries)
    pub file_is : file ≡ write_chunk_toc (length (write_alignment (front e b))) entries written

  front-header :
      Extends (header (length b.chunks + length b.meta_chunks)) (write_alignment (front e b))
  unfolding write_alignment front
  front-header = record {
    more = _;
    whole = append_assoc (header (length b.chunks + length b.meta_chunks)) _ _;
  }

  -- If the chunks are fewer than 2^32, a file that is built has a header that counts them.
  pub build_to_writer-HasCount :
      (file : List ℕ)
      → length b.chunks + length b.meta_chunks < 2 ^ 32
      → build_to_writer x e provide b ≡ ok file
      → (entries : List ModpkgChunk) × HasCount file
          (length b.chunks + length b.meta_chunks)
          entries
  unfolding build_to_writer
  build_to_writer-HasCount file few h =
      let v = >>=-eq-ok (validate_layers b.layers (collect_unique_layers e b).0) _ h in
      let p = >>=-eq-ok (process_all_chunks x e provide b (indices_of e b) (reserved e b)) _ v.2 in
      let before = write_alignment (front e b) in
      let zeros : List ℕ = replicate ((length b.chunks + length b.meta_chunks) * size_of) 0 in
      let all = process_all_chunks-Extends x e provide b (reserved e b) (p.0).0 (p.0).1 p.1 in
      let file_is : file ≡ write_chunk_toc (length before) (p.0).1 (p.0).0 = sym (cc (p.2)) in
      let kept = write_chunk_toc-keeps before (zeros ++ all.more) (p.0).1 in
      let whole = Extends-trans front-header kept in
      let same =
        ap (write_chunk_toc (length before) (p.0).1)
          (all.whole ∙ append_assoc before zeros all.more) in
      (
        (p.0).1,
        record {
          rest = whole.more;
          written = (p.0).0;
          header_is =
              ap read_header (file_is ∙ same ∙ whole.whole)
              ∙ (Reads-read_header (length b.chunks + length b.meta_chunks) few).run whole.more;
          processed = p.1;
          file_is = file_is;
        },
      )
