-- ===== src/Modpkg/Write/Stored.antt =====
-- What `process_chunks` writes: every chunk's entry points at data that decode to its content.
use league_mod.Prelude.{
  ℕ, ◌≡◌, refl, sym, ap, subst, ◌∙◌, some, Option-cases, inl, inr, Bool-cases, List, [], ◌∷◌, ◌++◌,
  arith, length, length-append, ◌==◌, eq→≡, nat_ord, pair_ord,
}
use mathlib.Core.List.{append-nil, append_assoc}
use league_mod.Prelude.Assoc.{get}
use league_mod.Prelude.Slices.{Holds, Holds-grow}
use league_mod.Prelude.HashMap.{insert, get-insert}
use league_mod.Prelude.Outcome.{Result, ok, err, >>=-eq-ok}
use league_mod.Overlay.Externals.{Externals}
use league_mod.Modpkg.Types.{ModpkgError, ModpkgCompression, uncompressed, zstd, ModpkgChunk}
use league_mod.Modpkg.Crates.{Crates, Documented}
use league_mod.Modpkg.Archive.{Key}
use league_mod.Modpkg.Builder.{ModpkgBuilderError, ModpkgChunkBuilder}
use league_mod.Modpkg.Write.{
  WrittenData, Contents, Indices, or_io_error, compress_chunk_data, write_new, write_content,
  chunk_of, process_chunks,
}

module _ (x : Crates) where
  -- The stored bytes decode to the content.
  abbrev pub Decodes : ModpkgCompression → List ℕ → List ℕ → Type 0
  Decodes uncompressed raw stored = stored ≡ raw
  Decodes zstd raw stored = x.decompress stored (length raw) ≡ ok raw

  or_io_error-eq-ok :
      (r : Result ModpkgError (List ℕ)) (a : List ℕ) → or_io_error r ≡ ok a → r ≡ ok a
  or_io_error-eq-ok (ok b) a h = cc
  or_io_error-eq-ok (err f) a h = cc

  compress_chunk_data-Decodes :
      Documented x
      → (raw : List ℕ) (requested : ModpkgCompression) (stored : List ℕ)
        (compression : ModpkgCompression)
      → compress_chunk_data x raw requested ≡ ok (stored, compression)
      → Decodes compression raw stored
  unfolding compress_chunk_data
  compress_chunk_data-Decodes d raw uncompressed stored uncompressed h = cc
  compress_chunk_data-Decodes d raw uncompressed stored zstd h = cc
  compress_chunk_data-Decodes d raw zstd stored uncompressed h =
      let r = >>=-eq-ok (or_io_error (x.compress raw)) _ h in ground (arith, r.2)
  compress_chunk_data-Decodes d raw zstd stored zstd h =
      let r = >>=-eq-ok (or_io_error (x.compress raw)) _ h in
      let same : r.0 ≡ stored = ground (arith, r.2) in
      d.decompresses raw stored (or_io_error-eq-ok (x.compress raw) stored (r.1 ∙ ap ok same))

-- No two contents share checksum and length.
abbrev pub NoCollision :
    Externals → (ModpkgChunkBuilder → Result ModpkgBuilderError (List ℕ)) → Type 0
NoCollision e provide =
    (c d : ModpkgChunkBuilder) (raw other : List ℕ)
    → provide c ≡ ok raw
    → provide d ≡ ok other
    → e.xxh3_64 raw ≡ e.xxh3_64 other
    → length raw ≡ length other
    → raw ≡ other

module _ (x : Crates) (e : Externals) (base : ℕ) where
  -- What the writer keeps of content that stands in the data.
  pub record Keeps (bytes raw : List ℕ) (entry : WrittenData) : Type 0 where
    pub stored : List ℕ
    pub holds : Holds base bytes entry.data_offset stored
    pub size_is : entry.compressed_size ≡ length stored
    pub checksum_is : entry.compressed_checksum ≡ e.xxh3_64 stored
    pub decodes : Decodes x entry.compression raw stored

  pub Keeps-grow :
      (bytes more raw : List ℕ) (entry : WrittenData)
      → Keeps bytes raw entry
      → Keeps (bytes ++ more) raw entry
  Keeps-grow bytes more raw entry k = record {
    stored = k.stored;
    holds = Holds-grow base bytes more entry.data_offset k.stored k.holds;
    size_is = k.size_is;
    checksum_is = k.checksum_is;
    decodes = k.decodes;
  }

  module _ (provide : ModpkgChunkBuilder → Result ModpkgBuilderError (List ℕ)) where
    pub record Known (bytes : List ℕ) (key : Key) (entry : WrittenData) : Type 0 where
      pub chunk : ModpkgChunkBuilder
      pub raw : List ℕ
      pub provided : provide chunk ≡ ok raw
      pub key_is : (e.xxh3_64 raw, length raw) ≡ key
      pub keeps : Keeps bytes raw entry

    -- All that `written_by_content` says is so.
    abbrev pub AreKnown : List ℕ → Contents → Type 0
    AreKnown bytes contents =
        (key : Key) (entry : WrittenData) → get key contents ≡ some entry → Known bytes key entry

    Known-grow :
        (bytes more : List ℕ) (key : Key) (entry : WrittenData)
        → Known bytes key entry
        → Known (bytes ++ more) key entry
    Known-grow bytes more key entry k = record {
      chunk = k.chunk;
      raw = k.raw;
      provided = k.provided;
      key_is = k.key_is;
      keeps = Keeps-grow bytes more k.raw entry k.keeps;
    }

    -- After a content was written: the data have grown, and hold it.
    pub record Wrote (front bytes raw : List ℕ) (entry : WrittenData) (written : List ℕ)
        (contents : Contents) : Type 0 where
      pub more : List ℕ
      pub written_is : written ≡ front ++ (bytes ++ more)
      pub keeps : Keeps (bytes ++ more) raw entry
      pub known : AreKnown (bytes ++ more) contents

    module _ (documented : Documented x) (no_collision : NoCollision e provide) (front : List ℕ)
        (at_base : length front ≡ base) where
      Keeps-new :
          (bytes raw stored : List ℕ) (compression : ModpkgCompression)
          → Decodes x compression raw stored
          → Keeps (bytes ++ stored) raw (record {
            data_offset = length (front ++ bytes);
            compressed_size = length stored;
            compressed_checksum = e.xxh3_64 stored;
            compression = compression;
          })
      Keeps-new bytes raw stored compression d = record {
        stored = stored;
        holds = record {
          before = bytes;
          after = [];
          split = ap (λ t. bytes ++ t) (sym (append-nil stored));
          offset_is = omega (arith, length-append front bytes, at_base);
        };
        size_is = refl;
        checksum_is = refl;
        decodes = d;
      }

      known_new :
          (c : ModpkgChunkBuilder) (bytes more raw : List ℕ) (entry : WrittenData)
          (contents : Contents)
          → provide c ≡ ok raw
          → AreKnown bytes contents
          → Keeps (bytes ++ more) raw entry
          → AreKnown (bytes ++ more) (insert (e.xxh3_64 raw, length raw) entry contents)
      known_new c bytes more raw entry contents p known k key other h =
          elim (Bool-cases ((e.xxh3_64 raw, length raw) == key)) [
            | inl same ↦ record {
              chunk = c;
              raw = raw;
              provided = p;
              key_is = eq→≡ (e.xxh3_64 raw, length raw) key same;
              keeps =
                  subst (Keeps (bytes ++ more) raw)
                    (ground (arith, get-insert (e.xxh3_64 raw, length raw) key entry contents)) k;
            }
            | inr differs ↦ Known-grow bytes more key other (
                known key other
                  (ground (arith, get-insert (e.xxh3_64 raw, length raw) key entry contents)))
          ]

      write_new-Wrote :
          (c : ModpkgChunkBuilder) (bytes raw : List ℕ) (requested : ModpkgCompression)
          (contents : Contents) (entry : WrittenData) (written : List ℕ) (contents' : Contents)
          → provide c ≡ ok raw
          → AreKnown bytes contents
          → write_new x e raw requested (front ++ bytes) contents ≡ ok (entry, (written, contents'))
          → Wrote front bytes raw entry written contents'
      unfolding write_new
      write_new-Wrote c bytes raw requested contents entry written contents' p known h =
          let r = >>=-eq-ok (compress_chunk_data x raw requested) _ h in
          let stored : List ℕ = (r.0).0 in
          let compression : ModpkgCompression = (r.0).1 in
          let kept =
            Keeps-new bytes raw stored compression
              (compress_chunk_data-Decodes x documented raw requested stored compression r.1) in
          let new : WrittenData = record {
            data_offset = length (front ++ bytes);
            compressed_size = length stored;
            compressed_checksum = e.xxh3_64 stored;
            compression = compression;
          } in
          let entry_is : new ≡ entry = cc (r.2) in
          record {
            more = stored;
            written_is = sym (cc (r.2)) ∙ append_assoc front bytes stored;
            keeps = subst (Keeps (bytes ++ stored) raw) entry_is kept;
            known =
                subst (AreKnown (bytes ++ stored)) (cc (r.2))
                  (known_new c bytes stored raw new contents p known kept);
          }

      -- Content with the key of content that was written before is that content.
      Keeps-Known :
          (c : ModpkgChunkBuilder) (bytes raw : List ℕ) (entry : WrittenData)
          → provide c ≡ ok raw
          → Known bytes (e.xxh3_64 raw, length raw) entry
          → Keeps (bytes ++ []) raw entry
      Keeps-Known c bytes raw entry p k =
          subst (λ r. Keeps (bytes ++ []) r entry)
            (no_collision k.chunk c k.raw raw k.provided p (ap (λ t. t.0) k.key_is)
              (ap (λ t. t.1) k.key_is))
            (Keeps-grow bytes [] k.raw entry k.keeps)

      write_content-Wrote :
          (c : ModpkgChunkBuilder) (bytes raw : List ℕ) (requested : ModpkgCompression)
          (contents : Contents) (entry : WrittenData) (written : List ℕ) (contents' : Contents)
          → provide c ≡ ok raw
          → AreKnown bytes contents
          → write_content x e raw requested (front ++ bytes) contents
            ≡ ok (entry, (written, contents'))
          → Wrote front bytes raw entry written contents'
      unfolding write_content
      write_content-Wrote c bytes raw requested contents entry written contents' p known h =
          elim (Option-cases (get (e.xxh3_64 raw, length raw) contents)) [
            | inl absent ↦
                write_new-Wrote c bytes raw requested contents entry written contents' p known
                  (ground (arith, absent, h))
            | inr (old, present) ↦
                let old_is : old ≡ entry = ground (arith, present, h) in
                let grown : AreKnown (bytes ++ []) contents =
                  λ key other g. Known-grow bytes [] key other (known key other g) in
                record {
                  more = [];
                  written_is = ground (arith, present, h, append-nil bytes);
                  keeps =
                      subst (Keeps (bytes ++ []) raw) old_is
                        (Keeps-Known c bytes raw old p (known _ old present));
                  known = subst (AreKnown (bytes ++ [])) (ground (arith, present, h)) grown;
                }
          ]

    -- The entries of the chunks, each with the content that its data decode to.
    pub data Processed (indices : Indices) (bytes : List ℕ)
        : List ModpkgChunkBuilder → List ModpkgChunk → Type 0 where
      nil : Processed indices bytes [] []
      cons :
          {chunk : ModpkgChunkBuilder} {raw : List ℕ} {entry : WrittenData}
          {chunks : List ModpkgChunkBuilder} {entries : List ModpkgChunk}
          → provide chunk ≡ ok raw
          → Keeps bytes raw entry
          → Processed indices bytes chunks entries
          → Processed indices bytes (chunk ∷ chunks) (chunk_of e indices chunk raw entry ∷ entries)

    pub record ProcessedAll (indices : Indices) (front bytes : List ℕ)
        (chunks : List ModpkgChunkBuilder) (written : List ℕ) (entries : List ModpkgChunk)
        : Type 0 where
      pub more : List ℕ
      pub written_is : written ≡ front ++ (bytes ++ more)
      pub processed : Processed indices (bytes ++ more) chunks entries

    module _ (documented : Documented x) (no_collision : NoCollision e provide) (front : List ℕ)
        (at_base : length front ≡ base) where
      pub process_chunks-ProcessedAll :
          (indices : Indices) (chunks : List ModpkgChunkBuilder) (bytes : List ℕ)
          (contents : Contents) (written : List ℕ) (entries : List ModpkgChunk)
          → AreKnown bytes contents
          → process_chunks x e provide indices chunks (front ++ bytes) contents
            ≡ ok (written, entries)
          → ProcessedAll indices front bytes chunks written entries
      unfolding process_chunks
      process_chunks-ProcessedAll indices [] bytes contents written entries known h = record {
        more = [];
        written_is = ground (arith, h, append-nil bytes);
        processed = subst (Processed indices (bytes ++ []) []) (ground (arith, h)) nil;
      }
      process_chunks-ProcessedAll indices (c ∷ chunks) bytes contents written entries known h =
          let r = >>=-eq-ok (provide c) _ h in
          let raw : List ℕ = r.0 in
          let s = >>=-eq-ok (write_content x e raw c.compression (front ++ bytes) contents) _ r.2 in
          let entry : WrittenData = (s.0).0 in
          let written' : List ℕ = ((s.0).1).0 in
          let contents' : Contents = ((s.0).1).1 in
          let w =
            write_content-Wrote documented no_collision front at_base c bytes raw c.compression
              contents entry written' contents' r.1 known s.1 in
          let q = >>=-eq-ok (process_chunks x e provide indices chunks written' contents') _ s.2 in
          let rest_ok : process_chunks x e provide indices chunks (front ++ (bytes ++ w.more))
                contents'
              ≡ ok ((q.0).0, (q.0).1) =
            subst
              (λ v. process_chunks x e provide indices chunks v contents' ≡ ok ((q.0).0, (q.0).1))
              w.written_is q.1 in
          let rest =
            process_chunks-ProcessedAll indices chunks (bytes ++ w.more) contents' (q.0).0 (q.0).1
              w.known rest_ok in
          let grow = append_assoc bytes w.more rest.more in
          record {
            more = w.more ++ rest.more;
            written_is = sym (cc (q.2)) ∙ rest.written_is ∙ ap (λ t. front ++ t) grow;
            processed =
                subst (λ t. Processed indices t (c ∷ chunks) entries) grow
                  (subst (Processed indices ((bytes ++ w.more) ++ rest.more) (c ∷ chunks))
                    (cc (q.2))
                    (cons r.1 (Keeps-grow (bytes ++ w.more) rest.more raw entry w.keeps)
                      rest.processed));
          }
