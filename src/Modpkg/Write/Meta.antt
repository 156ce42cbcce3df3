-- ===== src/Modpkg/Write/Meta.antt =====
-- What `process_meta_chunks` writes: the entries of metadata, thumbnail and readme.
use league_mod.Prelude.{
  ℕ, ◌≡◌, refl, sym, ap, subst, ◌∙◌, Option, none, some, List, [], ◌∷◌, ◌++◌, Text, arith, length,
  length-append, nat_ord,
}
use mathlib.Core.List.{append-nil, append_assoc}
use league_mod.Prelude.HashMap.{HashMap}
use league_mod.Prelude.Outcome.{Result, ok, err, >>=-eq-ok}
use league_mod.Overlay.Externals.{Externals}
use league_mod.Overlay.ChunkHash.{hash_chunk_name}
use league_mod.Modpkg.Types.{
  ModpkgError, ModpkgChunk, no_layer_index, no_wad_index, metadata_chunk_path, thumbnail_chunk_path,
  readme_chunk_path,
}
use league_mod.Modpkg.Crates.{Crates}
use league_mod.Modpkg.Builder.{ModpkgBuilderError, ModpkgBuilder}
use league_mod.Modpkg.Tables.{or_zero}
use league_mod.Prelude.Assoc.{get}
use league_mod.Modpkg.Write.{
  WrittenData, or_modpkg_error, write_meta_chunk, write_optional, process_meta_chunks,
}
use league_mod.Modpkg.Write.Stored.{Keeps, Keeps-grow}

-- The part of an entry that says where the data are.
abbrev pub data_of : ModpkgChunk → WrittenData
data_of c = record {
  data_offset = c.data_offset;
  compressed_size = c.compressed_size;
  compressed_checksum = c.compressed_checksum;
  compression = c.compression;
}

abbrev pub optional : Text → Option (List ℕ) → List (Text × List ℕ)
optional path none = []
optional path (some raw) = (path, raw) ∷ []

-- The paths and the contents of the chunks of the package itself.
abbrev pub meta_contents : ModpkgBuilder → List ℕ → List (Text × List ℕ)
meta_contents b metadata =
    (metadata_chunk_path, metadata)
    ∷ (optional thumbnail_chunk_path b.thumbnail ++ optional readme_chunk_path b.readme)

or_modpkg_error-eq-ok :
    (r : Result ModpkgError (List ℕ)) (a : List ℕ) → or_modpkg_error r ≡ ok a → r ≡ ok a
or_modpkg_error-eq-ok (ok b) a h = cc
or_modpkg_error-eq-ok (err f) a h = cc

module _ (x : Crates) (e : Externals) (base : ℕ) (path_indices : HashMap ℕ ℕ) where
  pub record IsMeta (bytes : List ℕ) (path : Text) (raw : List ℕ) (c : ModpkgChunk) : Type 0 where
    pub path_hash_is : c.path_hash ≡ hash_chunk_name e path
    pub keeps : Keeps x e base bytes raw (data_of c)
    pub stored_size_is : c.compressed_size ≡ length raw
    pub size_is : c.uncompressed_size ≡ length raw
    pub checksum_is : c.uncompressed_checksum ≡ e.xxh3_64 raw
    pub path_index_is : c.path_index ≡ or_zero (get c.path_hash path_indices)
    pub layer_index_is : c.layer_index ≡ no_layer_index
    pub wad_index_is : c.wad_index ≡ no_wad_index

  pub data AreMeta (bytes : List ℕ) : List (Text × List ℕ) → List ModpkgChunk → Type 0 where
    nil : AreMeta bytes [] []
    cons :
        {path : Text} {raw : List ℕ} {c : ModpkgChunk} {contents : List (Text × List ℕ)}
        {chunks : List ModpkgChunk}
        → IsMeta bytes path raw c
        → AreMeta bytes contents chunks
        → AreMeta bytes ((path, raw) ∷ contents) (c ∷ chunks)

  IsMeta-grow :
      (bytes more : List ℕ) (path : Text) (raw : List ℕ) (c : ModpkgChunk)
      → IsMeta bytes path raw c
      → IsMeta (bytes ++ more) path raw c
  IsMeta-grow bytes more path raw c m = record {
    path_hash_is = m.path_hash_is;
    keeps = Keeps-grow x e base bytes more raw (data_of c) m.keeps;
    stored_size_is = m.stored_size_is;
    size_is = m.size_is;
    checksum_is = m.checksum_is;
    path_index_is = m.path_index_is;
    layer_index_is = m.layer_index_is;
    wad_index_is = m.wad_index_is;
  }

  pub AreMeta-grow :
      {bytes : List ℕ} {contents : List (Text × List ℕ)} {chunks : List ModpkgChunk} (more : List ℕ)
      → AreMeta bytes contents chunks
      → AreMeta (bytes ++ more) contents chunks
  AreMeta-grow more nil = nil
  AreMeta-grow {bytes} more (cons {path} {raw} {c} m rest) =
      cons (IsMeta-grow bytes more path raw c m) (AreMeta-grow more rest)

  AreMeta-append :
      {bytes : List ℕ} {s t : List (Text × List ℕ)} {cs ds : List ModpkgChunk}
      → AreMeta bytes s cs
      → AreMeta bytes t ds
      → AreMeta bytes (s ++ t) (cs ++ ds)
  AreMeta-append nil r = r
  AreMeta-append (cons m rest) r = cons m (AreMeta-append rest r)

  pub record WroteMeta (front bytes : List ℕ) (contents : List (Text × List ℕ)) (written : List ℕ)
      (chunks : List ModpkgChunk) : Type 0 where
    pub more : List ℕ
    pub written_is : written ≡ front ++ (bytes ++ more)
    pub are_meta : AreMeta (bytes ++ more) contents chunks

  WroteMeta-append :
      (front bytes : List ℕ) {s t : List (Text × List ℕ)} {w v : List ℕ} {cs ds : List ModpkgChunk}
      → (first : WroteMeta front bytes s w cs) → WroteMeta front (bytes ++ first.more) t v ds
      → WroteMeta front bytes (s ++ t) v (cs ++ ds)
  WroteMeta-append front bytes {s} {t} {w} {v} {cs} {ds} first second =
      let grow = append_assoc bytes first.more second.more in
      record {
        more = first.more ++ second.more;
        written_is = second.written_is ∙ ap (λ l. front ++ l) grow;
        are_meta =
            subst (λ l. AreMeta l (s ++ t) (cs ++ ds)) grow
              (AreMeta-append (AreMeta-grow second.more first.are_meta) second.are_meta);
      }

  retarget :
      (front bytes : List ℕ) (contents : List (Text × List ℕ)) {w v : List ℕ}
      {cs ds : List ModpkgChunk}
      → ◌≡◌ {A = Result ModpkgBuilderError (List ℕ × List ModpkgChunk)} (ok (w, cs)) (ok (v, ds))
      → WroteMeta front bytes contents w cs
      → WroteMeta front bytes contents v ds
  retarget front bytes contents {w} {v} {cs} {ds} h m =
      subst (WroteMeta front bytes contents v) (cc h)
        (subst (λ l. WroteMeta front bytes contents l cs) (cc h) m)

  module _ (front : List ℕ) (at_base : length front ≡ base) where
    write_meta_chunk-WroteMeta :
        (bytes : List ℕ) (path : Text) (raw : List ℕ)
        → WroteMeta front bytes
            ((path, raw) ∷ [])
            (write_meta_chunk e path_indices path raw (front ++ bytes)).0
            ((write_meta_chunk e path_indices path raw (front ++ bytes)).1 ∷ [])
    unfolding write_meta_chunk
    write_meta_chunk-WroteMeta bytes path raw = record {
      more = raw;
      written_is = append_assoc front bytes raw;
      are_meta =
          cons
            (record {
              path_hash_is = refl;
              keeps = record {
                stored = raw;
                holds = record {
                  before = bytes;
                  after = [];
                  split = ap (λ t. bytes ++ t) (sym (append-nil raw));
                  offset_is = omega (arith, length-append front bytes, at_base);
                };
                size_is = refl;
                checksum_is = refl;
                decodes = refl;
              };
              stored_size_is = refl;
              size_is = refl;
              checksum_is = refl;
              path_index_is = refl;
              layer_index_is = refl;
              wad_index_is = refl;
            })
            nil;
    }

    write_optional-WroteMeta :
        (bytes : List ℕ) (path : Text) (raw : Option (List ℕ)) (written : List ℕ)
        → written ≡ front ++ bytes
        → WroteMeta front bytes
            (optional path raw)
            (write_optional e path_indices path raw written).0
            (write_optional e path_indices path raw written).1
    unfolding write_optional
    write_optional-WroteMeta bytes path none written same = record {
      more = [];
      written_is = same ∙ ap (λ t. front ++ t) (sym (append-nil bytes));
      are_meta = nil;
    }
    write_optional-WroteMeta bytes path (some raw) written same =
        rw same (write_meta_chunk-WroteMeta bytes path raw)

    pub process_meta_chunks-WroteMeta :
        (b : ModpkgBuilder) (bytes written : List ℕ) (chunks : List ModpkgChunk)
        → process_meta_chunks x e b path_indices (front ++ bytes) ≡ ok (written, chunks)
        → (metadata : List ℕ) × (x.to_msgpack b.metadata ≡ ok metadata)
          × WroteMeta front bytes (meta_contents b metadata) written chunks
    unfolding process_meta_chunks
    process_meta_chunks-WroteMeta b bytes written chunks h =
        let r = >>=-eq-ok (or_modpkg_error (x.to_msgpack b.metadata)) _ h in
        let raw : List ℕ = r.0 in
        let first = write_meta_chunk-WroteMeta bytes metadata_chunk_path raw in
        let second =
          write_optional-WroteMeta (bytes ++ first.more) thumbnail_chunk_path b.thumbnail _
            first.written_is in
        let both = WroteMeta-append front bytes first second in
        let third =
          write_optional-WroteMeta (bytes ++ both.more) readme_chunk_path b.readme _
            both.written_is in
        (
          raw,
          or_modpkg_error-eq-ok (x.to_msgpack b.metadata) raw r.1,
          retarget front bytes (meta_contents b raw) r.2 (WroteMeta-append front bytes both third),
        )
