-- ===== src/Modpkg/Write/Succeeds.antt =====
-- When `build_to_writer` succeeds.
use league_mod.Prelude.{
  ℕ, ◌≡◌, refl, Bool, true, false, Option, none, some, List, [], ◌∷◌, length, All, if◌then◌else◌,
  nat_ord, list_ord, pair_ord,
}
use league_mod.Prelude.Assoc.{get}
use league_mod.Prelude.HashMap.{HashMap}
use league_mod.Prelude.Outcome.{Result, ok}
use league_mod.Overlay.Externals.{Externals}
use league_mod.Modpkg.Types.{ModpkgError, ModpkgCompression, uncompressed, zstd, base_layer_name}
use league_mod.Modpkg.Crates.{Crates}
use league_mod.Modpkg.Builder.{ModpkgBuilderError, ModpkgChunkBuilder, ModpkgBuilder}
use league_mod.Modpkg.Tables.{collect_unique_layers, all_builders, is_defined, validate_layers}
use league_mod.Modpkg.Write.{
  WrittenData, Contents, Indices, or_io_error, or_modpkg_error, compress_chunk_data, write_new,
  write_content, process_chunks, process_meta_chunks, process_all_chunks, collect_regular_chunks,
  indices_of, build_to_writer,
}
use league_mod.Modpkg.Write.Parts.{reserved}
use league_mod.Modpkg.Tables.Validate.{HasLayer, collected-eq-ok}
use league_mod.Prelude.Outcome.{◌>>=◌}

-- A call that succeeds.
abbrev pub Succeeds : {E A : Type 0} → Result E A → Type 0
Succeeds {E} {A} r = (a : A) × (r ≡ ok a)

>>=-Succeeds :
    {E A B : Type 0} (m : Result E A) (f : A → Result E B)
    → Succeeds m
    → ((a : A) → Succeeds (f a))
    → Succeeds (m >>= f)
>>=-Succeeds m f (a, e) g = rw e (g a)

if-Succeeds : {E A : Type 0} (c : Bool) (a b : A) → Succeeds {E = E} (if c then ok a else ok b)
if-Succeeds true a b = (a, refl)
if-Succeeds false a b = (b, refl)

or_io_error-Succeeds :
    {A : Type 0} (r : Result ModpkgError A) → Succeeds r → Succeeds (or_io_error r)
or_io_error-Succeeds r (a, e) = rw e (a, refl)

or_modpkg_error-Succeeds :
    {A : Type 0} (r : Result ModpkgError A) → Succeeds r → Succeeds (or_modpkg_error r)
or_modpkg_error-Succeeds r (a, e) = rw e (a, refl)

module _ (x : Crates) (e : Externals)
    (provide : ModpkgChunkBuilder → Result ModpkgBuilderError (List ℕ))
    (provides : (c : ModpkgChunkBuilder) → Succeeds (provide c))
    (compresses : (raw : List ℕ) → Succeeds (x.compress raw)) where
  compress-Succeeds :
      (raw : List ℕ) (requested : ModpkgCompression)
      → Succeeds (compress_chunk_data x raw requested)
  unfolding compress_chunk_data
  compress-Succeeds raw uncompressed = ((raw, uncompressed), refl)
  compress-Succeeds raw zstd =
      >>=-Succeeds (or_io_error (x.compress raw)) _
        (or_io_error-Succeeds (x.compress raw) (compresses raw)) (λ z. if-Succeeds _ _ _)

  write_new-Succeeds :
      (raw : List ℕ) (requested : ModpkgCompression) (written : List ℕ) (contents : Contents)
      → Succeeds (write_new x e raw requested written contents)
  unfolding write_new
  write_new-Succeeds raw requested written contents =
      >>=-Succeeds (compress_chunk_data x raw requested) _ (compress-Succeeds raw requested)
        (λ z. (_, refl))

  known_or_new-Succeeds :
      (known : Option WrittenData) (raw : List ℕ) (requested : ModpkgCompression) (written : List ℕ)
      (contents : Contents)
      → Succeeds {E = ModpkgBuilderError} (elim known [
        | some existing ↦ ok (existing, (written, contents))
        | none ↦ write_new x e raw requested written contents
      ])
  known_or_new-Succeeds (some existing) raw requested written contents = (_, refl)
  known_or_new-Succeeds none raw requested written contents =
      write_new-Succeeds raw requested written contents

  write_content-Succeeds :
      (raw : List ℕ) (requested : ModpkgCompression) (written : List ℕ) (contents : Contents)
      → Succeeds (write_content x e raw requested written contents)
  unfolding write_content
  write_content-Succeeds raw requested written contents =
      known_or_new-Succeeds (get (e.xxh3_64 raw, length raw) contents) raw requested written
        contents

  process_chunks-Succeeds :
      (indices : Indices) (chunks : List ModpkgChunkBuilder) (written : List ℕ)
      (contents : Contents)
      → Succeeds (process_chunks x e provide indices chunks written contents)
  unfolding process_chunks
  process_chunks-Succeeds indices [] written contents = ((written, []), refl)
  process_chunks-Succeeds indices (c ∷ chunks) written contents =
      >>=-Succeeds (provide c) _ (provides c) (λ raw.
        >>=-Succeeds (write_content x e raw c.compression written contents) _
          (write_content-Succeeds raw c.compression written contents)
          (λ w.
            >>=-Succeeds (process_chunks x e provide indices chunks (w.1).0 (w.1).1) _
              (process_chunks-Succeeds indices chunks (w.1).0 (w.1).1) (λ r. (_, refl))))

  process_meta_chunks-Succeeds :
      (b : ModpkgBuilder) (path_indices : HashMap ℕ ℕ) (written : List ℕ)
      → Succeeds (x.to_msgpack b.metadata)
      → Succeeds (process_meta_chunks x e b path_indices written)
  unfolding process_meta_chunks
  process_meta_chunks-Succeeds b path_indices written h =
      >>=-Succeeds (or_modpkg_error (x.to_msgpack b.metadata)) _
        (or_modpkg_error-Succeeds (x.to_msgpack b.metadata) h) (λ raw. (_, refl))

  process_all_chunks-Succeeds :
      (b : ModpkgBuilder) (indices : Indices) (written : List ℕ)
      → Succeeds (x.to_msgpack b.metadata)
      → Succeeds (process_all_chunks x e provide b indices written)
  unfolding process_all_chunks
  process_all_chunks-Succeeds b indices written h =
      >>=-Succeeds (process_meta_chunks x e b indices.paths written) _
        (process_meta_chunks-Succeeds b indices.paths written h)
        (λ m.
          >>=-Succeeds (process_chunks x e provide indices (collect_regular_chunks b m.1) m.0 []) _
            (process_chunks-Succeeds indices (collect_regular_chunks b m.1) m.0 [])
            (λ r. (_, refl)))

  -- Where the content of every chunk is provided, compression does not fail and the metadata are
  -- encoded: the builder writes a file if it has the base layer and every chunk has no layer or one
  -- that is defined.
  pub build_to_writer-Succeeds :
      (b : ModpkgBuilder)
      → Succeeds (x.to_msgpack b.metadata)
      → is_defined b.layers base_layer_name ≡ true
      → All (λ c. HasLayer b.layers c.layer) (all_builders b)
      → Succeeds (build_to_writer x e provide b)
  unfolding build_to_writer
  build_to_writer-Succeeds b h d a =
      >>=-Succeeds (validate_layers b.layers (collect_unique_layers e b).0) _
        (tt, collected-eq-ok e b d a)
        (λ v.
          >>=-Succeeds (process_all_chunks x e provide b (indices_of e b) (reserved e b)) _
            (process_all_chunks-Succeeds b (indices_of e b) (reserved e b) h) (λ r. (_, refl)))
