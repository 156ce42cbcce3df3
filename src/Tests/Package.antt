-- ===== src/Tests/Package.antt =====
-- What holds of the small package.
use league_mod.Prelude.{
  ℕ, ◌+◌, ◌^◌, ◌<◌, ◌≤◌, ◌≡◌, refl, ◌∙◌, subst, sym, ap, true, List, [], ◌∷◌, text, length, some,
  nat_ord, pair_ord, arith, All, inl, inr,
}
use league_mod.Prelude.Assoc.{In, get}
use league_mod.Prelude.Outcome.{Result, ok, err}
use league_mod.Modpkg.Types.{
  uncompressed, no_wad_index, ModpkgChunk, base_layer_name, metadata_chunk_path,
}
use league_mod.Modpkg.Archive.{
  Key, Modpkg, load_chunk_decompressed_by_hash, load_chunk_decompressed_by_path,
}
use league_mod.Modpkg.Reader.{Fault}
use league_mod.Modpkg.Mount.{mount_from_reader}
use league_mod.Modpkg.Mount.Fields.{IsLayer, layer_hashes}
use league_mod.Modpkg.Builder.{
  ModpkgBuilder, ModpkgChunkBuilder, ModpkgBuilderError, default_builder, with_chunk, with_path,
  new_chunk, with_layer, base, key,
}
use league_mod.Modpkg.Builder.Invariant.{HasMetaNames, IsBuilder, IsMade, IsMade-IsBuilder}
use league_mod.Modpkg.Tables.{values, all_builders, is_defined}
use league_mod.Modpkg.Tables.Validate.{HasLayer}
use league_mod.Modpkg.Write.{build_to_writer}
use league_mod.Modpkg.Write.Written.{Fits}
use league_mod.Modpkg.Write.Parts.{reserved}
use league_mod.Modpkg.Write.Selected.{NamedIn}
use league_mod.Modpkg.Write.RoundTrip.{IsBuildable, load-mount-build}
use league_mod.Modpkg.Write.ByPath.{load_by_path-build}
use league_mod.Modpkg.Write.Bounds.{mounted_chunk_bounds}
use league_mod.Modpkg.Write.Succeeds.{Succeeds, build_to_writer-Succeeds}
use league_mod.Modpkg.Write.Front.{HasCount}
use league_mod.Modpkg.Write.Shadowed.{shadowed_chunk_counted}
use league_mod.Tests.Archive.{
  crates, hashing, provided, computed_package, until_nul, lower-ascii, crates-Documented,
  hashing-HasWidth, a_chunk, b_chunk, a_builder, the_bytes, the_file, built, length-the_file,
}

hashing-HasMetaNames : HasMetaNames hashing
unfolding computed_package
hashing-HasMetaNames = record {
  keeps_lower = lower-ascii;
  metadata-ne-thumbnail = λ h. ground (arith, h);
  metadata-ne-readme = λ h. ground (arith, h);
  thumbnail-ne-readme = λ h. ground (arith, h);
}

a_builder-IsMade : IsMade hashing a_builder
a_builder-IsMade =
    IsMade.chunk b_chunk
      (IsMade.chunk a_chunk (IsMade.readme (text "hi") (IsMade.layer base IsMade.default)))

a_builder-IsBuilder : IsBuilder hashing a_builder
a_builder-IsBuilder = IsMade-IsBuilder hashing hashing-HasMetaNames a_builder-IsMade

base-IsLayer : IsLayer base
unfolding computed_package
base-IsLayer = record { is_text = refl; length_fits = ground arith; priority_fits = ground arith }

a_builder-Fits : Fits a_builder provided
unfolding computed_package
a_builder-Fits = record {
  layers_fit = (base-IsLayer, tt);
  layer_count_fits = ground arith;
  chunk_count_fits = ground arith;
  paths_fit = (
    record { is_text = refl; no_null = refl },
    (
      record { is_text = refl; no_null = refl },
      (record { is_text = refl; no_null = refl }, (record { is_text = refl; no_null = refl }, tt)),
    ),
  );
  wads_fit = (
    record { is_text = refl; no_null = refl },
    (
      record { is_text = refl; no_null = refl },
      (record { is_text = refl; no_null = refl }, (record { is_text = refl; no_null = refl }, tt)),
    ),
  );
  hashes_fit = ground arith;
  contents_fit = λ c raw h. subst (λ r. length r < 2 ^ 64) (ap the_bytes h) (ground arith);
}

a_builder-IsBuildable : IsBuildable crates hashing provided a_builder
unfolding computed_package
a_builder-IsBuildable = record {
  documented = crates-Documented;
  width = hashing-HasWidth;
  no_collision = λ c d raw other h k same size. sym (ap the_bytes h) ∙ ap the_bytes k;
  builder = a_builder-IsBuilder;
  free = (λ n. ground (arith, n), (λ n. ground (arith, n), tt));
  fits = a_builder-Fits;
}

a_builder-layers : is_defined a_builder.layers base_layer_name ≡ true
unfolding computed_package
a_builder-layers = refl

a_builder-HasLayer : All (λ c. HasLayer a_builder.layers c.layer) (all_builders a_builder)
unfolding computed_package
a_builder-HasLayer = (inr refl, (inr refl, (inl refl, (inl refl, tt))))

build_to_writer-Succeeds_example : Succeeds (build_to_writer crates hashing provided a_builder)
build_to_writer-Succeeds_example =
    build_to_writer-Succeeds crates hashing provided (λ c. (7 ∷ 8 ∷ [], refl)) (λ raw. (raw, refl))
      a_builder (1 ∷ 2 ∷ [], refl) a_builder-layers a_builder-HasLayer

the_file-fits : length the_file < 2 ^ 64
the_file-fits = omega (arith, length-the_file)

IsMade-IsBuilder_example : IsBuilder hashing a_builder
IsMade-IsBuilder_example = IsMade-IsBuilder hashing hashing-HasMetaNames a_builder-IsMade

load-mount-build_example :
    (m : Modpkg) × (mount_from_reader crates hashing the_file ≡ ok m)
    × (m.layer_indices ≡ layer_hashes hashing a_builder.layers)
    × ((k : Key) (c : ModpkgChunkBuilder)
        → get k a_builder.chunks ≡ some c
        → (raw : List ℕ) × (provided c ≡ ok raw)
          × (load_chunk_decompressed_by_hash crates m k ≡ ok raw))
load-mount-build_example =
    load-mount-build crates hashing provided a_builder the_file a_builder-IsBuildable the_file-fits
      built

abbrev pub or_empty : Result Fault Modpkg → Modpkg
or_empty (ok m) = m
or_empty (err _) = record {
  signature = [];
  layer_indices = [];
  layers = [];
  chunk_path_indices = [];
  chunk_paths = [];
  wads_indices = [];
  wads = [];
  chunks = [];
  chunks_by_wad_layer = [];
  source = [];
}

abbrev a_package : Modpkg
a_package = or_empty (mount_from_reader crates hashing the_file)

mounted : mount_from_reader crates hashing the_file ≡ ok a_package
unfolding computed_package until_nul
mounted = refl

there : get (key hashing (with_path hashing b_chunk (text "B"))) a_builder.chunks ≡ some b_chunk
unfolding computed_package
there = refl

load_by_path-build_example :
    (raw : List ℕ) × (provided b_chunk ≡ ok raw)
    × (load_chunk_decompressed_by_path crates hashing a_package (text "B") (some (text "base"))
        ≡ ok raw)
unfolding computed_package
load_by_path-build_example =
    load_by_path-build crates hashing provided a_builder the_file a_package b_chunk b_chunk
      (text "B") a_builder-IsBuildable the_file-fits built mounted refl there

abbrev the_chunk : ModpkgChunk
the_chunk = record {
  path_hash = 98;
  data_offset = 336;
  compression = uncompressed;
  compressed_size = 2;
  uncompressed_size = 2;
  compressed_checksum = 15;
  uncompressed_checksum = 15;
  path_index = 1;
  layer_index = 0;
  wad_index = no_wad_index;
}

the_chunk_there :
    get (key hashing (with_path hashing new_chunk (text "b"))) a_package.chunks ≡ some the_chunk
unfolding computed_package until_nul
the_chunk_there = refl

mounted_chunk_bounds_example :
    (length (reserved hashing a_builder) ≤ the_chunk.data_offset)
    × (the_chunk.data_offset + the_chunk.compressed_size ≤ length the_file)
mounted_chunk_bounds_example =
    mounted_chunk_bounds crates hashing provided a_builder the_file a_package
      (key hashing (with_path hashing new_chunk (text "b"))) the_chunk a_builder-IsBuildable
      the_file-fits built mounted the_chunk_there

-- A chunk with the path of the metadata.
abbrev shadowed : ModpkgChunkBuilder
shadowed = with_path hashing new_chunk metadata_chunk_path

abbrev shadowing : ModpkgBuilder
shadowing = with_chunk hashing (with_layer (default_builder hashing) base) shadowed

shadowing-IsBuilder : IsBuilder hashing shadowing
shadowing-IsBuilder =
    IsMade-IsBuilder hashing hashing-HasMetaNames
      (IsMade.chunk shadowed (IsMade.layer base IsMade.default))

abbrev file_of : Result ModpkgBuilderError (List ℕ) → List ℕ
file_of (ok file) = file
file_of (err _) = []

abbrev shadowing_file : List ℕ
shadowing_file = file_of (build_to_writer crates hashing provided shadowing)

shadowing_built : build_to_writer crates hashing provided shadowing ≡ ok shadowing_file
unfolding computed_package
shadowing_built = refl

shadowing-few : length shadowing.chunks + length shadowing.meta_chunks < 2 ^ 32
unfolding computed_package
shadowing-few = omega arith

shadowed_there : In shadowed (values shadowing.chunks)
unfolding computed_package
shadowed_there = inl refl

shadowed-NamedIn : NamedIn hashing shadowing shadowed.path_hash
unfolding computed_package
shadowed-NamedIn = inl refl

shadowed_chunk_counted_example :
    (count : ℕ) × (entries : List ModpkgChunk) × HasCount crates hashing provided shadowing
      shadowing_file count entries
    × (length entries < count)
shadowed_chunk_counted_example =
    shadowed_chunk_counted crates hashing provided shadowing shadowed shadowing_file
      shadowing-IsBuilder shadowed_there shadowed-NamedIn shadowing-few shadowing_built
