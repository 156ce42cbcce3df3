-- ===== src/Tests/Content.antt =====
-- A package as the content of a mod: one chunk of one WAD.
use league_mod.Prelude.{◌≡◌, refl, inl, inr, [], ◌∷◌, text, arith, nat_ord, pair_ord}
use league_mod.Prelude.Outcome.{ok}
use league_mod.Overlay.ModpkgContent.{list_layer_wads, read_wad_overrides, read_wad_override_file}
use league_mod.Overlay.ModpkgContent.Agrees.{IsIndexed, read_wad_override_file-read_wad_overrides}
use league_mod.Modpkg.Archive.{Modpkg}
use league_mod.Modpkg.Mount.{mount_from_reader}
use league_mod.Modpkg.Builder.{
  ModpkgBuilder, default_builder, with_layer, with_chunk, with_wad, base,
}
use league_mod.Modpkg.Write.{build_to_writer}
use league_mod.Tests.Package.{or_empty}
use league_mod.Tests.Archive.{
  crates, hashing, provided, computed_package, until_nul, the_bytes, a_chunk,
}

abbrev w_builder : ModpkgBuilder
w_builder =
    with_chunk hashing (with_layer (default_builder hashing) base)
      (with_wad hashing a_chunk (text "W"))

abbrev w_package : Modpkg
w_package = or_empty (
    mount_from_reader crates hashing
      (the_bytes (build_to_writer crates hashing provided w_builder)))

lists : list_layer_wads hashing w_package (text "base") ≡ ok (text "w" ∷ [])
unfolding computed_package until_nul list_layer_wads
lists = refl

reads :
    read_wad_overrides crates hashing w_package (text "base") (text "w")
    ≡ ok (((text "a" ∷ []), 7 ∷ 8 ∷ []) ∷ [])
unfolding computed_package until_nul read_wad_overrides
reads = refl

w_package-IsIndexed : IsIndexed crates hashing w_package
unfolding computed_package until_nul
w_package-IsIndexed = record {
  paths_named = (refl, (refl, tt));
  in_layer = (inl refl, (inr (refl, tt), tt));
  layers_fit = ground arith;
}

read_wad_override_file-read_wad_overrides_example :
    read_wad_override_file crates hashing w_package (text "base") (text "w") (text "a" ∷ [])
    ≡ ok (7 ∷ 8 ∷ [])
read_wad_override_file-read_wad_overrides_example =
    read_wad_override_file-read_wad_overrides crates hashing w_package (text "base") (text "w")
      (((text "a" ∷ []), 7 ∷ 8 ∷ []) ∷ []) (text "a" ∷ []) (7 ∷ 8 ∷ []) w_package-IsIndexed reads
      (inl refl)
