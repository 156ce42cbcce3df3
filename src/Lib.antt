-- ===== src/Lib.antt =====
-- League Mod Toolkit: a verification of the overlay builder, crates/ltk_overlay, and of the
-- package format, crates/ltk_modpkg.
--
-- The overlay builder takes a list of enabled mods and writes, below an overlay directory, a
-- patched copy of each game WAD that the mods override. `build` runs in two passes. Pass 1
-- collects for each mod the path hash, content hash, size and source of every override, from a
-- cache if the mod is unchanged, merges the mods by priority and filters the result. The hashes
-- are then routed to WADs by the game index, and each WAD is rebuilt or, if its fingerprint is
-- that of the previous build, reused. Pass 2 reads the bytes for the WADs that are rebuilt, and
-- the WADs are patched. `overlay.json` records the settings and the fingerprints for the next
-- build.
--
-- A package is one file that a mod is distributed as: a header, the tables of layers, chunk paths
-- and WADs, a table of chunks, and the data of the chunks. `ModpkgBuilder` collects chunks and
-- writes the file; `Modpkg` mounts one and loads chunks by key or by path. The overlay builder
-- reads a mod that is a package through `ModpkgContent`.
--
-- Files and code (paths from the repository's root, below crates/ltk_overlay/src unless said):
--   Overlay/Types, Overlay/Content    error.rs, the data of builder/mod.rs, the trait of content.rs
--   Overlay/FilePath                  `Utf8PathBuf`: the list of a path's components
--   Overlay/State                     state.rs: `OverlayState`
--   Overlay/GameIndex                 game_index.rs: lookups and `find_best_matching_wad`
--   Overlay/Fingerprint               utils.rs: the two fingerprint routines
--   Overlay/ChunkHash                 utils.rs: `resolve_chunk_hash`; crates/ltk_modpkg/src/utils.rs
--   Overlay/LinkedBins, /Offenders    linked_bins.rs: the parser and the check
--   Overlay/MetaCache                 meta_cache.rs
--   Overlay/Collect, /Merge, /AllMods builder/metadata.rs: pass 1
--   Overlay/Report                    builder/mod.rs: `ModWadReport::from_meta`
--   Overlay/Distribute, /Partition, /Resolve, /Patch
--                                     builder/resolve.rs: its four functions, one file each
--   Overlay/WadBuilder                wad_builder.rs: `build_patched_wad`
--   Overlay/ModpkgContent             modpkg_content.rs: a package as the content of a mod
--   Overlay/World                     the files that a build reads and writes, and the monad of `build`
--   Overlay/Builder                   builder/mod.rs: `build`, `rebuild_all` and their helpers
--   Overlay/Sorted                    `sort`, `dedup` and `BTreeSet<String>`
--   Overlay/Externals                 the functions of other crates, as parameters
-- Below crates/ltk_modpkg/src:
--   Modpkg/Types                      error.rs, chunk.rs, license.rs and the data of metadata.rs
--   Modpkg/Names                      utils.rs: names in hexadecimal, the hashes of layers and WADs
--   Modpkg/Reader                     the reader of bytes, and the layers and chunks of lib.rs and
--                                     chunk.rs as binrw reads them
--   Modpkg/Mount                      read.rs: `mount_from_reader`
--   Modpkg/Archive                    lib.rs and decoder.rs: `Modpkg`, its lookups and loading;
--                                     the loaders of metadata.rs, readme.rs and thumbnail.rs
--   Modpkg/Builder                    builder.rs: the builders before anything is written
--   Modpkg/Tables                     builder.rs: the tables of paths, layers and WADs
--   Modpkg/Format                     builder.rs: the `write_` functions, as the bytes they write
--   Modpkg/Write                      builder.rs: `build_to_writer` and its steps
--   Modpkg/Crates                     the functions of other crates, as parameters
-- The modules below these hold the proofs and are named for what they prove. Prelude holds the
-- helpers: orders, association lists, `HashMap`, `BTreeMap` and `HashSet`, results, bytes, UTF-8.
-- Tests holds runs on small inputs.
--
-- State. A build of the overlay maps a world (the state file, the cache file, the overlay files
-- and the two results that the builder keeps) to a result and a world; what was done before a
-- failure stays done. A path is its components, as it is compared by, so that `as_str` of a path
-- gives its normal text. Paths of WADs in results are relative to the overlay directory. A
-- `ModpkgBuilder` is a record that its functions change; the writer is the list of the bytes
-- written, its position their number. A reader maps the rest of the input to a value and the rest
-- after it; a panic is one of its results.
--
-- Maps. A hash map or hash set is the list of its entries in iteration order, which the code does
-- not fix: the theorems hold for every order. A B-tree map is a sorted list.
--
-- Numbers are natural numbers. In the overlay builder hashes and fingerprints are compared and
-- never computed with, and the counts of overlaps, of 64 bits, stay below the number of overrides.
-- The counts of a report, of 32 bits, wrap around, as in a release build. A `u64` is printed in at
-- most twenty digits, the fuel that `decimal` gets. In the package format each integer is written
-- cut to its width, an index that the code casts to 32 bits is taken modulo 2 ^ 32, and the two
-- products that decide on compression are taken modulo 2 ^ 64. All loops are structural recursion;
-- a loop over a count that was read stops with the input.
--
-- Parameters, as they are not code of this repository: xxHash, Unicode lower case and lossy UTF-8
-- decoding, the game index that `load_or_build` gives, the content hashes of the game's chunks;
-- mounting a WAD and the bytes of an entry of its table (ltk_wad), the type of a file (ltk_file);
-- reading a text up to a null byte (ltk_io_ext), zstd, and MessagePack. Parameters too are the
-- answers of a mod's content provider, and in `build` and what it calls `build_patched_wad`, which
-- gives the bytes of the new WAD or fails and leaves some, and whether saving the state fails and
-- what it then leaves. Text of JSON and bytes of MessagePack are serde's: a file of the overlay
-- builder is what reading it gives.
--
-- Not modelled: progress events, logging and timing; the removal of empty directories; failures of
-- creating, writing and deleting files, but of patching a WAD and of saving the state, and of
-- writing and seeking in a package; what a build of a package that fails has written; the parallel
-- run of the patching tasks, which write different files (the model runs them in list order and
-- stops at the first failure); building the game index; the readers of mod directories and of
-- fantome archives; extractor.rs and project of ltk_modpkg; the crates ltk_pki, ltk_fantome,
-- ltk_mod_project, ltk_mod_core and league-mod.
pub mod Prelude
pub mod Modpkg
pub mod Overlay
pub mod Tests
