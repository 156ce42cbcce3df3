-- ===== src/Overlay.antt =====
-- The overlay builder, crates/ltk_overlay.
pub mod FilePath
pub mod Types
pub mod State
pub mod GameIndex
pub mod Fingerprint
pub mod Distribute
pub mod Partition
pub mod MetaCache
pub mod Externals
pub mod ChunkHash
pub mod LinkedBins
pub mod Content
pub mod Collect
pub mod Merge
pub mod Sorted
pub mod Report
pub mod Offenders
pub mod Resolve
pub mod World
pub mod Patch
pub mod AllMods
pub mod Builder
pub mod WadBuilder
pub mod ModpkgContent
