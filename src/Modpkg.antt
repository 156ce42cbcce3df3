-- ===== src/Modpkg.antt =====
-- The package format: crates/ltk_modpkg.
pub mod Types
pub mod Crates
pub mod Names
pub mod Reader
pub mod Archive
pub mod Mount
pub mod Builder
pub mod Format
pub mod Tables
pub mod Write
