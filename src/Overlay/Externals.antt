-- ===== src/Overlay/Externals.antt =====
-- What the overlay builder takes from other crates and from Unicode tables, as parameters.
use league_mod.Prelude.{ℕ, List, Text}

pub record Externals : Type 0 where
  -- `xxhash_rust::xxh3::xxh3_64`
  pub xxh3_64 : List ℕ → ℕ
  -- `xxhash_rust::xxh64::xxh64` at seed 0
  pub xxh64 : List ℕ → ℕ
  -- `str::to_lowercase`, the full Unicode mapping
  pub to_lowercase : Text → Text
  -- `String::from_utf8_lossy`
  pub from_utf8_lossy : List ℕ → Text
