-- ===== src/Modpkg/Names.antt =====
-- Names and their hashes: crates/ltk_modpkg/src/utils.rs (two functions of it are in
-- Overlay/ChunkHash).
use league_mod.Prelude.{
  ℕ, Bool, false, not, ◌&&◌, Option, none, some, [], ◌∷◌, Text, text, length, all, take, select,
  if◌then◌else◌, ◌==◌, nat_ord, list_ord,
}
use league_mod.Overlay.Externals.{Externals}
use league_mod.Overlay.FilePath.{from, file_name}
use league_mod.Overlay.ChunkHash.{dot, is_hexdigit}

-- `s.split('.').next()`
unfoldable pub before_dot : Text → Text
before_dot [] = []
before_dot (b ∷ s) = let rest = before_dot s in if b == dot then [] else b ∷ rest

unfoldable pub is_hex_chunk_name : Text → Bool
unfolding before_dot is_hexdigit
is_hex_chunk_name chunk_name =
    if take 2 chunk_name == text "0x"
    then false
    else (length (before_dot chunk_name) == 16) && all is_hexdigit (before_dot chunk_name)

-- `Path::file_name`: `.` is no component, and `..` is no name.
proper : Option Text → Option Text
proper none = none
proper (some name) = if name == text ".." then none else some name

unfoldable pub path_file_name : Text → Option Text
unfolding proper
path_file_name path = proper (file_name (select (λ c. not (c == text ".")) (from path)))

module _ (e : Externals) where
  unfoldable pub hash_layer_name : Text → ℕ
  hash_layer_name name = e.xxh3_64 (e.to_lowercase name)

  unfoldable pub hash_wad_name : Text → ℕ
  hash_wad_name name = e.xxh3_64 (e.to_lowercase name)
