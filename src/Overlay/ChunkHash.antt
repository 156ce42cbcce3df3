-- ===== src/Overlay/ChunkHash.antt =====
-- The chunk hash of an override file: crates/ltk_overlay/src/utils.rs, with `normalize_chunk_path`
-- and `hash_chunk_name` of crates/ltk_modpkg/src/utils.rs. Texts are bytes.
pub mod HexName
use league_mod.Prelude.{
  ℕ, suc, ◌+◌, ◌-◌, ◌*◌, Bool, true, false, ◌&&◌, ◌||◌, Option, none, some, [], ◌∷◌, ◌++◌, map,
  Text, text, leb, length, all, take, drop, if◌then◌else◌, ◌==◌, nat_ord, list_ord,
}
use league_mod.Prelude.Outcome.{Result, ok}
use league_mod.Overlay.FilePath.{FilePath, file_name, as_str}
use league_mod.Overlay.Types.{Error}
use league_mod.Overlay.GameIndex.{to_ascii_lowercase}
use league_mod.Overlay.Distribute.{or_empty}
use league_mod.Overlay.Externals.{Externals}

abbrev pub dot : ℕ
dot = b'.'

-- `str::find` of a pattern: the first position where it stands.
starts_with : Text → Text → Bool
starts_with [] s = true
starts_with (p ∷ ps) [] = false
starts_with (p ∷ ps) (b ∷ s) = p == b && starts_with ps s

abbrev next : Option ℕ → Option ℕ
next none = none
next (some i) = some (suc i)

unfoldable pub find : Text → Text → Option ℕ
unfolding starts_with
find pattern [] = if starts_with pattern [] then some 0 else none
find pattern (b ∷ s) = if starts_with pattern (b ∷ s) then some 0 else next (find pattern s)

-- `str::ends_with`
unfoldable pub ends_with : Text → Text → Bool
ends_with pattern s =
    leb (length pattern) (length s) && drop (length s - length pattern) s == pattern

abbrev slash : ℕ → ℕ
slash b = if b == 0x5c then b'/' else b

-- `replace('\\', "/")`
unfoldable pub to_slashes : Text → Text
to_slashes s = map slash s

-- `.ltk.` loses its `.ltk`, and a final `.ltk` goes.
unfoldable pub strip_ltk : Text → Text
unfolding find ends_with to_ascii_lowercase
strip_ltk last = elim (find (text ".ltk.") (to_ascii_lowercase last)) [
  | some idx ↦ take idx last ++ drop (idx + 4) last
  | none ↦
      if ends_with (text ".ltk") (to_ascii_lowercase last)
      then take (length last - 4) last
      else last
]

strip_last : FilePath → FilePath
strip_last [] = []
strip_last (c ∷ []) = strip_ltk c ∷ []
strip_last (c ∷ d ∷ p) = c ∷ strip_last (d ∷ p)

or_original : Text → FilePath → Text
or_original [] rel_path = to_slashes (as_str rel_path)
or_original (b ∷ s) rel_path = to_slashes (b ∷ s)

unfoldable pub normalize_rel_path_for_hash : FilePath → Text
unfolding strip_last strip_ltk or_original to_slashes as_str
normalize_rel_path_for_hash [] = []
normalize_rel_path_for_hash (c ∷ p) = or_original (as_str (strip_last (c ∷ p))) (c ∷ p)

-- `Utf8Path::file_stem` of a file name: up to its last dot, unless that is its first byte.
last_dot : Text → Option ℕ
last_dot [] = none
last_dot (b ∷ s) = elim (last_dot s) [
  | some i ↦ some (suc i)
  | none ↦ if b == dot then some 0 else none
]

unfoldable pub file_stem : Text → Text
unfolding last_dot
file_stem name = elim (last_dot name) [
  | none ↦ name
  | some i ↦ if i == 0 then name else take i name
]

unfoldable pub is_hexdigit : ℕ → Bool
is_hexdigit b =
    (leb b'0' b && leb b b'9') || (leb b'a' b && leb b b'f') || (leb b'A' b && leb b b'F')

digit_value : ℕ → ℕ
digit_value b = if leb b b'9' then b - b'0' else if leb b b'F' then b - b'A' + 10 else b - b'a' + 10

-- `u64::from_str_radix(s, 16)` on hexadecimal digits; sixteen of them always fit.
pub from_hex : ℕ → Text → ℕ
from_hex acc [] = acc
from_hex acc (b ∷ s) = from_hex (16 * acc + digit_value b) s

unfoldable pub is_hex_stem : Text → Bool
unfolding is_hexdigit
is_hex_stem stem = length stem == 16 && all is_hexdigit stem

module _ (e : Externals) where
  unfoldable pub normalize_chunk_path : Text → Text
  unfolding to_slashes
  normalize_chunk_path path = to_slashes (e.to_lowercase path)

  unfoldable pub hash_chunk_name : Text → ℕ
  hash_chunk_name name = e.xxh64 name

  unfoldable pub resolve_chunk_hash : FilePath → Result Error ℕ
  unfolding file_stem is_hex_stem from_hex digit_value
  resolve_chunk_hash rel_path =
      let stem = file_stem (or_empty (file_name rel_path)) in
      if is_hex_stem stem
      then ok (from_hex 0 stem)
      else ok (hash_chunk_name (normalize_chunk_path (normalize_rel_path_for_hash rel_path)))
