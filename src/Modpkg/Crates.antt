-- ===== src/Modpkg/Crates.antt =====
-- What the package format takes from other crates, as parameters.
use league_mod.Prelude.{ℕ, ◌≡◌, true, false, List, ◌∷◌, ◌++◌, Text, length, any, ◌==◌, nat_ord}
use league_mod.Prelude.Utf8.{is_utf8}
use league_mod.Prelude.Outcome.{Result, ok}
use league_mod.Modpkg.Types.{ModpkgError, ModpkgMetadata}

pub record Crates : Type 0 where
  -- `ltk_io_ext::ReaderExt::read_str_until_nul`: the text and what is left of the input
  pub read_str_until_nul : List ℕ → Result ModpkgError (Text × List ℕ)
  -- `zstd::bulk::compress` at level 3 and `zstd::bulk::decompress` to a size
  pub compress : List ℕ → Result ModpkgError (List ℕ)
  pub decompress : List ℕ → ℕ → Result ModpkgError (List ℕ)
  -- `rmp_serde::to_vec_named` and `rmp_serde::from_read`
  pub to_msgpack : ModpkgMetadata → Result ModpkgError (List ℕ)
  pub from_msgpack : List ℕ → Result ModpkgError ModpkgMetadata

-- A text that has no null byte.
pub record IsCText (t : Text) : Type 0 where
  pub is_text : is_utf8 t ≡ true
  pub no_null : any (λ b. b == 0) t ≡ false

-- What the package format relies on.
pub record Documented (x : Crates) : Type 0 where
  -- the text up to the first null byte, which is passed over
  pub reads_str :
      (t : Text) (rest : List ℕ) → IsCText t → x.read_str_until_nul (t ++ (0 ∷ rest)) ≡ ok (t, rest)
  -- what was compressed is given back
  pub decompresses :
      (raw stored : List ℕ) → x.compress raw ≡ ok stored → x.decompress stored (length raw) ≡ ok raw
