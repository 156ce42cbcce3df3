-- ===== src/Overlay/FilePath.antt =====
-- `Utf8PathBuf` for the relative paths of the overlay builder: the list of the path's components,
-- which `Ord`, `==`, `join`, `file_name` and `strip_prefix` go by. The separator is `/`.
-- A repeated or trailing separator and a component `.` are not components, so that `as_str` of a text
-- that was read as a path leaves them out; a relative path here has none (`IsRelative`).
use league_mod.Prelude.{
  ℕ, ◌≡◌, refl, ◌≢◌, Bool, true, false, not, Option, none, some, List, [], ◌∷◌, ◌++◌, arith, Text,
  All, any, select, if◌then◌else◌, ◌==◌, nat_ord, list_ord,
}

abbrev pub FilePath : Type 0
FilePath = List Text

abbrev pub separator : ℕ
separator = b'/'

-- `as_str`
unfoldable pub as_str : FilePath → Text
as_str [] = []
as_str (c ∷ []) = c
as_str (c ∷ d ∷ p) = c ++ (separator ∷ as_str (d ∷ p))

abbrev cons_first : ℕ → FilePath → FilePath
cons_first b [] = (b ∷ []) ∷ []
cons_first b (c ∷ p) = (b ∷ c) ∷ p

unfoldable pub split : Text → FilePath
split [] = [] ∷ []
split (b ∷ s) = let rest = split s in if b == separator then [] ∷ rest else cons_first b rest

abbrev pub is_empty : Text → Bool
is_empty [] = true
is_empty (b ∷ s) = false

-- `Utf8PathBuf::from`, read through `components`, which skips repeated separators.
unfoldable pub from : Text → FilePath
from s = select (λ c. not (is_empty c)) (split s)

-- `file_name`
unfoldable pub file_name : FilePath → Option Text
file_name [] = none
file_name (c ∷ []) = some c
file_name (c ∷ d ∷ p) = file_name (d ∷ p)

-- A component as `components` yields it: some bytes, and no separator among them.
pub record IsComponent (c : Text) : Type 0 where
  pub nonempty : is_empty c ≡ false
  pub no_separator : any (λ b. b == separator) c ≡ false

-- A path that `components` can yield: what every WAD path of the game index is.
pub record IsRelative (p : FilePath) : Type 0 where
  pub nonempty : p ≢ []
  pub components : All IsComponent p

split_last : (c : Text) → any (λ b. b == separator) c ≡ false → split c ≡ c ∷ []
unfolding split
split_last [] h = refl
split_last (b ∷ c) h = ground (arith, split_last c)

split_first :
    (c s : Text) → any (λ b. b == separator) c ≡ false → split (c ++ (separator ∷ s)) ≡ c ∷ split s
unfolding split
split_first [] s h = refl
split_first (b ∷ c) s h = ground (arith, split_first c s)

select_components : (p : FilePath) → All IsComponent p → select (λ c. not (is_empty c)) p ≡ p
select_components [] h = refl
select_components (c ∷ p) h = rw (h.0.nonempty, select_components p h.1)

split-as_str : (p : FilePath) → p ≢ [] → All IsComponent p → split (as_str p) ≡ p
unfolding as_str
split-as_str [] n h = absurd (n refl)
split-as_str (c ∷ []) n h = split_last c h.0.no_separator
split-as_str (c ∷ d ∷ p) n h =
    rw (split_first c _ h.0.no_separator, split-as_str (d ∷ p) (λ e. cc) h.1)

pub from-as_str : (p : FilePath) → IsRelative p → from (as_str p) ≡ p
unfolding from
from-as_str p h = rw (split-as_str p h.nonempty h.components) (select_components p h.components)

-- Two relative paths with one text are one path.
pub as_str_injective : (p q : FilePath) → IsRelative p → IsRelative q → as_str p ≡ as_str q → p ≡ q
as_str_injective p q hp hq e = rw (← from-as_str p hp, e) (from-as_str q hq)
