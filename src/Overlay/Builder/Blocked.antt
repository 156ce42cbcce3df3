-- ===== src/Overlay/Builder/Blocked.antt =====
-- The blocked WADs of `OverlayBuilder` (crates/ltk_overlay/src/builder/mod.rs): the names that
-- `with_blocked_wads` takes, and the WADs that `is_wad_blocked` keeps out of a build.
use league_mod.Prelude.{
  ℕ, ◌+◌, ◌≡◌, refl, ◌∙◌, Bool, true, false, ◌&&◌, ◌||◌, none, List, [], ◌∷◌, Text, Ordering,
  or_else, cmp_list, any, compare, leb, arith, if◌then◌else◌, ◌==◌, nat_ord, list_ord,
}
use league_mod.Prelude.Assoc.{get}
use league_mod.Prelude.HashSet.{contains, contains-insert, insert}
use league_mod.Overlay.FilePath.{FilePath, file_name}
use league_mod.Overlay.GameIndex.{GameIndex, to_ascii_lowercase}
use league_mod.Overlay.Distribute.{distribute_override_hashes, or_empty, is_wad_blocked}
use league_mod.Overlay.Distribute.WellFormed.{distribute-IsRouting, get-remove_blocked}
use league_mod.Overlay.AllMods.{AllMeta}
use league_mod.Overlay.Builder.{OverlayBuilder, with_blocked_wads, collect_lowercase, routing}

-- Two bytes that are the same, or the capital and the small letter of the ASCII alphabet.
abbrev is_capital : ℕ → Bool
is_capital c = leb b'A' c && leb c b'Z'

abbrev same_letter : ℕ → ℕ → Bool
same_letter c d = (c == d) || ((is_capital c && (c + 32 == d)) || (is_capital d && (d + 32 == c)))

-- The same text but for the case of its letters, byte by byte.
abbrev pub same_but_case : Text → Text → Bool
same_but_case [] [] = true
same_but_case [] (d ∷ t) = false
same_but_case (c ∷ s) [] = false
same_but_case (c ∷ s) (d ∷ t) = same_letter c d && same_but_case s t

same_letter_lem :
    (c d : ℕ)
    → ((if is_capital c then c + 32 else c) == (if is_capital d then d + 32 else d))
      ≡ same_letter c d
same_letter_lem c d = ground arith

cons-eq : (c d : ℕ) (s t : Text) → ((c ∷ s) == (d ∷ t)) ≡ (c == d) && (s == t)
cons-eq c d s t = go (compare c d)
  where
    go :
        (o : Ordering)
        → (elim (or_else o (cmp_list s t)) as (λ _. Bool) [
          | Ordering.lt ↦ false
          | Ordering.eq ↦ true
          | Ordering.gt ↦ false
        ])
          ≡ (elim o as (λ _. Bool) [
            | Ordering.lt ↦ false
            | Ordering.eq ↦ true
            | Ordering.gt ↦ false
          ])
            && (s == t)
    go Ordering.lt = refl
    go Ordering.eq = refl
    go Ordering.gt = refl

lowercase-same : (s t : Text) → (to_ascii_lowercase s == to_ascii_lowercase t) ≡ same_but_case s t
unfolding to_ascii_lowercase
lowercase-same [] [] = refl
lowercase-same [] (d ∷ t) = refl
lowercase-same (c ∷ s) [] = refl
lowercase-same (c ∷ s) (d ∷ t) =
    cons-eq _ _ (to_ascii_lowercase s) (to_ascii_lowercase t)
    ∙ rw (same_letter_lem c d, lowercase-same s t) refl

contains-collect :
    (t : Text) (wads set : List Text)
    → contains t (collect_lowercase wads set)
      ≡ contains t set || any (λ wad. to_ascii_lowercase wad == t) wads
unfolding collect_lowercase
contains-collect t [] set = ground arith
contains-collect t (wad ∷ wads) set =
    contains-collect t wads (insert (to_ascii_lowercase wad) set)
    ∙ ground (arith, contains-insert (to_ascii_lowercase wad) t set)

any-same :
    (t : Text) (wads : List Text)
    → any (λ wad. to_ascii_lowercase wad == to_ascii_lowercase t) wads
      ≡ any (λ wad. same_but_case wad t) wads
any-same t [] = refl
any-same t (wad ∷ wads) = rw (lowercase-same wad t, any-same t wads) refl

module _ (b : OverlayBuilder) (names : List Text) where
  -- Whether the file name of the WAD is one of the names, up to the case of its letters.
  abbrev pub is_named : FilePath → Bool
  is_named v = any (λ name. same_but_case name (or_empty (file_name v))) names

  is_wad_blocked-eq-is_named :
      (v : FilePath) → is_wad_blocked (with_blocked_wads b names).blocked_wads v ≡ is_named v
  unfolding is_wad_blocked with_blocked_wads
  is_wad_blocked-eq-is_named v =
      contains-collect (to_ascii_lowercase (or_empty (file_name v))) names []
      ∙ any-same (or_empty (file_name v)) names

  -- With blocked names set, a build routes nothing to a WAD whose file name is one of the names, up
  -- to the case of ASCII letters on either side, and to every other WAD what the distribution of
  -- the overrides gives it.
  pub routing_blocked :
      (g : GameIndex) (m : AllMeta) (v : FilePath)
      → get v (routing (with_blocked_wads b names) g m)
        ≡ (if is_named v then none else get v (distribute_override_hashes g m.all_meta))
  unfolding routing
  routing_blocked g m v =
      get-remove_blocked (with_blocked_wads b names).blocked_wads v
        (distribute_override_hashes g m.all_meta) (distribute-IsRouting g m.all_meta)
      ∙ rw (is_wad_blocked-eq-is_named v) refl
