-- ===== src/Overlay/Report/Counts.antt =====
-- The counts of `ModWadReport::from_meta` (crates/ltk_overlay/src/builder/mod.rs), WAD by WAD.
use league_mod.Prelude.{
  ℕ, ◌+◌, ◌%◌, ◌^◌, ◌≡◌, refl, ap, ◌∙◌, inl, inr, Bool-cases, eq→≡, Option, none, some, List, [],
  ◌∷◌, Text, arith, All, if◌then◌else◌, ◌==◌, nat_ord, list_ord,
}
use league_mod.Prelude.Assoc.{get, AllEntries}
use league_mod.Prelude.Order.{Ord}
use league_mod.Prelude.{Ordering}
use league_mod.Prelude.TreeMap.{TreeMap, insert, get-insert}
use league_mod.Overlay.FilePath.{FilePath, IsRelative, as_str}
use league_mod.Overlay.Types.{OverrideMeta}
use league_mod.Overlay.GameIndex.{GameIndex, or_zero, find_wads_with_hash}
use league_mod.Overlay.GameIndex.BestMatch.{times}
use league_mod.Overlay.Collect.{ModMeta}
use league_mod.Overlay.Partition.Keys.{as_str_eq}
use league_mod.Overlay.Report.{
  AffectedWad, count_wad, count_wads, count_fallback, count_entry, count_entries, affected,
  from_meta,
}

-- How often an override lands in a WAD: by the game index, or else by its fallback.
abbrev landings : Option (List FilePath) → Option FilePath → FilePath → ℕ
landings (some wads) fallback w = times w wads
landings none none w = 0
landings none (some v) w = if v == w then 1 else 0

-- How many overrides of the mod land in a WAD.
abbrev pub tally : GameIndex → FilePath → ModMeta → ℕ
tally g w [] = 0
tally g w ((h, meta) ∷ mod_meta) =
    landings (find_wads_with_hash g h) meta.fallback_wad w + tally g w mod_meta

-- The count of a report for the text of a WAD's path, 0 if it has none.
abbrev pub count_of : Text → List AffectedWad → ℕ
count_of t [] = 0
count_of t (a ∷ wads) = if a.path == t then a.override_count else count_of t wads

abbrev Counts : Type 0
Counts = TreeMap FilePath ℕ

abbrev at : FilePath → Counts → ℕ
at w counts = or_zero (get w counts)

-- The counts hold `n`, cut to 32 bits, for `w`.
abbrev Holds : FilePath → ℕ → Counts → Type 0
Holds w n counts = at w counts ≡ n % 2 ^ 32

Holds-count_wad :
    (v w : FilePath) (n : ℕ) (counts : Counts)
    → Holds w n counts
    → Holds w (n + (if v == w then 1 else 0)) (count_wad v counts)
unfolding count_wad
Holds-count_wad v w n counts h = elim (Bool-cases (v == w)) [
  | inl t ↦
      let same = ap (λ u. at u counts) (eq→≡ v w t) in
      let now : at w (count_wad v counts) ≡ (at v counts + 1) % 2 ^ 32 =
        ap or_zero (get-insert v w ((at v counts + 1) % 2 ^ 32) counts) ∙ rw t refl in
      now ∙ rw (t, same, h) (omega arith)
  | inr f ↦
      ap or_zero (get-insert v w ((at v counts + 1) % 2 ^ 32) counts) ∙ rw (f, h) (omega arith)
]

Holds-count_wads :
    (vs : List FilePath) (w : FilePath) (n : ℕ) (counts : Counts)
    → Holds w n counts
    → Holds w (n + times w vs) (count_wads vs counts)
unfolding count_wads
Holds-count_wads [] w n counts h = h ∙ omega arith
Holds-count_wads (v ∷ vs) w n counts h =
    let more : ℕ = if v == w then 1 else 0 in
    Holds-count_wads vs w (n + more) (count_wad v counts) (Holds-count_wad v w n counts h)
    ∙ ap (λ k. k % 2 ^ 32) (ground arith)

Holds-either :
    (found : Option (List FilePath)) (fallback : Option FilePath) (w : FilePath) (n : ℕ)
    (counts : Counts)
    → Holds w n counts
    → Holds w
        (n + landings found fallback w)
        (elim found [ some wads ↦ count_wads wads counts | none ↦ count_fallback fallback counts ])
unfolding count_fallback
Holds-either (some wads) fallback w n counts h = Holds-count_wads wads w n counts h
Holds-either none none w n counts h = h ∙ omega arith
Holds-either none (some v) w n counts h = Holds-count_wad v w n counts h

Holds-count_entries :
    (g : GameIndex) (mod_meta : ModMeta) (w : FilePath) (n : ℕ) (counts : Counts)
    → Holds w n counts
    → Holds w (n + tally g w mod_meta) (count_entries g mod_meta counts)
unfolding count_entries count_entry
Holds-count_entries g [] w n counts h = h ∙ omega arith
Holds-count_entries g ((k, meta) ∷ mod_meta) w n counts h =
    let here : ℕ = landings (find_wads_with_hash g k) meta.fallback_wad w in
    Holds-count_entries g mod_meta w (n + here) _
      (Holds-either (find_wads_with_hash g k) meta.fallback_wad w n counts h)
    ∙ ap (λ k. k % 2 ^ 32) (omega arith)

-- The keys are relative paths.
abbrev RelativeKeys : Counts → Type 0
RelativeKeys = AllEntries (λ v _. IsRelative v)

count_of-affected :
    (w : FilePath) (counts : Counts)
    → IsRelative w
    → RelativeKeys counts
    → count_of (as_str w) (affected counts) ≡ at w counts
unfolding affected
count_of-affected w [] r a = refl
count_of-affected w ((v, n) ∷ counts) r (rv, a) =
    ground (arith, as_str_eq v w rv r, count_of-affected w counts r a)

insert-RelativeKeys :
    (w : FilePath) (n : ℕ) (counts : Counts)
    → IsRelative w
    → RelativeKeys counts
    → RelativeKeys (insert w n counts)
unfolding insert
insert-RelativeKeys w n [] r a = (r, tt)
insert-RelativeKeys w n ((v, m) ∷ counts) r (rv, a) =
    let rest = insert-RelativeKeys w n counts r a in
    elim (Ord.cmp list_ord w v)
      as (λ c. RelativeKeys (elim c [
        | Ordering.lt ↦ (w, n) ∷ (v, m) ∷ counts
        | Ordering.eq ↦ (w, n) ∷ counts
        | Ordering.gt ↦ (v, m) ∷ insert w n counts
      ])) [ Ordering.lt ↦ (r, (rv, a)) | Ordering.eq ↦ (r, a) | Ordering.gt ↦ (rv, rest) ]

count_wads-RelativeKeys :
    (vs : List FilePath) (counts : Counts)
    → All IsRelative vs
    → RelativeKeys counts
    → RelativeKeys (count_wads vs counts)
unfolding count_wads count_wad
count_wads-RelativeKeys [] counts h a = a
count_wads-RelativeKeys (v ∷ vs) counts (r, h) a =
    count_wads-RelativeKeys vs _ h (insert-RelativeKeys v _ counts r a)

-- The WADs an override can land in have relative paths.
abbrev Landing : Option (List FilePath) → Option FilePath → Type 0
Landing (some wads) fallback = All IsRelative wads
Landing none (some v) = IsRelative v
Landing none none = Unit {0}

abbrev LandsRelative : GameIndex → ℕ → OverrideMeta → Type 0
LandsRelative g h meta = Landing (find_wads_with_hash g h) meta.fallback_wad

either-RelativeKeys :
    (found : Option (List FilePath)) (fallback : Option FilePath) (counts : Counts)
    → Landing found fallback
    → RelativeKeys counts
    → RelativeKeys
        (elim found [ some wads ↦ count_wads wads counts | none ↦ count_fallback fallback counts ])
unfolding count_fallback count_wad
either-RelativeKeys (some wads) fallback counts h a = count_wads-RelativeKeys wads counts h a
either-RelativeKeys none none counts h a = a
either-RelativeKeys none (some v) counts h a = insert-RelativeKeys v _ counts h a

count_entries-RelativeKeys :
    (g : GameIndex) (mod_meta : ModMeta) (counts : Counts)
    → AllEntries (LandsRelative g) mod_meta
    → RelativeKeys counts
    → RelativeKeys (count_entries g mod_meta counts)
unfolding count_entries count_entry
count_entries-RelativeKeys g [] counts h a = a
count_entries-RelativeKeys g ((k, meta) ∷ mod_meta) counts (l, h) a =
    count_entries-RelativeKeys g mod_meta _ h
      (either-RelativeKeys (find_wads_with_hash g k) meta.fallback_wad counts l a)

-- Where the WADs that the overrides land in, by the game index or else by their fallback, have
-- relative paths: the report of a mod counts for each WAD with a relative path how many times its
-- overrides land in it, modulo 2 ^ 32, so 0, which is also the count of a path without an entry, if
-- none does.
pub from_meta-counts :
    (mod_id : Text) (mod_meta : ModMeta) (fingerprint : Option ℕ) (g : GameIndex) (w : FilePath)
    → AllEntries (LandsRelative g) mod_meta
    → IsRelative w
    → count_of (as_str w) (from_meta mod_id mod_meta fingerprint g).affected_wads
      ≡ tally g w mod_meta % 2 ^ 32
unfolding from_meta
from_meta-counts mod_id mod_meta fingerprint g w h r =
    let counts = count_entries-RelativeKeys g mod_meta [] h tt in
    count_of-affected w _ r counts
    ∙ Holds-count_entries g mod_meta w 0 [] (omega arith)
    ∙ omega arith
