-- ===== src/Overlay/Distribute/Routes.antt =====
-- Where `distribute_override_hashes` sends each override.
use league_mod.Prelude.{
  ℕ, ◌≡◌, refl, sym, ap, ◌∙◌, ◌↔◌, ◌⊎◌, inl, inr, Bool, true, false, ◌||◌, ◌&&◌, Option, none, some,
  List, [], ◌∷◌, arith, if◌then◌else◌, ◌==◌, eq_iff, nat_ord, list_ord, Option-cases, Bool-cases,
  eq→≡, eq_refl,
}
use league_mod.Prelude.Assoc
use league_mod.Prelude.Assoc.{get, is_some}
use league_mod.Prelude.HashMap.{HashMap}
use league_mod.Prelude.HashSet.{contains, contains-insert}
use league_mod.Prelude.TreeMap.{get-insert}
use league_mod.Overlay.FilePath.{FilePath}
use league_mod.Overlay.Types.{OverrideMeta}
use league_mod.Overlay.GameIndex.{GameIndex, or_nil, find_wads_with_hash}
use league_mod.Overlay.Distribute.{
  WadHashes, add_hash, add_to_all, add_fallback, distribute_entry, distribute_from,
  distribute_override_hashes,
}

-- Whether the WAD's set has the hash.
abbrev pub has : ℕ → FilePath → WadHashes → Bool
has h w sets = contains h (or_nil (get w sets))

has-add_hash :
    (h j : ℕ) (v w : FilePath) (sets : WadHashes)
    → has j w (add_hash h v sets) ≡ has j w sets || (v == w && h == j)
unfolding add_hash
has-add_hash h j v w sets =
    ap (λ (o : Option (List ℕ)). contains j (or_nil o)) (get-insert v w _ sets)
    ∙ ground (arith, eq_iff v w, contains-insert h j (or_nil (get v sets)))

has-add_to_all :
    (h j : ℕ) (vs : List FilePath) (w : FilePath) (sets : WadHashes)
    → has j w (add_to_all h vs sets) ≡ has j w sets || (contains w vs && h == j)
unfolding add_to_all
has-add_to_all h j [] w sets = ground arith
has-add_to_all h j (v ∷ vs) w sets =
    ground (arith, has-add_to_all h j vs w (add_hash h v sets), has-add_hash h j v w sets)

-- The WADs of one override: those of the game that hold its hash, or else its fallback.
abbrev goes_to : Option (List FilePath) → Option FilePath → FilePath → Bool
goes_to (some wads) fallback w = contains w wads
goes_to none none w = false
goes_to none (some v) w = v == w

has-either :
    (h j : ℕ) (found : Option (List FilePath)) (fallback : Option FilePath) (w : FilePath)
    (sets : WadHashes)
    → has j w
        (elim found [ some wads ↦ add_to_all h wads sets | none ↦ add_fallback h fallback sets ])
      ≡ has j w sets || (goes_to found fallback w && h == j)
unfolding add_fallback
has-either h j (some wads) fallback w sets = has-add_to_all h j wads w sets
has-either h j none none w sets = ground arith
has-either h j none (some v) w sets = has-add_hash h j v w sets

has-distribute_entry :
    (g : GameIndex) (h j : ℕ) (meta : OverrideMeta) (w : FilePath) (sets : WadHashes)
    → has j w (distribute_entry g h meta sets)
      ≡ has j w sets || (goes_to (find_wads_with_hash g h) meta.fallback_wad w && h == j)
unfolding distribute_entry
has-distribute_entry g h j meta w sets =
    has-either h j (find_wads_with_hash g h) meta.fallback_wad w sets

abbrev routed : GameIndex → ℕ → FilePath → Option OverrideMeta → Bool
routed g h w none = false
routed g h w (some meta) = goes_to (find_wads_with_hash g h) meta.fallback_wad w

lookup_same : (h j : ℕ) (m : HashMap ℕ OverrideMeta) → h ≡ j → get h m ≡ none → get j m ≡ none
lookup_same h j m e d = rw (← e) d

routed_step :
    (g : GameIndex) (h j : ℕ) (w : FilePath) (meta : OverrideMeta) (rest : Option OverrideMeta)
    (old : Bool)
    → (h ≡ j → rest ≡ none)
    → (old || (goes_to (find_wads_with_hash g h) meta.fallback_wad w && h == j))
        || routed g j w rest
      ≡ old || routed g j w (if h == j then some meta else rest)
routed_step g h j w meta none old fresh = elim (Bool-cases (h == j)) [
  | inl e ↦ let same : h ≡ j = eq→≡ h j e in rw (← same, eq_refl h) (ground arith)
  | inr e ↦ rw e (ground arith)
]
routed_step g h j w meta (some other) old fresh = elim (Bool-cases (h == j)) [
  | inl e ↦ cc (fresh (eq→≡ h j e))
  | inr e ↦ rw e (ground arith)
]

has-distribute_from :
    (g : GameIndex) (j : ℕ) (w : FilePath) (all_meta : HashMap ℕ OverrideMeta) (sets : WadHashes)
    → Assoc.Distinct all_meta
    → has j w (distribute_from g all_meta sets) ≡ has j w sets || routed g j w (get j all_meta)
unfolding distribute_from
has-distribute_from g j w [] sets d = ground arith
has-distribute_from g j w ((h, meta) ∷ all_meta) sets d =
    has-distribute_from g j w all_meta (distribute_entry g h meta sets) d.1
    ∙ ground (
      arith,
      has-distribute_entry g h j meta w sets,
      routed_step g h j w meta (get j all_meta) (has j w sets),
      lookup_same h j all_meta,
    )

-- A hash with the metadata `meta` belongs to the WAD `w`: `w` is one of the game's WADs that hold
-- it, or no WAD of the game does and `w` is the override's fallback.
abbrev pub BelongsTo : GameIndex → ℕ → OverrideMeta → FilePath → Type 0
BelongsTo g h meta w =
    ((wads : List FilePath) × (find_wads_with_hash g h ≡ some wads) × (contains w wads ≡ true))
    ⊎ ((find_wads_with_hash g h ≡ none) × (meta.fallback_wad ≡ some w))

goes_to-BelongsTo :
    (g : GameIndex) (h : ℕ) (meta : OverrideMeta) (w : FilePath)
    → (found : Option (List FilePath)) → find_wads_with_hash g h ≡ found
    → (fallback : Option FilePath) → meta.fallback_wad ≡ fallback
    → (goes_to found fallback w ≡ true) ↔ BelongsTo g h meta w
goes_to-BelongsTo g h meta w (some wads) e fallback f = (
  λ t. inl (wads, e, t),
  λ b. elim b [ inl (ws, e', c) ↦ ground (arith, e, e', c) | inr (e', _) ↦ cc (e, e') ],
)
goes_to-BelongsTo g h meta w none e none f =
    (λ t. cc, λ b. elim b [ inl (ws, e', c) ↦ cc (e, e') | inr (_, f') ↦ cc (f, f') ])
goes_to-BelongsTo g h meta w none e (some v) f = (
  λ t. inr (e, f ∙ ap some (eq→≡ v w t)),
  λ b. elim b [
    | inl (ws, e', c) ↦ cc (e, e')
    | inr (_, f') ↦ let same : v ≡ w = cc (f, f') in (eq_iff v w).1 same
  ],
)

-- For metadata with no hash twice: the set of a WAD holds exactly the hashes with metadata that the
-- game index has in that WAD, or has in no WAD and whose fallback is that WAD.
pub distribute_routes :
    (g : GameIndex) (all_meta : HashMap ℕ OverrideMeta) (h : ℕ) (w : FilePath)
    → Assoc.Distinct all_meta
    → (has h w (distribute_override_hashes g all_meta) ≡ true)
      ↔ ((meta : OverrideMeta) × (get h all_meta ≡ some meta) × BelongsTo g h meta w)
unfolding distribute_override_hashes
distribute_routes g all_meta h w d = (
  λ t. elim (Option-cases (get h all_meta)) [
    | inl e ↦ cc (t, total, ap (routed g h w) e)
    | inr (meta, e) ↦ (
      meta,
      e,
      (goes_to-BelongsTo g h meta w _ refl _ refl).0 (sym (ap (routed g h w) e) ∙ sym total ∙ t),
    )
  ],
  λ r. total ∙ ap (routed g h w) r.1 ∙ (goes_to-BelongsTo g h r.0 w _ refl _ refl).1 r.2,
)
  where
    total : has h w (distribute_from g all_meta []) ≡ routed g h w (get h all_meta)
    total = has-distribute_from g h w all_meta [] d
