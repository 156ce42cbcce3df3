-- ===== src/Overlay/Merge/Filter.antt =====
-- What the filter leaves.
use league_mod.Prelude.{
  ℕ, ◌≡◌, sym, ap, ◌∙◌, ◌≢◌, ◌↔◌, false, not, Option, none, some, List, arith, if◌then◌else◌,
  nat_ord, eq_refl, Option-cases, inl, inr,
}
use league_mod.Prelude.Assoc.{get, keys, Distinct, retain, get-retain, retain-Distinct}
use league_mod.Prelude.HashMap.{HashMap}
use league_mod.Prelude.HashSet.{contains}
use league_mod.Overlay.Types.{OverrideMeta}
use league_mod.Overlay.GameIndex.{GameIndex}
use league_mod.Overlay.Collect.{ModMeta}
use league_mod.Overlay.Merge.{filter_override_metadata, is_lazy}

abbrev pub unblocked : GameIndex → ModMeta → ModMeta
unblocked g = retain (λ h _. not (contains h g.subchunktoc_blocked))

-- The original contents that the filter asks the game index for: of every hash that is left.
abbrev pub originals : GameIndex → (List ℕ → HashMap ℕ ℕ) → ModMeta → HashMap ℕ ℕ
originals g content_hashes all_meta = content_hashes (keys (unblocked g all_meta))

keep_blocked : GameIndex → ℕ → Option OverrideMeta → Option OverrideMeta
keep_blocked g h none = none
keep_blocked g h (some meta) = if not (contains h g.subchunktoc_blocked) then some meta else none

keep_lazy : HashMap ℕ ℕ → ℕ → Option OverrideMeta → Option OverrideMeta
keep_lazy hashes h none = none
keep_lazy hashes h (some meta) = if not (is_lazy hashes h meta) then some meta else none

get-filter :
    (g : GameIndex) (content_hashes : List ℕ → HashMap ℕ ℕ) (all_meta : ModMeta) (h : ℕ)
    → Distinct all_meta
    → get h (filter_override_metadata g content_hashes all_meta)
      ≡ keep_lazy (originals g content_hashes all_meta) h (keep_blocked g h (get h all_meta))
unfolding filter_override_metadata keep_lazy keep_blocked
get-filter g content_hashes all_meta h d =
    get-retain (λ h meta. not (is_lazy (originals g content_hashes all_meta) h meta)) h
      (unblocked g all_meta) (retain-Distinct _ all_meta d)
    ∙ ap (keep_lazy (originals g content_hashes all_meta) h)
        (get-retain (λ h _. not (contains h g.subchunktoc_blocked)) h all_meta d ∙ ground arith)

abbrev IsKept : GameIndex → HashMap ℕ ℕ → ℕ → OverrideMeta → Type 0
IsKept g hashes h meta =
    (contains h g.subchunktoc_blocked ≡ false) × (get h hashes ≢ some meta.content_hash)

not_lazy :
    (hashes : HashMap ℕ ℕ) (h : ℕ) (meta : OverrideMeta)
    → is_lazy hashes h meta ≡ false
    → get h hashes ≢ some meta.content_hash
unfolding is_lazy
not_lazy hashes h meta e k = ground (arith, eq_refl meta.content_hash)

lazy_not :
    (hashes : HashMap ℕ ℕ) (h : ℕ) (meta : OverrideMeta)
    → get h hashes ≢ some meta.content_hash
    → is_lazy hashes h meta ≡ false
unfolding is_lazy
lazy_not hashes h meta n = elim (Option-cases (get h hashes)) [
  | inl e ↦ rw (e, is_lazy)
  | inr (o, e) ↦ rw (e, is_lazy) (ground arith)
]

kept→IsKept :
    (g : GameIndex) (hashes : HashMap ℕ ℕ) (h : ℕ) (o : Option OverrideMeta) (meta : OverrideMeta)
    → keep_lazy hashes h (keep_blocked g h o) ≡ some meta
    → (o ≡ some meta) × IsKept g hashes h meta
unfolding keep_lazy keep_blocked
kept→IsKept g hashes h none meta k = cc
kept→IsKept g hashes h (some m) meta k = ground (arith, not_lazy hashes h m)

IsKept→kept :
    (g : GameIndex) (hashes : HashMap ℕ ℕ) (h : ℕ) (o : Option OverrideMeta) (meta : OverrideMeta)
    → o ≡ some meta
    → IsKept g hashes h meta
    → keep_lazy hashes h (keep_blocked g h o) ≡ some meta
unfolding keep_lazy keep_blocked
IsKept→kept g hashes h o meta e (b, n) = rw (e, b, lazy_not hashes h meta n)

-- For metadata with no hash twice: the filter leaves an override exactly if its hash is not one of
-- the blocked subchunk tables and its content hash is not that of the game's original, of those
-- that are not blocked.
pub filter-eq-some_iff :
    (g : GameIndex) (content_hashes : List ℕ → HashMap ℕ ℕ) (all_meta : ModMeta) (h : ℕ)
    (meta : OverrideMeta)
    → Distinct all_meta
    → (get h (filter_override_metadata g content_hashes all_meta) ≡ some meta) ↔ (
        (get h all_meta ≡ some meta)
        × (contains h g.subchunktoc_blocked ≡ false)
        × (get h (originals g content_hashes all_meta) ≢ some meta.content_hash))
filter-eq-some_iff g content_hashes all_meta h meta d = (
  λ e.
      let (at_h, kept) =
        kept→IsKept g (originals g content_hashes all_meta) h (get h all_meta) meta
          (sym (get-filter g content_hashes all_meta h d) ∙ e) in
      (at_h, kept.0, kept.1),
  λ k.
      get-filter g content_hashes all_meta h d
      ∙ IsKept→kept g (originals g content_hashes all_meta) h (get h all_meta) meta k.0 (k.1, k.2),
)
