-- ===== src/Overlay/Merge/Priority.antt =====
-- The first enabled mod that overrides a chunk wins.
use mathlib.Core.List.{reverse-cons}
use league_mod.Prelude.{
  ℕ, ◌≡◌, refl, ap, ◌∙◌, subst, Option, none, some, List, [], ◌∷◌, ◌++◌, All, if◌then◌else◌, ◌==◌,
  eq→≡, nat_ord, Bool-cases, inl, inr, reverse,
}
use league_mod.Prelude.Assoc.{get, Distinct}
use league_mod.Prelude.HashMap.{insert, get-insert}
use league_mod.Overlay.Types.{OverrideMeta}
use league_mod.Overlay.Collect.{ModMeta}
use league_mod.Overlay.Merge.{insert_all, merge_from, merge_mods}

abbrev or_before : Option OverrideMeta → Option OverrideMeta → Option OverrideMeta
or_before none old = old
or_before (some meta) old = some meta

-- The metadata of the first mod of the list that has any for the hash.
abbrev pub first_of : List ModMeta → ℕ → Option OverrideMeta
first_of [] h = none
first_of (m ∷ mods) h = or_before (get h m) (first_of mods h)

get-insert_all :
    (m acc : ModMeta) (j : ℕ)
    → Distinct m
    → get j (insert_all m acc) ≡ or_before (get j m) (get j acc)
unfolding insert_all
get-insert_all [] acc j d = refl
get-insert_all ((h, meta) ∷ m) acc j d =
    get-insert_all m (insert h meta acc) j d.1
    ∙ ap (or_before (get j m)) (get-insert h j meta acc)
    ∙ step (get j m) λ e. subst (λ u. get u m ≡ none) e d.0
  where
    step :
        (rest : Option OverrideMeta)
        → (h ≡ j → rest ≡ none)
        → or_before rest (if h == j then some meta else get j acc)
          ≡ or_before (if h == j then some meta else rest) (get j acc)
    step none fresh = elim (Bool-cases (h == j)) [ inl t ↦ rw t | inr t ↦ rw t ]
    step (some old) fresh = elim (Bool-cases (h == j)) [
      | inl t ↦ cc (fresh (eq→≡ h j t))
      | inr t ↦ rw t
    ]

merge_from-append :
    (ms ns : List ModMeta) (acc : ModMeta)
    → merge_from (ms ++ ns) acc ≡ merge_from ns (merge_from ms acc)
unfolding merge_from
merge_from-append [] ns acc = refl
merge_from-append (m ∷ ms) ns acc = merge_from-append ms ns (insert_all m acc)

-- If no mod's map has a hash twice, the merged metadata has for each hash the metadata of the first
-- enabled mod that has any, whatever the orders in which the maps are iterated.
pub merge_first_wins :
    (mods : List ModMeta) (h : ℕ) → All Distinct mods → get h (merge_mods mods) ≡ first_of mods h
unfolding merge_mods
merge_first_wins [] h d = refl
merge_first_wins (m ∷ mods) h d =
    ap (λ (l : List ModMeta). get h (merge_from l [])) (reverse-cons m mods)
    ∙ ap (get h) (merge_from-append (reverse mods) (m ∷ []) [])
    ∙ get-insert_all m (merge_from (reverse mods) []) h d.0
    ∙ ap (or_before (get h m)) (merge_first_wins mods h d.1)
