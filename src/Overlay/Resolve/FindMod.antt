-- ===== src/Overlay/Resolve/FindMod.antt =====
-- The provider of a mod is found exactly by the ids of the enabled mods.
use league_mod.Prelude.{
  ℕ, zero, suc, ◌+◌, ◌<◌, ◌≤◌, ◌≡◌, refl, true, ◌||◌, some, Option-cases, List, [], ◌∷◌, Text,
  arith, map, length, get_elem?, inl, inr, nat_ord, list_ord,
}
use league_mod.Prelude.Assoc.{get, is_some, AllEntries, entry_of}
use league_mod.Prelude.HashMap.{HashMap, get-insert, insert-AllEntries}
use league_mod.Prelude.HashSet.{contains}
use league_mod.Overlay.Content.{EnabledMod}
use league_mod.Overlay.Resolve.{mod_id_to_index, find_mod}

abbrev ids : List EnabledMod → List Text
ids mods = map (λ m. m.id) mods

module _ (n : ℕ) where
  abbrev Below : Text → ℕ → Type 0
  Below id i = i < n

  index-Below :
      (i : ℕ) (mods : List EnabledMod) (index : HashMap Text ℕ)
      → i + length mods ≤ n
      → AllEntries Below index
      → AllEntries Below (mod_id_to_index i mods index)
  unfolding mod_id_to_index
  index-Below i [] index h a = a
  index-Below i (m ∷ mods) index h a =
      index-Below (suc i) mods _ (omega arith)
        (insert-AllEntries Below m.id i index (omega arith) a)

index-has :
    (id : Text) (i : ℕ) (mods : List EnabledMod) (index : HashMap Text ℕ)
    → contains id (ids mods) || is_some (get id index) ≡ true
    → is_some (get id (mod_id_to_index i mods index)) ≡ true
unfolding mod_id_to_index
index-has id i [] index c = ground arith
index-has id i (m ∷ mods) index c =
    index-has id (suc i) mods _ (ground (arith, get-insert m.id id i index))

get_elem-some :
    (mods : List EnabledMod) (i : ℕ)
    → i < length mods
    → (m : EnabledMod) × (get_elem? mods i ≡ some m)
get_elem-some [] i h = absurd (omega arith)
get_elem-some (m ∷ mods) zero h = (m, refl)
get_elem-some (m ∷ mods) (suc i) h = get_elem-some mods i (omega arith)

pub find_mod-some :
    (mods : List EnabledMod) (id : Text)
    → contains id (ids mods) ≡ true
    → (m : EnabledMod) × (find_mod mods id ≡ some m)
unfolding find_mod
find_mod-some mods id c = elim (Option-cases (get id (mod_id_to_index 0 mods []))) [
  | inl e ↦
      let there = index-has id 0 mods [] (ground arith) in let no : ⊥ = ground arith in absurd no
  | inr (i, e) ↦
      let (m, at) = get_elem-some mods i (
        entry_of (Below (length mods)) id i _ (index-Below (length mods) 0 mods [] (omega arith) tt)
          e) in
      (m, rw (e, find_mod) at)
]
