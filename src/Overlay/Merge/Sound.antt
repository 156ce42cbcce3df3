-- ===== src/Overlay/Merge/Sound.antt =====
-- The merge and the filter keep a predicate of every override, and no hash twice.
use league_mod.Prelude.{ℕ, Bool, List, [], ◌∷◌, All, Bool-cases, inl, inr, nat_ord, list_ord}
use league_mod.Prelude.Assoc
use league_mod.Prelude.Assoc.{get, is_some, retain, retain-Distinct, AllEntries, entry_of}
use league_mod.Prelude.HashMap.{HashMap, insert, insert-Distinct, insert-AllEntries}
use league_mod.Overlay.Types.{OverrideMeta}
use league_mod.Overlay.GameIndex.{GameIndex}
use league_mod.Overlay.Collect.{ModMeta}
use league_mod.Overlay.Merge.{insert_all, merge_from, filter_override_metadata}

module _ (P : OverrideMeta → Type 0) where
  abbrev pub Entries : ModMeta → Type 0
  Entries mod_meta = AllEntries (λ _ meta. P meta) mod_meta

  abbrev pub Sound : ModMeta → Type 0
  Sound mod_meta = Assoc.Distinct mod_meta × Entries mod_meta

  insert_all-Sound :
      (mod_meta all_meta : ModMeta)
      → Entries mod_meta
      → Sound all_meta
      → Sound (insert_all mod_meta all_meta)
  unfolding insert_all
  insert_all-Sound [] all_meta a s = s
  insert_all-Sound ((h, meta) ∷ mod_meta) all_meta (p, a) (d, b) =
      insert_all-Sound mod_meta (insert h meta all_meta) a
        (insert-Distinct h meta all_meta d, insert-AllEntries (λ _ x. P x) h meta all_meta p b)

  pub merge_from-Sound :
      (results : List ModMeta) (all_meta : ModMeta)
      → All Entries results
      → Sound all_meta
      → Sound (merge_from results all_meta)
  unfolding merge_from
  merge_from-Sound [] all_meta a s = s
  merge_from-Sound (mod_meta ∷ results) all_meta (p, a) s =
      merge_from-Sound results _ a (insert_all-Sound mod_meta all_meta p s)

  retain-Entries :
      (keep : ℕ → OverrideMeta → Bool) (mod_meta : ModMeta)
      → Entries mod_meta
      → Entries (retain keep mod_meta)
  retain-Entries keep [] a = tt
  retain-Entries keep ((h, meta) ∷ mod_meta) (p, a) = elim (Bool-cases (keep h meta)) [
    | inl t ↦ rw t (p, retain-Entries keep mod_meta a)
    | inr t ↦ rw t (retain-Entries keep mod_meta a)
  ]

  pub filter-Sound :
      (g : GameIndex) (content_hashes : List ℕ → HashMap ℕ ℕ) (all_meta : ModMeta)
      → Sound all_meta
      → Sound (filter_override_metadata g content_hashes all_meta)
  unfolding filter_override_metadata
  filter-Sound g content_hashes all_meta (d, a) = (
    retain-Distinct _ _ (retain-Distinct _ all_meta d),
    retain-Entries _ _ (retain-Entries _ all_meta a),
  )
