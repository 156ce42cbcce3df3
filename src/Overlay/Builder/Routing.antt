-- ===== src/Overlay/Builder/Routing.antt =====
-- Which overrides a build writes to which WAD.
use league_mod.Prelude.{
  ℕ, ◌≡◌, ◌↔◌, refl, sym, ap, ◌∙◌, Bool, true, false, Option, some, List, if◌then◌else◌, Bool-cases,
  inl, inr, nat_ord, list_ord, subst,
}
use league_mod.Prelude.Assoc.{get}
use league_mod.Prelude.HashSet.{contains}
use league_mod.Prelude.Outcome.{ok}
use league_mod.Overlay.FilePath.{FilePath}
use league_mod.Overlay.Types.{OverrideMeta}
use league_mod.Overlay.GameIndex.{GameIndex, or_nil}
use league_mod.Overlay.Distribute.{distribute_override_hashes, is_wad_blocked}
use league_mod.Overlay.Distribute.Routes.{has, BelongsTo, distribute_routes}
use league_mod.Overlay.Distribute.WellFormed.{distribute-IsRouting, get-remove_blocked}
use league_mod.Overlay.AllMods.{AllMeta}
use league_mod.Overlay.AllMods.Known.{collected-Distinct}
use league_mod.Overlay.World.{World}
use league_mod.Overlay.Builder.{OverlayBuilder, routing}
use league_mod.Overlay.Builder.Settled.{collected}

not_both : false ≡ true → ⊥
not_both s = cc s

unless_blocked :
    (c x : Bool) {P : Type 0}
    → (x ≡ true) ↔ P
    → ((if c then false else x) ≡ true) ↔ ((c ≡ false) × P)
unless_blocked true x i = (λ s. absurd (not_both s), λ r. sym r.0)
unless_blocked false x i = (λ s. (refl, i.0 s), λ r. i.1 r.1)

module _ (b : OverlayBuilder) (g : GameIndex) (m : AllMeta) (h : ℕ) (v : FilePath) where
  has-routing : has h v (routing b g m) ≡ (
      if is_wad_blocked b.blocked_wads v
      then false
      else has h v (distribute_override_hashes g m.all_meta))
  unfolding routing
  has-routing =
      ap (λ (o : Option (List ℕ)). contains h (or_nil o))
        (get-remove_blocked b.blocked_wads v (distribute_override_hashes g m.all_meta)
          (distribute-IsRouting g m.all_meta))
      ∙ elim (Bool-cases (is_wad_blocked b.blocked_wads v)) [
        | inl t ↦ rw t refl
        | inr t ↦ rw t refl
      ]

  -- The WAD is not blocked, and the hash has metadata and belongs to it.
  abbrev pub IsRouted : Type 0
  IsRouted =
      (is_wad_blocked b.blocked_wads v ≡ false)
      × ((meta : OverrideMeta) × (get h m.all_meta ≡ some meta) × BelongsTo g h meta v)

  -- For metadata that pass 1 leaves: a build routes a hash to a WAD exactly if the WAD is not
  -- blocked, and the hash has metadata and is, in the game index, in that WAD, or in no WAD and has
  -- that WAD as its fallback.
  pub routing_exact :
      (w : World) → collected b g w ≡ ok m → (has h v (routing b g m) ≡ true) ↔ IsRouted
  routing_exact w at =
      let routes = distribute_routes g m.all_meta h v (
        collected-Distinct b.externals b.enabled_mods g b.game_dir b.content_hashes w.cache_file m
          at) in
      subst (λ x. (x ≡ true) ↔ IsRouted) (sym has-routing)
        (unless_blocked (is_wad_blocked b.blocked_wads v)
          (has h v (distribute_override_hashes g m.all_meta)) routes)
