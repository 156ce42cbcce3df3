-- ===== src/Overlay/Builder/Rebuild.antt =====
-- A forced rebuild relies on nothing that earlier builds left.
use league_mod.Prelude.{◌≡◌, true}
use league_mod.Prelude.Outcome.{ok}
use league_mod.Overlay.State.{absent}
use league_mod.Overlay.GameIndex.{GameIndex}
use league_mod.Overlay.World.{World, clean_overlay_wads}
use league_mod.Overlay.Builder.{OverlayBuilder, OverlayBuildResult, rebuild_all}
use league_mod.Overlay.Builder.Settled.{AreSound}
use league_mod.Overlay.Builder.Invariant.{IsDescribed, build_describes}

-- Where the game directory is there and indexed, the routed WADs have relative paths and no mod
-- file changes between the passes: a forced rebuild that succeeds leaves a saved state that
-- describes the overlay directory, whatever the state file and the overlay directory held before.
pub rebuild_describes :
    (b : OverlayBuilder) (g : GameIndex) (w : World) (r : OverlayBuildResult)
    → b.has_data_final ≡ true
    → b.game_index ≡ ok g
    → AreSound b g w
    → (rebuild_all b w).0 ≡ ok r
    → IsDescribed b g (rebuild_all b w).1
unfolding rebuild_all clean_overlay_wads
rebuild_describes b g w r has at_g sound e =
    build_describes b g (clean_overlay_wads (record w { state_file = absent })) r has at_g sound
      (λ s at f. cc at) e
