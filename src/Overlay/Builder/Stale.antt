-- ===== src/Overlay/Builder/Stale.antt =====
-- `clean_stale_wads` removes the WADs that lost their last override, and no other file.
use league_mod.Prelude.{
  ℕ, ◌≡◌, refl, sym, ◌∙◌, ◌&&◌, not, true, none, List, [], ◌∷◌, Text, arith, All, if◌then◌else◌,
  ◌==◌, eq→≡, nat_ord, list_ord,
}
use league_mod.Prelude.Assoc.{get, contains_key, keys, remove, get-remove}
use league_mod.Prelude.HashSet.{contains}
use league_mod.Prelude.TreeMap.{TreeMap}
use league_mod.Overlay.FilePath.{FilePath, IsRelative, as_str, from, from-as_str}
use league_mod.Overlay.State.{OverlayState}
use league_mod.Overlay.Partition.Keys.{IsKey, AllKeys, as_str_eq}
use league_mod.Overlay.World.{World}
use league_mod.Overlay.Builder.{remove_stale, clean_stale_wads}

keys-IsKey : (fps : TreeMap Text ℕ) → AllKeys fps → All IsKey (keys fps)
keys-IsKey [] a = tt
keys-IsKey ((k, fp) ∷ fps) a = (a.0, keys-IsKey fps a.1)

key_eq_path : (k : Text) (v : FilePath) → IsKey k → IsRelative v → (from k == v) ≡ (k == as_str v)
key_eq_path k v (u, r, e) rv = rw (e, from-as_str u r) (sym (as_str_eq u v r rv))

same_key :
    (k l : Text) (fps : TreeMap Text ℕ) → (k == l) ≡ true → contains_key k fps ≡ contains_key l fps
same_key k l fps t = rw (eq→≡ k l t) refl

module _ (new_fps : TreeMap Text ℕ) (v : FilePath) (at_v : IsRelative v) where
  after_one :
      (old : Text) (w : World)
      → IsKey old
      → get v
          (if contains_key old new_fps
            then w
            else record w { overlay = remove (from old) w.overlay }).overlay
        ≡ (if old == as_str v && not (contains_key (as_str v) new_fps)
            then none
            else get v w.overlay)
  after_one old w i = ground (
    arith,
    key_eq_path old v i at_v,
    same_key old (as_str v) new_fps,
    get-remove (from old) v w.overlay,
  )

  get-remove_stale :
      (olds : List Text) (w : World)
      → All IsKey olds
      → get v (remove_stale new_fps olds w).overlay ≡ (
          if contains (as_str v) olds && not (contains_key (as_str v) new_fps)
          then none
          else get v w.overlay)
  unfolding remove_stale
  get-remove_stale [] w a = refl
  get-remove_stale (old ∷ olds) w a =
      get-remove_stale olds _ a.1 ∙ ground (arith, after_one old w a.0)

-- Where the keys of the previous state are texts of relative paths: after the cleanup the file at a
-- relative path is gone if the previous state records the path and the new one does not, and is as
-- it was otherwise.
pub get-clean_stale_wads :
    (s : OverlayState) (new_fps : TreeMap Text ℕ) (v : FilePath) (w : World)
    → IsRelative v
    → AllKeys s.wad_fingerprints
    → get v (clean_stale_wads s new_fps w).overlay ≡ (
        if contains (as_str v) (keys s.wad_fingerprints) && not (contains_key (as_str v) new_fps)
        then none
        else get v w.overlay)
unfolding clean_stale_wads
get-clean_stale_wads s new_fps v w r a = get-remove_stale new_fps v r _ w (keys-IsKey _ a)
