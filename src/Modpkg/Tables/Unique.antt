-- ===== src/Modpkg/Tables/Unique.antt =====
-- The tables that collect each path, layer and WAD once.
use league_mod.Prelude.{
  ℕ, ◌+◌, ◌%◌, ◌^◌, ◌<◌, ◌≤◌, inl, inr, Bool-cases, List, [], ◌∷◌, ◌++◌, Text, arith, length,
  length-append, All, if◌then◌else◌, nat_ord,
}
use league_mod.Prelude.Assoc.{contains_key, AllEntries}
use league_mod.Prelude.HashMap.{insert-AllEntries}
use league_mod.Overlay.Externals.{Externals}
use league_mod.Overlay.FilePath.{is_empty}
use league_mod.Modpkg.Names.{hash_wad_name}
use league_mod.Modpkg.Builder.{ModpkgChunkBuilder, ModpkgBuilder}
use league_mod.Modpkg.Tables.{
  Unique, add_unique, unique_paths, collect_unique_paths, unique_wads, collect_unique_wads,
  all_builders,
}

-- All indices fit 32 bits, and the texts satisfy `P`.
pub record IsTable (P : Text → Type 0) (bound : ℕ) (u : Unique) : Type 0 where
  pub indices_fit : AllEntries (λ h i. i < 2 ^ 32) u.1
  pub texts_fit : All P u.0
  pub few : length u.0 ≤ bound

All-snoc :
    (P : Text → Type 0) (t : Text) (texts : List Text)
    → All P texts
    → P t
    → All P (texts ++ (t ∷ []))
All-snoc P t [] a p = (p, tt)
All-snoc P t (u ∷ texts) a p = (a.0, All-snoc P t texts a.1 p)

add_unique-IsTable :
    (P : Text → Type 0) (bound hash : ℕ) (t : Text) (u : Unique)
    → P t
    → IsTable P bound u
    → IsTable P (bound + 1) (add_unique hash t u)
unfolding add_unique
add_unique-IsTable P bound hash t (texts, indices) p v =
    elim (Bool-cases (contains_key hash indices)) [
      | inl old ↦ rw old (record {
        indices_fit = v.indices_fit;
        texts_fit = v.texts_fit;
        few = omega (arith, v.few);
      })
      | inr new ↦ rw new (record {
        indices_fit =
            insert-AllEntries (λ h i. i < 2 ^ 32) hash (length texts % 2 ^ 32) indices (omega arith)
              v.indices_fit;
        texts_fit = All-snoc P t texts v.texts_fit p;
        few = omega (arith, length-append texts (t ∷ []), v.few);
      })
    ]

weaken : (P : Text → Type 0) (b c : ℕ) (u : Unique) → b ≤ c → IsTable P b u → IsTable P c u
weaken P b c u h v = record {
  indices_fit = v.indices_fit;
  texts_fit = v.texts_fit;
  few = omega (arith, v.few);
}

unique_paths-IsTable :
    (P : Text → Type 0) (bound : ℕ) (chunks : List ModpkgChunkBuilder) (u : Unique)
    → All (λ c. P c.path) chunks
    → IsTable P bound u
    → IsTable P (bound + length chunks) (unique_paths chunks u)
unfolding unique_paths
unique_paths-IsTable P bound [] u a v = weaken P bound _ u (omega arith) v
unique_paths-IsTable P bound (c ∷ chunks) u a v =
    weaken P (bound + 1 + length chunks) _ _ (omega arith) (
      unique_paths-IsTable P (bound + 1) chunks (add_unique c.path_hash c.path u) a.1
        (add_unique-IsTable P bound c.path_hash c.path u a.0 v))

pub collect_unique_paths-IsTable :
    (P : Text → Type 0) (b : ModpkgBuilder)
    → All (λ c. P c.path) (all_builders b)
    → IsTable P (length (all_builders b)) (collect_unique_paths b)
unfolding collect_unique_paths
collect_unique_paths-IsTable P b a = weaken P (0 + length (all_builders b)) _ _ (omega arith) (
    unique_paths-IsTable P 0 (all_builders b) ([], []) a
      (record { indices_fit = tt; texts_fit = tt; few = omega arith }))

module _ (e : Externals) where
  unique_wads-IsTable :
      (P : Text → Type 0) (bound : ℕ) (chunks : List ModpkgChunkBuilder) (u : Unique)
      → All (λ c. P c.wad) chunks
      → IsTable P bound u
      → IsTable P (bound + length chunks) (unique_wads e chunks u)
  unfolding unique_wads
  unique_wads-IsTable P bound [] u a v = weaken P bound _ u (omega arith) v
  unique_wads-IsTable P bound (c ∷ chunks) u a v =
      let more : ℕ = bound + 1 in
      let step : IsTable P more
          (if is_empty c.wad then u else add_unique (hash_wad_name e c.wad) c.wad u) =
        elim (Bool-cases (is_empty c.wad)) [
          | inl t ↦ rw t (weaken P bound more u (omega arith) v)
          | inr t ↦ rw t (add_unique-IsTable P bound (hash_wad_name e c.wad) c.wad u a.0 v)
        ] in
      weaken P (more + length chunks) _ _ (omega arith)
        (unique_wads-IsTable P more chunks _ a.1 step)

  pub collect_unique_wads-IsTable :
      (P : Text → Type 0) (b : ModpkgBuilder)
      → All (λ c. P c.wad) (all_builders b)
      → IsTable P (length (all_builders b)) (collect_unique_wads e b)
  unfolding collect_unique_wads
  collect_unique_wads-IsTable P b a = weaken P (0 + length (all_builders b)) _ _ (omega arith) (
      unique_wads-IsTable P 0 (all_builders b) ([], []) a
        (record { indices_fit = tt; texts_fit = tt; few = omega arith }))
