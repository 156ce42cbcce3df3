-- ===== src/Modpkg/Tables/Validate.antt =====
-- When the layers of a builder are valid.
use league_mod.Prelude.{
  ℕ, ◌≡◌, refl, ◌⊎◌, inl, inr, true, Bool-cases, List, [], ◌∷◌, ◌++◌, Text, arith, All, nat_ord,
  list_ord, pair_ord,
}
use league_mod.Prelude.Assoc.{contains_key}
use league_mod.Prelude.Outcome.{ok}
use league_mod.Overlay.Externals.{Externals}
use league_mod.Overlay.FilePath.{is_empty}
use league_mod.Modpkg.Types.{ModpkgLayer, base_layer_name}
use league_mod.Modpkg.Names.{hash_layer_name}
use league_mod.Modpkg.Builder.{ModpkgChunkBuilder, ModpkgBuilder}
use league_mod.Modpkg.Tables.{
  Unique, add_unique, unique_layers, collect_unique_layers, all_builders, is_defined, all_defined,
  validate_layers,
}

-- The layer of a chunk is one of the layers, if it has one.
abbrev pub HasLayer : List ModpkgLayer → Text → Type 0
HasLayer layers name = (is_empty name ≡ true) ⊎ (is_defined layers name ≡ true)

add_unique-All :
    (P : Text → Type 0) (hash : ℕ) (t : Text) (u : Unique)
    → P t
    → All P u.0
    → All P (add_unique hash t u).0
unfolding add_unique
add_unique-All P hash t (texts, indices) p a = elim (Bool-cases (contains_key hash indices)) [
  | inl old ↦ rw old a
  | inr new ↦ rw new (All-snoc texts a)
]
  where
    All-snoc : (ts : List Text) → All P ts → All P (ts ++ (t ∷ []))
    All-snoc [] b = (p, tt)
    All-snoc (u ∷ ts) b = (b.0, All-snoc ts b.1)

unique_layers-All :
    (e : Externals) (P : Text → Type 0) (chunks : List ModpkgChunkBuilder) (u : Unique)
    → All (λ c. P c.layer) chunks
    → All P u.0
    → All P (unique_layers e chunks u).0
unfolding unique_layers
unique_layers-All e P [] u a b = b
unique_layers-All e P (c ∷ chunks) u a b =
    unique_layers-All e P chunks _ a.1 (elim (Bool-cases (is_empty c.layer)) [
      | inl t ↦ rw t b
      | inr t ↦ rw t (add_unique-All P (hash_layer_name e c.layer) c.layer u a.0 b)
    ])

all_defined-eq-ok :
    (layers : List ModpkgLayer) (names : List Text)
    → All (HasLayer layers) names
    → all_defined layers names ≡ ok tt
unfolding all_defined
all_defined-eq-ok layers [] a = refl
all_defined-eq-ok layers (t ∷ names) (inl n, a) = rw (n, all_defined-eq-ok layers names a) refl
all_defined-eq-ok layers (t ∷ names) (inr d, a) = ground (arith, all_defined-eq-ok layers names a)

validate-eq-ok :
    (layers : List ModpkgLayer) (names : List Text)
    → is_defined layers base_layer_name ≡ true
    → All (HasLayer layers) names
    → validate_layers layers names ≡ ok tt
unfolding validate_layers
validate-eq-ok layers names d a = rw d (all_defined-eq-ok layers names a)

-- If the layer of every chunk is defined, and the base layer is, validation succeeds.
pub collected-eq-ok :
    (e : Externals) (b : ModpkgBuilder)
    → is_defined b.layers base_layer_name ≡ true
    → All (λ c. HasLayer b.layers c.layer) (all_builders b)
    → validate_layers b.layers (collect_unique_layers e b).0 ≡ ok tt
unfolding collect_unique_layers
collected-eq-ok e b d a =
    validate-eq-ok b.layers _ d
      (unique_layers-All e (HasLayer b.layers) (all_builders b) ([], []) a tt)
