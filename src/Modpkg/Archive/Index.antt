-- ===== src/Modpkg/Archive/Index.antt =====
-- The index that `layer_index` gives is that of the layer's hash.
use league_mod.Prelude.{
  ℕ, suc, ◌%◌, ◌^◌, ◌<◌, ◌≡◌, ap, subst, inl, inr, Bool-cases, some, Option-cases, List, [], ◌∷◌,
  Text, arith, length, get_elem?, ◌==◌, eq→≡, nat_ord,
}
use league_mod.Overlay.Externals.{Externals}
use league_mod.Modpkg.Names.{hash_layer_name}
use league_mod.Modpkg.Archive.{Modpkg, position, as_u32, layer_index}

position-eq-some :
    (hash : ℕ) (hashes : List ℕ) (i : ℕ)
    → position hash hashes ≡ some i
    → (i < length hashes) × (get_elem? hashes i ≡ some hash)
unfolding position
position-eq-some hash [] i h = cc
position-eq-some hash (g ∷ hashes) i h = elim (Bool-cases (g == hash)) [
  | inl same ↦
      let is_i : 0 ≡ i = ground (arith, same, h) in
      subst (λ n. (n < length (g ∷ hashes)) × (get_elem? (g ∷ hashes) n ≡ some hash)) is_i
        (omega arith, ap some (eq→≡ g hash same))
  | inr differs ↦ elim (Option-cases (position hash hashes)) [
    | inl absent ↦ absurd (ground (arith, differs, absent, h))
    | inr (j, found) ↦
        let r = position-eq-some hash hashes j found in
        let is_i : suc j ≡ i = ground (arith, differs, found, h) in
        subst (λ n. (n < length (g ∷ hashes)) × (get_elem? (g ∷ hashes) n ≡ some hash)) is_i
          (omega (arith, r.0), r.1)
  ]
]

pub layer_index-eq-some :
    (e : Externals) (m : Modpkg) (layer : Text) (i : ℕ)
    → length m.layer_indices < 2 ^ 32
    → layer_index e m layer ≡ some i
    → (i < length m.layer_indices) × (get_elem? m.layer_indices i ≡ some (hash_layer_name e layer))
unfolding layer_index as_u32
layer_index-eq-some e m layer i small h =
    elim (Option-cases (position (hash_layer_name e layer) m.layer_indices)) [
      | inl absent ↦ absurd (ground (arith, absent, h))
      | inr (j, found) ↦
          let r = position-eq-some (hash_layer_name e layer) m.layer_indices j found in
          let is_i : j % 2 ^ 32 ≡ i = ground (arith, found, h) in
          let same : j ≡ i = omega (arith, r.0, small, is_i) in
          subst
            (λ n.
              (n < length m.layer_indices)
              × (get_elem? m.layer_indices n ≡ some (hash_layer_name e layer)))
            same r
    ]
