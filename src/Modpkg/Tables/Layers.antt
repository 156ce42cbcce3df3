-- ===== src/Modpkg/Tables/Layers.antt =====
-- Validated layers: the layer of every chunk has an index, which leads to its hash.
use league_mod.Prelude.{
  ℕ, suc, ◌+◌, ◌%◌, ◌^◌, ◌<◌, ◌≡◌, refl, sym, ap, subst, ◌∙◌, ◌⊎◌, inl, inr, true, false,
  Bool-cases, some, Option-cases, List, [], ◌∷◌, ◌++◌, map, Text, arith, length, get_elem?,
  if◌then◌else◌, ◌==◌, eq_iff, eq→≡, nat_ord, list_ord,
}
use league_mod.Prelude.Assoc.{In, get, contains_key}
use league_mod.Prelude.HashMap.{HashMap, insert, get-insert}
use league_mod.Prelude.Outcome.{ok}
use league_mod.Overlay.Externals.{Externals}
use league_mod.Overlay.FilePath.{is_empty}
use league_mod.Modpkg.Types.{ModpkgLayer}
use league_mod.Modpkg.Names.{hash_layer_name}
use league_mod.Modpkg.Builder.{ModpkgChunkBuilder, ModpkgBuilder}
use league_mod.Modpkg.Tables.{
  Unique, add_unique, unique_layers, collect_unique_layers, all_builders, is_defined, all_defined,
  validate_layers, layer_index_from, build_layer_index_map,
}

In-append_left : (t : Text) (ts us : List Text) → In t ts → In t (ts ++ us)
In-append_left t [] us i = elim i [ ]
In-append_left t (u ∷ ts) us (inl e) = inl e
In-append_left t (u ∷ ts) us (inr i) = inr (In-append_left t ts us i)

In-snoc : (t : Text) (ts : List Text) → In t (ts ++ (t ∷ []))
In-snoc t [] = inl refl
In-snoc t (u ∷ ts) = inr (In-snoc t ts)

module _ (e : Externals) where
  -- A collected name with the hash.
  pub record Named (texts : List Text) (h : ℕ) : Type 0 where
    pub name : Text
    pub there : In name texts
    pub nonempty : is_empty name ≡ false
    pub hash_is : hash_layer_name e name ≡ h

  abbrev IsCovered : Unique → Type 0
  IsCovered u = (h : ℕ) → contains_key h u.1 ≡ true → Named u.0 h

  add_unique-IsCovered :
      (t : Text) (u : Unique)
      → is_empty t ≡ false
      → IsCovered u
      → IsCovered (add_unique (hash_layer_name e t) t u)
        × (contains_key (hash_layer_name e t) (add_unique (hash_layer_name e t) t u).1 ≡ true)
  unfolding add_unique
  add_unique-IsCovered t (texts, indices) n v =
      elim (Bool-cases (contains_key (hash_layer_name e t) indices)) [
        | inl old ↦ rw old (v, old)
        | inr new ↦ rw new (
          λ h k. elim (Bool-cases (hash_layer_name e t == h)) [
            | inl same ↦ record {
              name = t;
              there = In-snoc t texts;
              nonempty = n;
              hash_is = eq→≡ (hash_layer_name e t) h same;
            }
            | inr differs ↦
                let old = v h (
                  ground
                    (arith, get-insert (hash_layer_name e t) h (length texts % 2 ^ 32) indices)) in
                record {
                  name = old.name;
                  there = In-append_left old.name texts (t ∷ []) old.there;
                  nonempty = old.nonempty;
                  hash_is = old.hash_is;
                }
          ],
          ground (
            arith,
            get-insert (hash_layer_name e t) (hash_layer_name e t) (length texts % 2 ^ 32) indices,
            eq_iff (hash_layer_name e t) (hash_layer_name e t),
          ),
        )
      ]

  add_unique-contains :
      (h k : ℕ) (t : Text) (u : Unique)
      → contains_key h u.1 ≡ true
      → contains_key h (add_unique k t u).1 ≡ true
  unfolding add_unique
  add_unique-contains h k t (texts, indices) c =
      ground (arith, get-insert k h (length texts % 2 ^ 32) indices)

  unique_layers-contains :
      (h : ℕ) (chunks : List ModpkgChunkBuilder) (u : Unique)
      → contains_key h u.1 ≡ true
      → contains_key h (unique_layers e chunks u).1 ≡ true
  unfolding unique_layers
  unique_layers-contains h [] u c = c
  unique_layers-contains h (d ∷ chunks) u c =
      unique_layers-contains h chunks _ (elim (Bool-cases (is_empty d.layer)) [
        | inl t ↦ rw t c
        | inr t ↦ rw t (add_unique-contains h (hash_layer_name e d.layer) d.layer u c)
      ])

  -- One round of the loop.
  abbrev unique_layer : Text → Unique → Unique
  unique_layer layer u = if is_empty layer then u else add_unique (hash_layer_name e layer) layer u

  unique_step :
      (layer : Text) (u : Unique)
      → IsCovered u
      → IsCovered (unique_layer layer u)
        × (is_empty layer ≡ false
            → contains_key (hash_layer_name e layer) (unique_layer layer u).1 ≡ true)
  unique_step layer u v = elim (Bool-cases (is_empty layer)) [
    | inl t ↦ rw t (v, λ n. cc)
    | inr t ↦ let step = add_unique-IsCovered layer u t v in rw t (step.0, λ n. step.1)
  ]

  unique_layers-Named :
      (c : ModpkgChunkBuilder) (chunks : List ModpkgChunkBuilder) (u : Unique)
      → IsCovered u
      → IsCovered (unique_layers e chunks u)
        × (In c chunks
            → is_empty c.layer ≡ false
            → contains_key (hash_layer_name e c.layer) (unique_layers e chunks u).1 ≡ true)
  unfolding unique_layers
  unique_layers-Named c [] u v = (v, λ i n. elim i [ ])
  unique_layers-Named c (d ∷ chunks) u v =
      let step = unique_step d.layer u v in
      let rest = unique_layers-Named c chunks (unique_layer d.layer u) step.0 in
      (
        rest.0,
        λ i n. elim i [
          | inl same ↦
              let layer_is : c.layer ≡ d.layer = ap (λ (b : ModpkgChunkBuilder). b.layer) same in
              rw layer_is (
                unique_layers-contains (hash_layer_name e d.layer) chunks _
                  (step.1 (sym (ap is_empty layer_is) ∙ n)))
          | inr later ↦ rest.1 later n
        ],
      )

all_defined-is_defined :
    (layers : List ModpkgLayer) (t : Text) (texts : List Text)
    → all_defined layers texts ≡ ok tt
    → In t texts
    → is_empty t ≡ false
    → is_defined layers t ≡ true
unfolding all_defined
all_defined-is_defined layers t [] h i n = elim i [ ]
all_defined-is_defined layers t (u ∷ texts) h (inl e) n =
    ground (arith, ap is_empty e, ap (is_defined layers) e)
all_defined-is_defined layers t (u ∷ texts) h (inr i) n =
    ground (arith, all_defined-is_defined layers t texts)

validated :
    (layers : List ModpkgLayer) (texts : List Text)
    → validate_layers layers texts ≡ ok tt
    → all_defined layers texts ≡ ok tt
unfolding validate_layers
validated layers texts h = ground arith

any-In :
    (t : Text) (layers : List ModpkgLayer)
    → is_defined layers t ≡ true
    → (l : ModpkgLayer) × In l layers × (l.name ≡ t)
any-In t [] h = cc
any-In t (l ∷ layers) h = elim (Bool-cases (l.name == t)) [
  | inl same ↦ (l, inl refl, eq→≡ l.name t same)
  | inr differs ↦ let rest = any-In t layers (ground arith) in (rest.0, inr rest.1, rest.2)
]

module _ (e : Externals) where
  -- An index of the map is a place in the list of the layers, with the hash there.
  IsPlace : ℕ → List ModpkgLayer → ℕ → ℕ → Type 0
  IsPlace idx layers h i =
      (j : ℕ) × (i ≡ idx + j)
      × (get_elem? (map (λ (l : ModpkgLayer). hash_layer_name e l.name) layers) j ≡ some h)

  layer_index_from-contains :
      (h idx : ℕ) (layers : List ModpkgLayer) (m : HashMap ℕ ℕ)
      → contains_key h m ≡ true
      → contains_key h (layer_index_from e idx layers m) ≡ true
  unfolding layer_index_from
  layer_index_from-contains h idx [] m c = c
  layer_index_from-contains h idx (l ∷ layers) m c =
      layer_index_from-contains h (idx + 1) layers _
        (ground (arith, get-insert (hash_layer_name e l.name) h (idx % 2 ^ 32) m))

  layer_index_from-In :
      (l : ModpkgLayer) (idx : ℕ) (layers : List ModpkgLayer) (m : HashMap ℕ ℕ)
      → In l layers
      → contains_key (hash_layer_name e l.name) (layer_index_from e idx layers m) ≡ true
  unfolding layer_index_from
  layer_index_from-In l idx [] m i = elim i [ ]
  layer_index_from-In l idx (k ∷ layers) m (inl same) =
      layer_index_from-contains (hash_layer_name e l.name) (idx + 1) layers _ (
        rw (ap (λ (n : ModpkgLayer). hash_layer_name e n.name) same) (
          ground (
            arith,
            get-insert (hash_layer_name e k.name) (hash_layer_name e k.name) (idx % 2 ^ 32) m,
            eq_iff (hash_layer_name e k.name) (hash_layer_name e k.name),
          )))
  layer_index_from-In l idx (k ∷ layers) m (inr i) = layer_index_from-In l (idx + 1) layers _ i

  layer_index_from-IsPlace :
      (h i idx : ℕ) (layers : List ModpkgLayer) (m : HashMap ℕ ℕ)
      → idx + length layers < 2 ^ 32
      → get h (layer_index_from e idx layers m) ≡ some i
      → (get h m ≡ some i) ⊎ IsPlace idx layers h i
  unfolding layer_index_from IsPlace
  layer_index_from-IsPlace h i idx [] m b g = inl g
  layer_index_from-IsPlace h i idx (l ∷ layers) m b g =
      elim (layer_index_from-IsPlace h i (idx + 1) layers
        (insert (hash_layer_name e l.name) (idx % 2 ^ 32) m) (omega arith) g) [
          | inr (j, at, there) ↦ inr (suc j, omega (arith, at), there)
          | inl before ↦ elim (Bool-cases (hash_layer_name e l.name == h)) [
            | inl same ↦ inr (
              0,
              ground (arith, get-insert (hash_layer_name e l.name) h (idx % 2 ^ 32) m),
              ap some (eq→≡ (hash_layer_name e l.name) h same),
            )
            | inr differs ↦
                inl (ground (arith, get-insert (hash_layer_name e l.name) h (idx % 2 ^ 32) m))
          ]
        ]

  -- For layers that were validated: the layer of a chunk has an index, and that leads to its hash.
  pub layer_found :
      (b : ModpkgBuilder) (c : ModpkgChunkBuilder)
      → validate_layers b.layers (collect_unique_layers e b).0 ≡ ok tt
      → length b.layers < 2 ^ 32
      → In c (all_builders b)
      → is_empty c.layer ≡ false
      → (i : ℕ) × (get (hash_layer_name e c.layer) (build_layer_index_map e b.layers) ≡ some i)
        × (get_elem? (map (λ (l : ModpkgLayer). hash_layer_name e l.name) b.layers) i
            ≡ some (hash_layer_name e c.layer))
  unfolding collect_unique_layers build_layer_index_map IsPlace
  layer_found b c v few there nonempty =
      let h : ℕ = hash_layer_name e c.layer in
      let names = unique_layers-Named e c (all_builders b) ([], []) (λ k d. cc) in
      let named = names.0 h (names.1 there nonempty) in
      let defined = any-In named.name b.layers (
        all_defined-is_defined b.layers named.name _ (validated b.layers _ v) named.there
          named.nonempty) in
      let has : contains_key h (layer_index_from e 0 b.layers []) ≡ true =
        subst (λ k. contains_key k (layer_index_from e 0 b.layers []) ≡ true)
          (ap (hash_layer_name e) defined.2 ∙ named.hash_is)
          (layer_index_from-In defined.0 0 b.layers [] defined.1) in
      elim (Option-cases (get h (layer_index_from e 0 b.layers []))) [
        | inl absent ↦ absurd (ground (arith, absent, has))
        | inr (i, g) ↦ elim (layer_index_from-IsPlace h i 0 b.layers [] (omega (arith, few)) g) [
          | inl old ↦ absurd (ground (arith, old))
          | inr (j, at, place) ↦ (
            i,
            g,
            subst
                (λ k.
                  get_elem? (map (λ (l : ModpkgLayer). hash_layer_name e l.name) b.layers) k
                  ≡ some h)
                (omega (arith, at)) place,
          )
        ]
      ]
