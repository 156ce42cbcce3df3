-- ===== src/Overlay/ModpkgContent/Agrees.antt =====
-- What is read of a package in pass 1 is what pass 2 reads.
use league_mod.Prelude.{
  ℕ, ◌^◌, ◌<◌, ◌≡◌, refl, sym, ap, subst, ◌∙◌, ◌⊎◌, inl, inr, Option, none, some, Bool-cases, List,
  [], ◌∷◌, Text, arith, length, All, get_elem?, ◌==◌, eq→≡, nat_ord, pair_ord,
}
use league_mod.Prelude.Assoc.{In, get, AllEntries, All_of_In, entry_of}
use league_mod.Prelude.HashMap.{HashMap, insert, get-insert}
use league_mod.Prelude.Outcome.{Result, ok, err, >>=-eq-ok}
use league_mod.Overlay.FilePath.{FilePath, from, as_str}
use league_mod.Overlay.Externals.{Externals}
use league_mod.Overlay.ChunkHash.{normalize_chunk_path, hash_chunk_name}
use league_mod.Modpkg.Types.{ModpkgError, no_layer_index}
use league_mod.Modpkg.Crates.{Crates}
use league_mod.Modpkg.Names.{hash_layer_name}
use league_mod.Modpkg.Archive.{
  Key, Modpkg, layer_index, wad_index, or_no_keys, chunks_for_wad_layer, load_chunks_batch,
}
use league_mod.Modpkg.Archive.Batch.{In-load_chunks_batch}
use league_mod.Modpkg.Archive.Index.{layer_index-eq-some}
use league_mod.Overlay.ModpkgContent.{
  or_other, rel_paths, add_path, with_paths, overrides_of, in_wad, in_layer, read_wad_overrides,
  read_wad_override_file,
}

or_other-eq-ok : {A : Type 0} (r : Result ModpkgError A) (a : A) → or_other r ≡ ok a → r ≡ ok a
or_other-eq-ok (ok b) a h = cc
or_other-eq-ok (err f) a h = cc

get-add_path :
    (m : Modpkg) (g : ℕ) (o : Option Text) (paths : HashMap ℕ Text) (h : ℕ) (t : Text)
    → get g m.chunk_paths ≡ o
    → get h (elim o [ some path ↦ insert g path paths | none ↦ paths ]) ≡ some t
    → (get h m.chunk_paths ≡ some t) ⊎ (get h paths ≡ some t)
get-add_path m g none paths h t at found = inr found
get-add_path m g (some path) paths h t at found = elim (Bool-cases (g == h)) [
  | inl same ↦
      let is_h : g ≡ h = eq→≡ g h same in
      let is_t : path ≡ t = ground (arith, get-insert g h path paths, same, found) in
      inl (ap (λ n. get n m.chunk_paths) (sym is_h) ∙ at ∙ ap some is_t)
  | inr differs ↦ inr (ground (arith, get-insert g h path paths, differs, found))
]

-- A path that is collected is one that the package records.
get-rel_paths :
    (m : Modpkg) (keys : List Key) (paths : HashMap ℕ Text) (h : ℕ) (t : Text)
    → get h (rel_paths m keys paths) ≡ some t
    → (get h m.chunk_paths ≡ some t) ⊎ (get h paths ≡ some t)
unfolding rel_paths add_path
get-rel_paths m [] paths h t found = inr found
get-rel_paths m (k ∷ keys) paths h t found =
    elim (get-rel_paths m keys (add_path m k.0 paths) h t found) [
      | inl there ↦ inl there
      | inr added ↦ get-add_path m k.0 (get k.0 m.chunk_paths) paths h t refl added
    ]

-- Where an override comes from: a chunk that was loaded and has a path.
abbrev FromBatch : HashMap ℕ Text → List (Key × List ℕ) → FilePath → List ℕ → Type 0
FromBatch paths batch p bytes =
    (k : Key) × (t : Text) × In (k, bytes) batch × (get k.0 paths ≡ some t) × (p ≡ from t)

with_paths_step :
    (paths : HashMap ℕ Text) (k : Key) (b : List ℕ) (batch : List (Key × List ℕ)) (p : FilePath)
    (bytes : List ℕ) (o : Option Text)
    → get k.0 paths ≡ o
    → (In (p, bytes) (with_paths paths batch) → FromBatch paths batch p bytes)
    → In
        (p, bytes)
        (elim o [
          | some rel ↦ (from rel, b) ∷ with_paths paths batch
          | none ↦ with_paths paths batch
        ])
    → FromBatch paths ((k, b) ∷ batch) p bytes
with_paths_step paths k b batch p bytes none at rest i =
    let r = rest i in (r.0, r.1, inr r.2, r.3, r.4)
with_paths_step paths k b batch p bytes (some rel) at rest (inl same) =
    let is_b : bytes ≡ b = ap (λ (q : FilePath × List ℕ). q.1) same in
    (k, rel, inl (ap (λ l. (k, l)) is_b), at, ap (λ (q : FilePath × List ℕ). q.0) same)
with_paths_step paths k b batch p bytes (some rel) at rest (inr i) =
    let r = rest i in (r.0, r.1, inr r.2, r.3, r.4)

In-with_paths :
    (paths : HashMap ℕ Text) (batch : List (Key × List ℕ)) (p : FilePath) (bytes : List ℕ)
    → In (p, bytes) (with_paths paths batch)
    → FromBatch paths batch p bytes
unfolding with_paths
In-with_paths paths [] p bytes i = elim i [ ]
In-with_paths paths ((k, b) ∷ batch) p bytes i =
    with_paths_step paths k b batch p bytes (get k.0 paths) refl (In-with_paths paths batch p bytes)
      i

module _ (x : Crates) (e : Externals) (m : Modpkg) where
  -- What is relied on of the package: a recorded path, read as a path of a file, has the hash that it is
  -- recorded under, and the chunks of a WAD in a layer of the table are of that layer.
  pub record IsIndexed : Type 0 where
    pub paths_named :
        AllEntries
          (λ h t. hash_chunk_name e (normalize_chunk_path e (as_str (from t))) ≡ h)
          m.chunk_paths
    pub in_layer :
        AllEntries
          (λ (g : Key) keys.
            (g.1 ≡ no_layer_index)
            ⊎ All (λ (k : Key). get_elem? m.layer_indices g.1 ≡ some k.1) keys)
          m.chunks_by_wad_layer
    pub layers_fit : length m.layer_indices < 2 ^ 32

  module _ (v : IsIndexed) (layer wad_name : Text) (p : FilePath) (bytes : List ℕ) where
    overrides_of-Agrees :
        (keys : List Key) (entries : List (FilePath × List ℕ))
        → All (λ (k : Key). k.1 ≡ hash_layer_name e layer) keys
        → overrides_of x e m keys ≡ ok entries
        → In (p, bytes) entries
        → read_wad_override_file x e m layer wad_name p ≡ ok bytes
    unfolding overrides_of read_wad_override_file
    overrides_of-Agrees [] entries a h i =
        let none_there : [] ≡ entries = cc in absurd (subst (In (p, bytes)) (sym none_there) i)
    overrides_of-Agrees (k ∷ keys) entries a h i =
        let r = >>=-eq-ok (or_other (load_chunks_batch x m (k ∷ keys))) _ h in
        let entries_are : with_paths (rel_paths m (k ∷ keys) []) r.0 ≡ entries = cc (r.2) in
        let b =
          In-with_paths (rel_paths m (k ∷ keys) []) r.0 p bytes
            (subst (In (p, bytes)) (sym entries_are) i) in
        let l = In-load_chunks_batch x m (k ∷ keys) r.0 b.0 bytes (or_other-eq-ok _ r.0 r.1) b.2 in
        let layer_is : (b.0).1 ≡ hash_layer_name e layer =
          All_of_In (λ (j : Key). j.1 ≡ hash_layer_name e layer) (k ∷ keys) a l.0 in
        elim (get-rel_paths m (k ∷ keys) [] (b.0).0 b.1 b.3) [
          | inl recorded ↦
              let named =
                entry_of (λ h t. hash_chunk_name e (normalize_chunk_path e (as_str (from t))) ≡ h)
                  (b.0).0 b.1 m.chunk_paths v.paths_named recorded in
              let hash_is : hash_chunk_name e (normalize_chunk_path e (as_str p)) ≡ (b.0).0 =
                ap (λ q. hash_chunk_name e (normalize_chunk_path e (as_str q))) b.4 ∙ named in
              rw (hash_is, ← layer_is) (ap or_other l.1)
          | inr empty ↦ cc
        ]

    same_layer :
        (index : ℕ) (keys : List Key)
        → get_elem? m.layer_indices index ≡ some (hash_layer_name e layer)
        → All (λ (k : Key). get_elem? m.layer_indices index ≡ some k.1) keys
        → All (λ (k : Key). k.1 ≡ hash_layer_name e layer) keys
    same_layer index [] found a = tt
    same_layer index (k ∷ keys) found a = (cc (a.0, found), same_layer index keys found a.1)

    group-Agrees :
        (wad_index index : ℕ) (entries : List (FilePath × List ℕ)) (o : Option (List Key))
        → (index < length m.layer_indices)
          × (get_elem? m.layer_indices index ≡ some (hash_layer_name e layer))
        → get (wad_index, index) m.chunks_by_wad_layer ≡ o
        → overrides_of x e m (or_no_keys o) ≡ ok entries
        → In (p, bytes) entries
        → read_wad_override_file x e m layer wad_name p ≡ ok bytes
    group-Agrees wad_index index entries none at none_there h i =
        overrides_of-Agrees [] entries tt h i
    group-Agrees wad_index index entries (some keys) at found h i =
        elim (entry_of
          (λ (g : Key) keys.
            (g.1 ≡ no_layer_index)
            ⊎ All (λ (k : Key). get_elem? m.layer_indices g.1 ≡ some k.1) keys)
          (wad_index, index) keys m.chunks_by_wad_layer v.in_layer found) [
            | inl no_layer ↦ absurd (omega (arith, no_layer, at.0, v.layers_fit))
            | inr all ↦ overrides_of-Agrees keys entries (same_layer index keys at.1 all) h i
          ]

    in_wad-Agrees :
        (index : ℕ) (entries : List (FilePath × List ℕ)) (o : Option ℕ)
        → (index < length m.layer_indices)
          × (get_elem? m.layer_indices index ≡ some (hash_layer_name e layer))
        → in_wad x e m index o ≡ ok entries
        → In (p, bytes) entries
        → read_wad_override_file x e m layer wad_name p ≡ ok bytes
    unfolding in_wad chunks_for_wad_layer
    in_wad-Agrees index entries none at h i = overrides_of-Agrees [] entries tt h i
    in_wad-Agrees index entries (some wad_index) at h i =
        group-Agrees wad_index index entries (get (wad_index, index) m.chunks_by_wad_layer) at refl
          h i

    in_layer-Agrees :
        (entries : List (FilePath × List ℕ)) (o : Option ℕ)
        → layer_index e m layer ≡ o
        → in_layer x e m wad_name o ≡ ok entries
        → In (p, bytes) entries
        → read_wad_override_file x e m layer wad_name p ≡ ok bytes
    unfolding in_layer
    in_layer-Agrees entries none at h i = overrides_of-Agrees [] entries tt h i
    in_layer-Agrees entries (some index) at h i =
        in_wad-Agrees index entries (wad_index e m wad_name)
          (layer_index-eq-some e m layer index v.layers_fit at) h i

-- Where each path that a package records, read as a path of a file, has the hash it is recorded
-- under, the chunks that are listed for a WAD in a layer of the table are of that layer, and there
-- are fewer than 2 ^ 32 layers: each file that `read_wad_overrides` reads of a layer and a WAD is
-- read by `read_wad_override_file`, at its path in that layer, as the same bytes.
pub read_wad_override_file-read_wad_overrides :
    (x : Crates) (e : Externals) (m : Modpkg) (layer wad_name : Text)
    (entries : List (FilePath × List ℕ)) (p : FilePath) (bytes : List ℕ)
    → IsIndexed x e m
    → read_wad_overrides x e m layer wad_name ≡ ok entries
    → In (p, bytes) entries
    → read_wad_override_file x e m layer wad_name p ≡ ok bytes
unfolding read_wad_overrides
read_wad_override_file-read_wad_overrides x e m layer wad_name entries p bytes v h i =
    in_layer-Agrees x e m v layer wad_name p bytes entries (layer_index e m layer) refl h i
