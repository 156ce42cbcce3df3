-- ===== src/Modpkg/Builder/Invariant.antt =====
-- What holds of every `ModpkgBuilder` that its functions make.
use league_mod.Prelude.{
  ℕ, ◌+◌, ◌≡◌, refl, ap, ◌⊎◌, inl, inr, ◌≢◌, Bool, true, false, not, ◌&&◌, List, [], ◌∷◌, Text,
  arith, ltb, leb, length, all, if◌then◌else◌, eq_iff, nat_ord, pair_ord,
}
use league_mod.Prelude.Assoc.{contains_key, is_some, Distinct, AllEntries}
use league_mod.Prelude.HashMap.{
  HashMap, insert, get-insert, length-insert, insert-Distinct, insert-AllEntries,
}
use league_mod.Overlay.Externals.{Externals}
use league_mod.Overlay.ChunkHash.{hash_chunk_name, normalize_chunk_path, to_slashes}
use league_mod.Modpkg.Types.{
  ModpkgLayer, ModpkgMetadata, no_layer_hash, metadata_chunk_path, thumbnail_chunk_path,
  readme_chunk_path,
}
use league_mod.Modpkg.Archive.{Key}
use league_mod.Modpkg.Builder.{
  ModpkgChunkBuilder, ModpkgBuilder, key, with_path, with_chunk, meta_chunk, with_metadata,
  with_readme, with_thumbnail, default_builder, with_layer,
}

-- The chunks of the package itself, for the hashes of their three paths: the metadata chunk is there,
-- the others are there if their content is, and nothing else is.
module _ (hm ht hr : ℕ) where
  abbrev pub IsNamed : Bool → Bool → ℕ → Type 0
  IsNamed t r h = (h ≡ hm) ⊎ (((t ≡ true) × (h ≡ ht)) ⊎ ((r ≡ true) × (h ≡ hr)))

  pub record IsSynced (meta_chunks : HashMap Key ModpkgChunkBuilder) (t r : Bool) : Type 0 where
    pub metadata_there : contains_key (hm, no_layer_hash) meta_chunks ≡ true
    pub thumbnail_there : contains_key (ht, no_layer_hash) meta_chunks ≡ t
    pub readme_there : contains_key (hr, no_layer_hash) meta_chunks ≡ r
    pub count : length meta_chunks ≡ 1 + (if t then 1 else 0) + (if r then 1 else 0)
    pub named : AllEntries (λ k c. IsNamed t r c.path_hash) meta_chunks

  IsNamed-more :
      (t r t' r' : Bool) (m : HashMap Key ModpkgChunkBuilder)
      → (t ≡ true → t' ≡ true)
      → (r ≡ true → r' ≡ true)
      → AllEntries (λ k c. IsNamed t r c.path_hash) m
      → AllEntries (λ k c. IsNamed t' r' c.path_hash) m
  IsNamed-more t r t' r' [] f g a = tt
  IsNamed-more t r t' r' ((k, c) ∷ m) f g (inl e, a) = (inl e, IsNamed-more t r t' r' m f g a)
  IsNamed-more t r t' r' ((k, c) ∷ m) f g (inr (inl e), a) =
      (inr (inl (f e.0, e.1)), IsNamed-more t r t' r' m f g a)
  IsNamed-more t r t' r' ((k, c) ∷ m) f g (inr (inr e), a) =
      (inr (inr (g e.0, e.1)), IsNamed-more t r t' r' m f g a)

  module _ (mt : hm ≢ ht) (mr : hm ≢ hr) (tr : ht ≢ hr) (m : HashMap Key ModpkgChunkBuilder)
      (c : ModpkgChunkBuilder) (t r : Bool) where
    pub IsSynced-metadata :
        c.path_hash ≡ hm → IsSynced m t r → IsSynced (insert (hm, no_layer_hash) c m) t r
    IsSynced-metadata h s = record {
      metadata_there = ground (
        arith,
        get-insert (hm, no_layer_hash) (hm, no_layer_hash) c m,
        eq_iff hm hm,
        eq_iff hm hm,
      );
      thumbnail_there = ground (
        arith,
        get-insert (hm, no_layer_hash) (ht, no_layer_hash) c m,
        eq_iff hm ht,
        eq_iff hm hm,
      );
      readme_there = ground (
        arith,
        get-insert (hm, no_layer_hash) (hr, no_layer_hash) c m,
        eq_iff hm hr,
        eq_iff hm hm,
      );
      count = ground (arith, length-insert (hm, no_layer_hash) c m);
      named =
          insert-AllEntries (λ k d. IsNamed t r d.path_hash) (hm, no_layer_hash) c m (inl h)
            s.named;
    }

    pub IsSynced-thumbnail :
        c.path_hash ≡ ht → IsSynced m t r → IsSynced (insert (ht, no_layer_hash) c m) true r
    IsSynced-thumbnail h s = record {
      metadata_there = ground (
        arith,
        get-insert (ht, no_layer_hash) (hm, no_layer_hash) c m,
        eq_iff ht hm,
        eq_iff ht ht,
      );
      thumbnail_there = ground (
        arith,
        get-insert (ht, no_layer_hash) (ht, no_layer_hash) c m,
        eq_iff ht ht,
        eq_iff ht ht,
      );
      readme_there = ground (
        arith,
        get-insert (ht, no_layer_hash) (hr, no_layer_hash) c m,
        eq_iff ht hr,
        eq_iff ht ht,
      );
      count = ground (arith, length-insert (ht, no_layer_hash) c m);
      named =
          insert-AllEntries (λ k d. IsNamed true r d.path_hash) (ht, no_layer_hash) c m
            (inr (inl (refl, h))) (IsNamed-more t r true r m (λ e. refl) (λ e. e) s.named);
    }

    pub IsSynced-readme :
        c.path_hash ≡ hr → IsSynced m t r → IsSynced (insert (hr, no_layer_hash) c m) t true
    IsSynced-readme h s = record {
      metadata_there = ground (
        arith,
        get-insert (hr, no_layer_hash) (hm, no_layer_hash) c m,
        eq_iff hr hm,
        eq_iff hr hr,
      );
      thumbnail_there = ground (
        arith,
        get-insert (hr, no_layer_hash) (ht, no_layer_hash) c m,
        eq_iff hr ht,
        eq_iff hr hr,
      );
      readme_there = ground (
        arith,
        get-insert (hr, no_layer_hash) (hr, no_layer_hash) c m,
        eq_iff hr hr,
        eq_iff hr hr,
      );
      count = ground (arith, length-insert (hr, no_layer_hash) c m);
      named =
          insert-AllEntries (λ k d. IsNamed t true d.path_hash) (hr, no_layer_hash) c m
            (inr (inr (refl, h))) (IsNamed-more t r t true m (λ e. e) (λ e. refl) s.named);
    }

-- A byte that lower case keeps.
abbrev pub is_lower_ascii : ℕ → Bool
is_lower_ascii b = ltb b 128 && not (leb b'A' b && leb b b'Z')

-- What the names of the package's own chunks rely on: lower case keeps ASCII text that has no upper
-- case, and the three paths have hashes of their own.
pub record HasMetaNames (e : Externals) : Type 0 where
  pub keeps_lower : (t : Text) → all is_lower_ascii t ≡ true → e.to_lowercase t ≡ t
  pub metadata-ne-thumbnail :
      hash_chunk_name e metadata_chunk_path ≢ hash_chunk_name e thumbnail_chunk_path
  pub metadata-ne-readme :
      hash_chunk_name e metadata_chunk_path ≢ hash_chunk_name e readme_chunk_path
  pub thumbnail-ne-readme :
      hash_chunk_name e thumbnail_chunk_path ≢ hash_chunk_name e readme_chunk_path

module _ (e : Externals) where
  abbrev pub Synced : HashMap Key ModpkgChunkBuilder → Bool → Bool → Type 0
  Synced =
      IsSynced (hash_chunk_name e metadata_chunk_path) (hash_chunk_name e thumbnail_chunk_path)
        (hash_chunk_name e readme_chunk_path)

  pub record IsBuilder (b : ModpkgBuilder) : Type 0 where
    pub distinct : Distinct b.chunks
    pub keyed : AllEntries (λ k c. key e c ≡ k) b.chunks
    pub synced : Synced b.meta_chunks (is_some b.thumbnail) (is_some b.readme)

  -- The builders that its functions make.
  pub data IsMade : ModpkgBuilder → Type 0 where
    default : IsMade (default_builder e)
    layer : {b : ModpkgBuilder} (l : ModpkgLayer) → IsMade b → IsMade (with_layer b l)
    chunk : {b : ModpkgBuilder} (c : ModpkgChunkBuilder) → IsMade b → IsMade (with_chunk e b c)
    metadata : {b : ModpkgBuilder} (m : ModpkgMetadata) → IsMade b → IsMade (with_metadata e b m)
    readme : {b : ModpkgBuilder} (t : Text) → IsMade b → IsMade (with_readme e b t)
    thumbnail : {b : ModpkgBuilder} (t : List ℕ) → IsMade b → IsMade (with_thumbnail e b t)

  module _ (names : HasMetaNames e) where
    path_hash-meta_chunk :
        (path : Text)
        → all is_lower_ascii path ≡ true
        → to_slashes path ≡ path
        → (meta_chunk e path).path_hash ≡ hash_chunk_name e path
    unfolding meta_chunk with_path normalize_chunk_path
    path_hash-meta_chunk path l n = rw (names.keeps_lower path l, n) refl

    metadata_hash :
        (meta_chunk e metadata_chunk_path).path_hash ≡ hash_chunk_name e metadata_chunk_path
    unfolding to_slashes
    metadata_hash = path_hash-meta_chunk metadata_chunk_path refl refl

    thumbnail_hash :
        (meta_chunk e thumbnail_chunk_path).path_hash ≡ hash_chunk_name e thumbnail_chunk_path
    unfolding to_slashes
    thumbnail_hash = path_hash-meta_chunk thumbnail_chunk_path refl refl

    readme_hash : (meta_chunk e readme_chunk_path).path_hash ≡ hash_chunk_name e readme_chunk_path
    unfolding to_slashes
    readme_hash = path_hash-meta_chunk readme_chunk_path refl refl

    key-meta_chunk :
        (path : Text)
        → (meta_chunk e path).path_hash ≡ hash_chunk_name e path
        → key e (meta_chunk e path) ≡ (hash_chunk_name e path, no_layer_hash)
    unfolding key meta_chunk
    key-meta_chunk path h = ap (λ n. (n, no_layer_hash)) h

    Synced-first :
        Synced
          (insert
            (hash_chunk_name e metadata_chunk_path, no_layer_hash)
            (meta_chunk e metadata_chunk_path)
            [])
          false
          false
    unfolding insert
    Synced-first = record {
      metadata_there = ground (
        arith,
        eq_iff (hash_chunk_name e metadata_chunk_path) (hash_chunk_name e metadata_chunk_path),
      );
      thumbnail_there = ground (
        arith,
        names.metadata-ne-thumbnail,
        eq_iff (hash_chunk_name e metadata_chunk_path) (hash_chunk_name e thumbnail_chunk_path),
      );
      readme_there = ground (
        arith,
        names.metadata-ne-readme,
        eq_iff (hash_chunk_name e metadata_chunk_path) (hash_chunk_name e readme_chunk_path),
      );
      count = ground arith;
      named = (inl metadata_hash, tt);
    }

    -- Where lower case keeps ASCII text without upper case and the three paths of the package
    -- itself have different hashes: a builder made by `default` and the `with_` functions, in any
    -- order, has each chunk once and under its own key, and among the package's own chunks exactly
    -- one for the metadata, one for the readme if there is one and one for the thumbnail if there
    -- is one, and no others.
    pub IsMade-IsBuilder : {b : ModpkgBuilder} → IsMade b → IsBuilder b
    unfolding default_builder with_layer with_chunk with_metadata with_readme with_thumbnail
    IsMade-IsBuilder default = record { distinct = tt; keyed = tt; synced = Synced-first }
    IsMade-IsBuilder (layer l m) =
        let v = IsMade-IsBuilder m in
        record { distinct = v.distinct; keyed = v.keyed; synced = v.synced }
    IsMade-IsBuilder (chunk {b} c m) =
        let v = IsMade-IsBuilder m in
        record {
          distinct = insert-Distinct (key e c) c b.chunks v.distinct;
          keyed = insert-AllEntries (λ k d. key e d ≡ k) (key e c) c b.chunks refl v.keyed;
          synced = v.synced;
        }
    IsMade-IsBuilder (metadata {b} t m) =
        let v = IsMade-IsBuilder m in
        record {
          distinct = v.distinct;
          keyed = v.keyed;
          synced =
              IsSynced-metadata _ _ _ names.metadata-ne-thumbnail names.metadata-ne-readme
                names.thumbnail-ne-readme b.meta_chunks (meta_chunk e metadata_chunk_path)
                (is_some b.thumbnail) (is_some b.readme) metadata_hash v.synced;
        }
    IsMade-IsBuilder (readme {b} t m) =
        let v = IsMade-IsBuilder m in
        record {
          distinct = v.distinct;
          keyed = v.keyed;
          synced = rw (key-meta_chunk readme_chunk_path readme_hash) (
              IsSynced-readme _ _ _ names.metadata-ne-thumbnail names.metadata-ne-readme
                names.thumbnail-ne-readme b.meta_chunks (meta_chunk e readme_chunk_path)
                (is_some b.thumbnail) (is_some b.readme) readme_hash v.synced);
        }
    IsMade-IsBuilder (thumbnail {b} t m) =
        let v = IsMade-IsBuilder m in
        record {
          distinct = v.distinct;
          keyed = v.keyed;
          synced = rw (key-meta_chunk thumbnail_chunk_path thumbnail_hash) (
              IsSynced-thumbnail _ _ _ names.metadata-ne-thumbnail names.metadata-ne-readme
                names.thumbnail-ne-readme b.meta_chunks (meta_chunk e thumbnail_chunk_path)
                (is_some b.thumbnail) (is_some b.readme) thumbnail_hash v.synced);
        }
